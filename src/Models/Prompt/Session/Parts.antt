-- ===== src/Models/Prompt/Session/Parts.antt =====
-- prompt/compiler.py: what a turn's prompt session is made of, and the single tests of its passes.
use purrcept_core.Base.{
  ℕ, String, Bool, true, not, ◌||◌, Option, none, some, List, [], ◌∷◌, Result, ok, err, ◌>>=◌, ◌>>◌,
  raise_if, str_eq, any_of, keep_if, if◌then◌else◌, ⊤, ltb,
}
use purrcept_core.Base.Sets.{string_equal, is_member}
use purrcept_core.Runtime.Exceptions.{is_exception}
use purrcept_core.Runtime.Events.{Reply, replied_none, replied_value, replied_awaitable}
use purrcept_core.Models.Messages.{Model, Error, type_error, value_error, raised, budget_exceeded}
use purrcept_core.Models.Context.{PreparedContext, CountReply, drop_oldest}
use purrcept_core.Models.Reminders.{SystemReminder, ReminderState, turn, same_scope, make_reminders}
use purrcept_core.Models.Prompt.Request.{ModelRequest}
use purrcept_core.Models.Prompt.Compiler.{
  PromptDraft, PromptDiagnostics, CompiledPrompt, is_next_request,
}

-- What a source yields, and what calling it comes to.
pub data Item : Type 0 where
  reminder_item : SystemReminder → Item
  awaitable_item other_item : Item

pub data Resolved : Type 0 where
  yielded_items : List Item → Resolved
  resolved_awaitable not_iterable : Resolved
  resolve_raised : Error → Resolved

pub data PromptTraceEvent : Type 0 where
  prompt_compiled : PromptDiagnostics → PromptTraceEvent
  reminder_consumed : ℕ → List (Option String) → PromptTraceEvent
  source_resolved : ℕ → String → List (Option String) → PromptTraceEvent
  source_failed : ℕ → String → Error → PromptTraceEvent

pub record Source (W : Type 0) : Type 0 where
  pub source_id : String
  pub resolve : PreparedContext → ℕ → W → Resolved × W

pub record RequestTokenBudget (W : Type 0) : Type 0 where
  pub max_tokens : ℕ
  pub counter : ModelRequest → Model → W → CountReply × W

-- What the session holds that does not change, and `_remaining_state`, which does.
pub record TurnPromptSession (W : Type 0) : Type 0 where
  pub base_reminders : List SystemReminder
  pub sources : List (Source W)
  pub trace_sink : Option (PromptTraceEvent → W → Reply × W)
  pub remaining : ReminderState

-- `normalize_reminder_sources`: the loop, from the identifiers seen so far.
abbrev pub sources_from :
    {W : Type 0} → List String → List (Source W) → Result Error (List (Source W))
sources_from seen [] = ok []
sources_from seen (source ∷ sources) =
    raise_if (str_eq "" source.source_id) value_error
    >> raise_if (is_member source.source_id seen) value_error
    >> (sources_from (source.source_id ∷ seen) sources >>= λ normalized. ok (source ∷ normalized))

unfoldable pub normalize_reminder_sources :
    {W : Type 0} → List (Source W) → Result Error (List (Source W))
normalize_reminder_sources sources = sources_from [] sources

-- `TurnPromptSession.__init__`, its fields: TURN reminders are in the base, and not in the remaining
-- state.
unfoldable pub new_session :
    {W : Type 0}
    → ReminderState
    → List (Source W)
    → Option (PromptTraceEvent → W → Reply × W)
    → TurnPromptSession W
new_session state sources sink = record {
  base_reminders = state.reminders;
  sources = sources;
  trace_sink = sink;
  remaining = make_reminders (keep_if (λ r. not (same_scope r.scope turn)) state.reminders);
}

-- `TurnPromptSession.begin`
unfoldable pub begin_session :
    {W : Type 0}
    → ReminderState
    → List (Source W)
    → Option (PromptTraceEvent → W → Reply × W)
    → Result Error (TurnPromptSession W)
begin_session state sources sink =
    normalize_reminder_sources sources >>= λ normalized. ok (new_session state normalized sink)

unfoldable pub active_reminders : {W : Type 0} → TurnPromptSession W → List SystemReminder
active_reminders s =
    let next_request_active = any_of is_next_request s.remaining.reminders in
    keep_if (λ r. not (is_next_request r) || next_request_active) s.base_reminders

-- The reply of a trace sink.
abbrev pub trace_reply : Reply → Result Error ⊤
trace_reply replied_none = ok tt
trace_reply replied_value = err type_error
trace_reply replied_awaitable = err type_error
trace_reply (Reply.raised e) = err (raised e)

-- The loop of `resolve_reminder_source` over what the source yielded.
abbrev pub require_reminders : List Item → Result Error (List SystemReminder)
require_reminders [] = ok []
require_reminders (reminder_item r ∷ items) = elim (require_reminders items) [
  | ok rs ↦ ok (r ∷ rs)
  | err e ↦ err e
]
require_reminders (awaitable_item ∷ items) = err type_error
require_reminders (other_item ∷ items) = err type_error

abbrev pub resolved_reminders : Resolved → Result Error (List SystemReminder)
resolved_reminders (yielded_items items) = require_reminders items
resolved_reminders resolved_awaitable = err type_error
resolved_reminders not_iterable = err type_error
resolved_reminders (resolve_raised e) = err e

-- `except Exception`
abbrev pub is_ordinary : Error → Bool
is_ordinary (raised e) = is_exception e
is_ordinary _ = true

-- A step on the world that returns or raises.
abbrev pub Step : Type 0 → Type 0 → Type 0
Step W A = W → Result Error A × W

abbrev pub continue_with :
    {W A B : Type 0} → (A → Step W B) → Result Error A × W → Result Error B × W
continue_with f (ok a, w) = f a w
continue_with f (err e, w) = (err e, w)

infixl 5 ◌then_do◌
abbrev pub ◌then_do◌ : {W A B : Type 0} → Step W A → (A → Step W B) → Step W B
(m then_do f) w = continue_with f (m w)

abbrev pub give : {W A : Type 0} → Result Error A → Step W A
give r w = (r, w)

-- What one pass of the loop of `compile` decides.
pub data Verdict : Type 0 where
  accepted : CompiledPrompt → Option ℕ → Verdict
  retry : PreparedContext → Verdict

-- The budget's test: the count is over the limit, and the oldest complete turn goes, if there is one.
abbrev pub trim : ℕ → ℕ → Option (Result Error PreparedContext) → Result Error Verdict
trim max_tokens tokens none = err (budget_exceeded max_tokens tokens)
trim max_tokens tokens (some (ok trimmed)) = ok (retry trimmed)
trim max_tokens tokens (some (err e)) = err e

-- What a count comes to.
abbrev pub judge : ℕ → CompiledPrompt → PreparedContext → Result Error ℕ → Result Error Verdict
judge max_tokens compiled history (err e) = err e
judge max_tokens compiled history (ok tokens) =
    if ltb max_tokens tokens
    then trim max_tokens tokens (drop_oldest history)
    else ok (accepted compiled (some tokens))

-- `replace(compiled, diagnostics=replace(…))`
abbrev pub annotate : CompiledPrompt → Option ℕ → ℕ → CompiledPrompt
annotate c tokens trimmed = record {
  request = c.request;
  diagnostics = record c.diagnostics { estimated_tokens = tokens; trimmed_turns = trimmed };
  consumed_next_request = c.consumed_next_request;
}

abbrev pub with_history : PromptDraft → PreparedContext → PromptDraft
with_history draft history = record draft { history = history }

abbrev pub Compiled : Type 0 → Type 0
Compiled W = Result Error CompiledPrompt × TurnPromptSession W × W
