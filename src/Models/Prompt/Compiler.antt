-- ===== src/Models/Prompt/Compiler.antt =====
-- prompt/compiler.py: `PromptCompiler.compile`.
use purrcept_core.Base.{
  ℕ, String, str_eq, Bool, Option, none, some, List, [], ◌∷◌, ◌++◌, map, Result, ok, err, ◌>>◌,
  raise_if, any_of, if◌then◌else◌, ⊤, leb,
}
use purrcept_core.Base.Int.{ℤ, ltb_ℤ}
use purrcept_core.Runtime.Exceptions.{Obj}
use purrcept_core.Models.Messages.{Block, Continuation, Error, value_error, prompt_compile}
use purrcept_core.Models.Context.{PreparedContext}
use purrcept_core.Models.Reminders.{
  SystemReminder, ReminderScope, ReminderPlacement, next_request, same_scope,
}
use purrcept_core.Models.Prompt.Request.{
  SystemInstruction, ToolSpec, ModelSettings, ModelRequest, has_duplicates, validate_request,
}

pub record PromptDraft : Type 0 where
  pub history : PreparedContext
  pub instructions : List SystemInstruction
  pub tools : List ToolSpec
  pub settings : ModelSettings
  pub cache : Obj
  pub continuation : Option Continuation
  pub metadata : Obj
  pub provider_options : Obj

pub record PromptDiagnostics : Type 0 where
  pub model_round : ℕ
  pub reminder_keys : List (Option String)
  pub reminder_scopes : List (Option ReminderScope)
  pub reminder_placements : List ReminderPlacement
  pub reminder_priorities : List ℤ
  pub content_hashes : List Obj
  pub prompt_fingerprint : Obj
  pub dynamic_source_ids : List String
  pub estimated_tokens : Option ℕ
  pub trimmed_turns : ℕ

pub record CompiledPrompt : Type 0 where
  pub request : ModelRequest
  pub diagnostics : PromptDiagnostics
  pub consumed_next_request : Bool

-- SHA-256 of the representation of what is hashed, of Python's hashlib.
pub record Hashes : Type 0 where
  pub reminder_hash : List Block → Obj
  pub request_hash : ModelRequest → Obj

-- `_normalize_source_ids`
unfoldable pub normalize_source_ids : List String → Result Error ⊤
normalize_source_ids ids =
    raise_if (any_of (str_eq "") ids) value_error >> raise_if (has_duplicates ids) value_error

-- `_validate_unique_reminder_keys`: the loop, from the keys seen so far.
unfoldable pub validate_unique_keys : List String → List (Option String) → Result Error ⊤
validate_unique_keys seen [] = ok tt
validate_unique_keys seen (none ∷ ks) = validate_unique_keys seen ks
validate_unique_keys seen (some k ∷ ks) =
    let rest = validate_unique_keys (k ∷ seen) ks in
    if any_of (str_eq k) seen then err (prompt_compile k) else rest

-- A reminder with the scope that the diagnostics give it.
pub record Entry : Type 0 where
  pub reminder : SystemReminder
  pub shown_scope : Option ReminderScope

abbrev pub scoped : SystemReminder → Entry
scoped r = record { reminder = r; shown_scope = some r.scope }

abbrev pub unscoped : SystemReminder → Entry
unscoped r = record { reminder = r; shown_scope = none }

-- Python's stable `entries.sort(key=lambda entry: -entry[0].priority)`.
unfoldable pub insert_entry : Entry → List Entry → List Entry
insert_entry x [] = x ∷ []
insert_entry x (y ∷ ys) =
    let rest = insert_entry x ys in
    if ltb_ℤ x.reminder.priority y.reminder.priority then y ∷ rest else x ∷ y ∷ ys

unfoldable pub sort_entries : List Entry → List Entry
sort_entries [] = []
sort_entries (x ∷ xs) = insert_entry x (sort_entries xs)

abbrev pub is_next_request : SystemReminder → Bool
is_next_request r = same_scope r.scope next_request

abbrev pub entries_of : List SystemReminder → List SystemReminder → List SystemReminder → List Entry
entries_of stored turn dynamic = map scoped stored ++ map scoped turn ++ map unscoped dynamic

abbrev pub reminders_of : List Entry → List SystemReminder
reminders_of = map (λ e. e.reminder)

-- The request that a draft makes with these reminders.
abbrev pub request_of : PromptDraft → List SystemReminder → ModelRequest
request_of draft reminders = record {
  messages = draft.history.messages;
  instructions = draft.instructions;
  reminders = reminders;
  tools = draft.tools;
  settings = draft.settings;
  cache = draft.cache;
  continuation = draft.continuation;
  metadata = draft.metadata;
  provider_options = draft.provider_options;
}

abbrev pub diagnose : Hashes → ℕ → List Entry → ModelRequest → List String → PromptDiagnostics
diagnose hashes model_round entries request source_ids = record {
  model_round = model_round;
  reminder_keys = map (λ e. e.reminder.key) entries;
  reminder_scopes = map (λ e. e.shown_scope) entries;
  reminder_placements = map (λ e. e.reminder.placement) entries;
  reminder_priorities = map (λ e. e.reminder.priority) entries;
  content_hashes = map (λ e. hashes.reminder_hash e.reminder.content) entries;
  prompt_fingerprint = hashes.request_hash request;
  dynamic_source_ids = source_ids;
  estimated_tokens = none;
  trimmed_turns = 0;
}

-- `PromptCompiler.compile`
unfoldable pub compile :
    Hashes
    → PromptDraft
    → List SystemReminder
    → List SystemReminder
    → List SystemReminder
    → List String
    → ℕ
    → Result Error CompiledPrompt
compile hashes draft stored turn dynamic source_ids model_round = do
  raise_if (leb model_round 0) value_error
  normalize_source_ids source_ids
  let unsorted = entries_of stored turn dynamic
  validate_unique_keys [] (map (λ r. r.key) (reminders_of unsorted))
  let entries = sort_entries unsorted
  let request = request_of draft (reminders_of entries)
  validate_request request
  ok (record {
    request = request;
    diagnostics = diagnose hashes model_round entries request source_ids;
    consumed_next_request = any_of is_next_request (stored ++ turn);
  })
