-- ===== src/Models/Prompt/Consumption.antt =====
-- When the session gives up its NEXT_REQUEST reminders.
use purrcept_core.Base.{
  ℕ, zero, suc, Bool, true, false, not, ◌≡◌, refl, sym, ap, ◌∙◌, Option, none, some, List, map,
  length, keep_if, Result, ok, err, ⊤,
}
use mathlib.Core.Path.{subst}
use purrcept_core.Models.Messages.{Model, Error}
use purrcept_core.Models.Context.{PreparedContext}
use purrcept_core.Models.Reminders.{SystemReminder, make_reminders, clear}
use purrcept_core.Models.Reminders.Keys.{UniqueKeys, reminder_state_keys, true_ne_false}
use purrcept_core.Models.Reminders.Edits.{keep-UniqueKeys}
use purrcept_core.Models.Prompt.Compiler.{PromptDraft, CompiledPrompt, Hashes, is_next_request}
use purrcept_core.Models.Prompt.Session.{
  TurnPromptSession, RequestTokenBudget, Compiled, Verdict, accepted, retry, attempt, annotate,
  accept_prompt, with_history, compile_loop, session_compile, follow, consume_if, finish_consuming,
  finish_emitting, consume, install, emit_prompt_trace, prompt_compiled, reminder_consumed,
}

-- The reminders that are not for the next request.
abbrev pub lasting : List SystemReminder → List SystemReminder
lasting rs = keep_if (λ r. not (is_next_request r)) rs

module _ {W : Type 0} where
  -- What a compilation did with the session: nothing on an error; on success the pending NEXT_REQUEST
  -- reminders are gone if the prompt consumed them, and nothing else changed.
  abbrev pub Consumes : TurnPromptSession W → Compiled W → Type 0
  Consumes s (err e, s', w) = s' ≡ s
  Consumes s (ok c, s', w) =
      (c.consumed_next_request ≡ true
        → s' ≡ record s { remaining = record { reminders = lasting s.remaining.reminders } })
      × (c.consumed_next_request ≡ false → s' ≡ s)

  consume-value :
      (s : TurnPromptSession W)
      → UniqueKeys s.remaining.reminders
      → consume s
        ≡ ok (record s { remaining = record { reminders = lasting s.remaining.reminders } })
  unfolding clear make_reminders
  consume-value s h =
      ap (λ rs. ok (record s { remaining = record { reminders = rs } }))
        ((reminder_state_keys (lasting s.remaining.reminders)).1
          (keep-UniqueKeys (λ r. not (is_next_request r)) s.remaining.reminders h))

  finish_consuming-Consumes :
      (c : CompiledPrompt) (s : TurnPromptSession W) (r : Result Error ⊤ × W)
      → UniqueKeys s.remaining.reminders
      → c.consumed_next_request ≡ true
      → Consumes s (finish_consuming c s r)
  finish_consuming-Consumes c s (err e, w) h consumed = refl
  finish_consuming-Consumes c s (ok _, w) h consumed =
      subst (λ o. Consumes s (install c s w o)) (sym (consume-value s h))
        (λ e. refl, λ e. absurd (true_ne_false (sym consumed ∙ e)))

  consume_if-Consumes :
      (b : Bool) (n : ℕ) (c : CompiledPrompt) (s : TurnPromptSession W) (w : W)
      → UniqueKeys s.remaining.reminders
      → c.consumed_next_request ≡ b
      → Consumes s (consume_if b n c s w)
  consume_if-Consumes true n c s w h e =
      finish_consuming-Consumes c s
        (emit_prompt_trace s.trace_sink
          (reminder_consumed n (map (λ r. r.key) (keep_if is_next_request s.remaining.reminders)))
          w)
        h e
  consume_if-Consumes false n c s w h e = (λ e'. absurd (true_ne_false (sym e' ∙ e)), λ e'. refl)

  finish_emitting-Consumes :
      (n : ℕ) (c : CompiledPrompt) (s : TurnPromptSession W) (r : Result Error ⊤ × W)
      → UniqueKeys s.remaining.reminders
      → Consumes s (finish_emitting n c s r)
  finish_emitting-Consumes n c s (err e, w) h = refl
  finish_emitting-Consumes n c s (ok _, w) h =
      consume_if-Consumes c.consumed_next_request n c s w h refl

  -- Every result that there is.
  abbrev pub Every : TurnPromptSession W → Option (Compiled W) → Type 0
  Every s none = Unit
  Every s (some r) = Consumes s r

  follow-Every :
      (again : PreparedContext → W → Option (Compiled W)) (n k : ℕ) (s : TurnPromptSession W)
      (v : Result Error Verdict) (w : W)
      → UniqueKeys s.remaining.reminders
      → ((p : PreparedContext) (w' : W) → Every s (again p w'))
      → Every s (follow again n k s v w)
  unfolding accept_prompt
  follow-Every again n k s (err e) w h next = refl
  follow-Every again n k s (ok (accepted c tokens)) w h next =
      finish_emitting-Consumes n (annotate c tokens k) s
        (emit_prompt_trace s.trace_sink (prompt_compiled (annotate c tokens k).diagnostics) w) h
  follow-Every again n k s (ok (retry p)) w h next = next p w

  loop-Every :
      (fuel : ℕ) (hashes : Hashes) (s : TurnPromptSession W) (draft : PromptDraft) (model : Model)
      (n : ℕ) (budget : Option (RequestTokenBudget W)) (k : ℕ) (w : W)
      → UniqueKeys s.remaining.reminders
      → Every s (compile_loop fuel hashes s draft model n budget k w)
  unfolding compile_loop
  loop-Every zero hashes s draft model n budget k w h = tt
  loop-Every (suc fuel) hashes s draft model n budget k w h =
      follow-Every
        (λ history w'.
          compile_loop fuel hashes s (with_history draft history) model n budget (suc k) w')
        n k s (attempt hashes s draft model n budget w).0
        (attempt hashes s draft model n budget w).1 h
        (λ p w'. loop-Every fuel hashes s (with_history draft p) model n budget (suc k) w' h)

  -- With no key twice among the remaining reminders: a compilation that raises, be it for a source,
  -- the compiler, the counter, the budget or the trace sink, leaves the session as it was, its
  -- NEXT_REQUEST reminders still pending; one that returns a prompt that consumed them leaves in the
  -- session exactly the other reminders, in their order; and one that returns a prompt that did not
  -- leaves the session as it was.
  pub compile_consumes :
      (hashes : Hashes) (s : TurnPromptSession W) (draft : PromptDraft) (model : Model) (n : ℕ)
      (budget : Option (RequestTokenBudget W)) (w : W)
      → UniqueKeys s.remaining.reminders
      → Every s (session_compile hashes s draft model n budget w)
  unfolding session_compile
  compile_consumes hashes s draft model n budget w h =
      loop-Every (suc (length draft.history.turn_boundaries)) hashes s draft model n budget 0 w h
