-- ===== src/Models/Prompt/Ending.antt =====
-- The retries of `TurnPromptSession.compile` end, whatever the history is.
use purrcept_core.Base.{ℕ, zero, suc, ◌<◌, ◌≡◌, refl, Option, some, arith, length, Result, ok, err}
use purrcept_core.Models.Messages.{Model, Error}
use purrcept_core.Models.Context.{PreparedContext}
use purrcept_core.Models.Prompt.Compiler.{PromptDraft, Hashes}
use purrcept_core.Models.Prompt.Session.{
  TurnPromptSession, RequestTokenBudget, Compiled, Verdict, accepted, retry, attempt, annotate,
  accept_prompt, follow, with_history, compile_loop, session_compile,
}
use purrcept_core.Models.Prompt.Trimming.{Sound, attempt-Sound, drop_oldest-shorter}

module _ {W : Type 0} where
  follow-Ends :
      (again : PreparedContext → W → Option (Compiled W)) (n k fuel : ℕ) (s : TurnPromptSession W)
      (draft : PromptDraft) (budget : Option (RequestTokenBudget W)) (model : Model)
      (v : Result Error Verdict) (w : W)
      → length draft.history.turn_boundaries < suc fuel
      → Sound draft budget model v
      → ((p : PreparedContext) (w' : W)
          → length p.turn_boundaries < fuel
          → (r : Compiled W) × (again p w' ≡ some r))
      → (r : Compiled W) × (follow again n k s v w ≡ some r)
  follow-Ends again n k fuel s draft budget model (err e) w enough sound next =
      ((err e, s, w), refl)
  follow-Ends again n k fuel s draft budget model (ok (accepted c tokens)) w enough sound next =
      (accept_prompt n (annotate c tokens k) s w, refl)
  follow-Ends again n k fuel s draft budget model (ok (retry p)) w enough sound next =
      next p w (omega (arith, enough, drop_oldest-shorter draft.history p sound))

  loop-Ends :
      (fuel : ℕ) (hashes : Hashes) (s : TurnPromptSession W) (draft : PromptDraft) (model : Model)
      (n : ℕ) (budget : Option (RequestTokenBudget W)) (k : ℕ) (w : W)
      → length draft.history.turn_boundaries < fuel
      → (r : Compiled W) × (compile_loop fuel hashes s draft model n budget k w ≡ some r)
  unfolding compile_loop
  loop-Ends zero hashes s draft model n budget k w enough = absurd (omega (arith, enough))
  loop-Ends (suc fuel) hashes s draft model n budget k w enough =
      follow-Ends
        (λ history w'.
          compile_loop fuel hashes s (with_history draft history) model n budget (suc k) w')
        n k fuel s draft budget model (attempt hashes s draft model n budget w).0
        (attempt hashes s draft model n budget w).1 enough
        (attempt-Sound hashes s draft model n budget w)
        (λ p w' less. loop-Ends fuel hashes s (with_history draft p) model n budget (suc k) w' less)

  -- Whatever the history, the sources, the counter and the trace sink are, compile returns or raises
  -- within one pass more than the history has complete turns.
  pub compile_ends :
      (hashes : Hashes) (s : TurnPromptSession W) (draft : PromptDraft) (model : Model) (n : ℕ)
      (budget : Option (RequestTokenBudget W)) (w : W)
      → (r : Compiled W) × (session_compile hashes s draft model n budget w ≡ some r)
  unfolding session_compile
  compile_ends hashes s draft model n budget w =
      loop-Ends (suc (length draft.history.turn_boundaries)) hashes s draft model n budget 0 w
        (omega arith)
