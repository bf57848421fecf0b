-- ===== src/Runtime/Middleware/Transparent.antt =====
-- When a retry changes nothing.
use purrcept_core.Base.{
  ℕ, zero, suc, ◌-◌, false, ◌≡◌, refl, ap, ◌∙◌, fun_ext, ◌⊎◌, inl, inr, none, Result, ok, err,
  Bool-cases,
}
use purrcept_core.Runtime.Exceptions.{Obj, Exc, is_deliverable}
use purrcept_core.Runtime.Driver.Monad.{Execution, finished, reports, Context}
use purrcept_core.Runtime.Executor.{Executor}
use purrcept_core.Runtime.Middleware.{then_ended}
use purrcept_core.Runtime.Middleware.Retry.{
  RetryMiddleware, should_retry, before_retry, after_attempt, attempts, retry,
}

module _ {W : Type 0} where
  then_ended-finished :
      (ex : Execution W) (next : Result Exc Obj → W → Execution W)
      → ((r : Result Exc Obj) (w : W) → next r w ≡ finished r w)
      → then_ended ex next ≡ ex
  then_ended-finished (finished r w) next h = h r w
  then_ended-finished (reports payload w go) next h =
      ap (reports payload w) (fun_ext λ told. fun_ext λ w'. then_ended-finished (go told w') next h)

  -- Neither a type nor a predicate selects an error.
  pub record Unselective (m : RetryMiddleware W) : Type 0 where
    pub no_type : (e : Exc) → m.retry_on e ≡ false
    pub no_predicate : m.predicate ≡ none

  module _ (m : RetryMiddleware W) (u : Unselective m) where
    before_retry-raises : (n : ℕ) (e : Exc) (w : W) → before_retry m n e w ≡ (err e, w)
    unfolding before_retry should_retry
    before_retry-raises n e w = rw (u.no_type e, u.no_predicate, before_retry, should_retry) refl

    after_attempt-ends :
        (n : ℕ) (again : W → Execution W) (r : Result Exc Obj) (w : W)
        → after_attempt m n again r w ≡ finished r w
    after_attempt-ends n again (ok value) w = refl
    after_attempt-ends n again (err e) w = elim (Bool-cases (is_deliverable e)) [
      | inl b ↦ rw (b, before_retry-raises n e w, after_attempt) refl
      | inr b ↦ rw (b, after_attempt) refl
    ]

    attempts-once : (call : W → Execution W) (left : ℕ) (w : W) → attempts m call left w ≡ call w
    unfolding attempts
    attempts-once call zero w = then_ended-finished (call w) (λ r w'. finished r w') (λ r w'. refl)
    attempts-once call (suc left) w =
        then_ended-finished (call w)
          (after_attempt m (m.max_attempts - suc left) (attempts m call left))
          (after_attempt-ends (m.max_attempts - suc left) (attempts m call left))

  single_attempt :
      (m : RetryMiddleware W) (call : W → Execution W) (w : W) → attempts m call 0 w ≡ call w
  unfolding attempts
  single_attempt m call w = then_ended-finished (call w) (λ r w'. finished r w') (λ r w'. refl)

  -- A retry with one attempt, or that selects no error by type and has no predicate, is the
  -- execution that it wraps, reports and errors included.
  pub retry_transparent :
      (m : RetryMiddleware W) (effect : Obj) (context : Context) (call_next : Executor W) (w : W)
      → (m.max_attempts ≡ 1) ⊎ Unselective m
      → retry m effect context call_next w ≡ call_next effect context w
  unfolding retry
  retry_transparent m effect context call_next w (inl one) =
      ap (λ (n : ℕ). attempts m (call_next effect context) (n - 1) w) one
      ∙ single_attempt m (call_next effect context) w
  retry_transparent m effect context call_next w (inr u) =
      attempts-once m u (call_next effect context) (m.max_attempts - 1) w
