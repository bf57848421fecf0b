-- ===== src/Runtime/Middleware/Bounds.antt =====
-- How often a retry calls the next executor.
use purrcept_core.Base.{
  ℕ, zero, suc, ◌+◌, ◌-◌, ◌≤◌, Bool, true, false, not, ◌≡◌, refl, ap, ◌∙◌, Result, ok, err, ⊤,
  arith, inl, inr, Bool-cases,
}
use purrcept_core.Base.Float.{Float, is_negative, is_nonzero}
use purrcept_core.Runtime.Exceptions.{Obj, Exc, is_deliverable}
use purrcept_core.Runtime.Driver.Monad.{Execution, finished, reports, Context}
use purrcept_core.Runtime.Executor.{Executor}
use purrcept_core.Runtime.Middleware.{then_ended}
use purrcept_core.Runtime.Middleware.Retry.{
  RetryMiddleware, ask_predicate, should_retry, resolve_delay, sleep_nonzero, sleep_checked,
  sleep_for, wait_if, before_retry, try_again, after_attempt, attempts, retry,
}

-- An outcome after which the effect may not be performed again: a success, a cancellation, a
-- dispatch failure, or another error that is no `Exception`.
abbrev pub is_final : Result Exc Obj → Bool
is_final (ok value) = true
is_final (err e) = not (is_deliverable e)

-- Two observations of the world: the number of calls so far, and whether a final outcome was seen.
module _ {W : Type 0} (count : W → ℕ) (shut : W → Bool) where
  pub record Keeps (w w' : W) : Type 0 where
    pub count_kept : count w' ≡ count w
    pub shut_kept : shut w' ≡ shut w

  -- However the driver answers the reports, the execution ends in `P`.
  abbrev pub Ends : (Result Exc Obj → W → Type 0) → Execution W → Type 0
  Ends P (finished r w) = P r w
  Ends P (reports payload w go) = (told : Result Exc ⊤) (w' : W) → Keeps w w' → Ends P (go told w')

  -- A call counts itself, and notes a final outcome; what a call does after a final outcome is not
  -- said. The application's predicate, delay and sleep do not call.
  pub record Counted (m : RetryMiddleware W) (call : W → Execution W) : Type 0 where
    pub counts :
        (w : W)
        → shut w ≡ false
        → Ends (λ r w'. (count w' ≡ suc (count w)) × (shut w' ≡ is_final r)) (call w)
    pub predicate_keeps : (e : Exc) (w : W) → Keeps w (ask_predicate m.predicate e w).1
    pub delay_keeps : (n : ℕ) (e : Exc) (w : W) → Keeps w (resolve_delay m.delay n e w).1
    pub sleep_keeps : (s : Float) (w : W) → Keeps w (m.sleep s w).1

  Keeps-still : (w : W) → Keeps w w
  Keeps-still w = record { count_kept = refl; shut_kept = refl }

  Keeps-then : (u v w : W) → Keeps u v → Keeps v w → Keeps u w
  Keeps-then u v w h k = record {
    count_kept = k.count_kept ∙ h.count_kept;
    shut_kept = k.shut_kept ∙ h.shut_kept;
  }

  then_ended-Ends :
      (P Q : Result Exc Obj → W → Type 0) (ex : Execution W)
      (next : Result Exc Obj → W → Execution W)
      → Ends P ex
      → ((r : Result Exc Obj) (w : W) → P r w → Ends Q (next r w))
      → Ends Q (then_ended ex next)
  then_ended-Ends P Q (finished r w) next h k = k r w h
  then_ended-Ends P Q (reports payload w go) next h k =
      λ told w' kept. then_ended-Ends P Q (go told w') next (h told w' kept) k

  Ends-weaken :
      (P Q : Result Exc Obj → W → Type 0) (ex : Execution W)
      → ((r : Result Exc Obj) (w : W) → P r w → Q r w)
      → Ends P ex
      → Ends Q ex
  Ends-weaken P Q (finished r w) k h = k r w h
  Ends-weaken P Q (reports payload w go) k h =
      λ told w' kept. Ends-weaken P Q (go told w') k (h told w' kept)

  module _ (m : RetryMiddleware W) (call : W → Execution W) (c : Counted m call) where
    sleep_checked-Keeps :
        (b z : Bool) (s : Float) (w : W)
        → Keeps w (elim b [ true ↦ w | false ↦ (sleep_nonzero m z s w).1 ])
    sleep_checked-Keeps true z s w = Keeps-still w
    sleep_checked-Keeps false true s w = c.sleep_keeps s w
    sleep_checked-Keeps false false s w = Keeps-still w

    checked-Keeps : (b : Bool) (s : Float) (w : W) → Keeps w (sleep_checked m b s w).1
    checked-Keeps true s w = Keeps-still w
    checked-Keeps false s w = sleep_checked-Keeps false (is_nonzero s) s w

    sleep_for-Keeps : (r : Result Exc Float) (w : W) → Keeps w (sleep_for m (r, w)).1
    sleep_for-Keeps (ok s) w = checked-Keeps (is_negative s) s w
    sleep_for-Keeps (err e) w = Keeps-still w

    delayed-Keeps : (w : W) (t : Result Exc Float × W) → Keeps w t.1 → Keeps w (sleep_for m t).1
    delayed-Keeps w (r, w') h = Keeps-then w w' (sleep_for m (r, w')).1 h (sleep_for-Keeps r w')

    wait_if-Keeps :
        (n : ℕ) (e : Exc) (w : W) (t : Result Exc Bool × W)
        → Keeps w t.1
        → Keeps w (wait_if m n e t).1
    wait_if-Keeps n e w (err raised, w') h = h
    wait_if-Keeps n e w (ok false, w') h = h
    wait_if-Keeps n e w (ok true, w') h =
        delayed-Keeps w (resolve_delay m.delay n e w')
          (Keeps-then w w' (resolve_delay m.delay n e w').1 h (c.delay_keeps n e w'))

    should_retry-Keeps : (e : Exc) (w : W) → Keeps w (should_retry m e w).1
    unfolding should_retry
    should_retry-Keeps e w = elim (Bool-cases (m.retry_on e)) [
      | inl b ↦ rw (b, should_retry) (Keeps-still w)
      | inr b ↦ rw (b, should_retry) (c.predicate_keeps e w)
    ]

    before_retry-Keeps : (n : ℕ) (e : Exc) (w : W) → Keeps w (before_retry m n e w).1
    unfolding before_retry
    before_retry-Keeps n e w = wait_if-Keeps n e w (should_retry m e w) (should_retry-Keeps e w)

    -- Between one call and as many as are allowed.
    abbrev pub Calls : ℕ → W → Result Exc Obj → W → Type 0
    Calls n w r w' = (suc (count w) ≤ count w') × (count w' ≤ count w + n)

    try_again-Ends :
        (left : ℕ) (again : W → Execution W) (w w1 : W) (t : Result Exc ⊤ × W)
        → ((v : W) → shut v ≡ false → Ends (Calls (suc left) v) (again v))
        → count w1 ≡ suc (count w)
        → shut w1 ≡ false
        → Keeps w1 t.1
        → Ends (Calls (suc (suc left)) w) (try_again again t)
    try_again-Ends left again w w1 (ok u, v) next one unshut kept =
        let same : count v ≡ count w1 = kept.count_kept in
        Ends-weaken (Calls (suc left) v) (Calls (suc (suc left)) w) (again v)
          (λ r w' h. let (low, high) = h in (omega arith, omega arith))
          (next v (kept.shut_kept ∙ unshut))
    try_again-Ends left again w w1 (err e, v) next one unshut kept =
        let same : count v ≡ count w1 = kept.count_kept in (omega arith, omega arith)

    after_attempt-Ends :
        (left n : ℕ) (again : W → Execution W) (w w1 : W) (r : Result Exc Obj)
        → ((v : W) → shut v ≡ false → Ends (Calls (suc left) v) (again v))
        → count w1 ≡ suc (count w)
        → shut w1 ≡ is_final r
        → Ends (Calls (suc (suc left)) w) (after_attempt m n again r w1)
    after_attempt-Ends left n again w w1 (ok value) next one final = (omega arith, omega arith)
    after_attempt-Ends left n again w w1 (err e) next one final =
        elim (Bool-cases (is_deliverable e)) [
          | inl b ↦
              rw (b, after_attempt)
                (try_again-Ends left again w w1 (before_retry m n e w1) next one (final ∙ ap not b)
                  (before_retry-Keeps n e w1))
          | inr b ↦ rw (b, after_attempt) (omega arith, omega arith)
        ]

    attempts-Ends :
        (left : ℕ) (w : W) → shut w ≡ false → Ends (Calls (suc left) w) (attempts m call left w)
    unfolding attempts
    attempts-Ends zero w unshut =
        then_ended-Ends (λ r w'. (count w' ≡ suc (count w)) × (shut w' ≡ is_final r)) (Calls 1 w)
          (call w) (λ r w'. finished r w') (c.counts w unshut)
          (λ r w' h. let (one, final) = h in (omega arith, omega arith))
    attempts-Ends (suc left) w unshut =
        then_ended-Ends (λ r w'. (count w' ≡ suc (count w)) × (shut w' ≡ is_final r))
          (Calls (suc (suc left)) w) (call w)
          (after_attempt m (m.max_attempts - suc left) (attempts m call left)) (c.counts w unshut)
          (λ r w' h.
            after_attempt-Ends left (m.max_attempts - suc left) (attempts m call left) w w' r
              (attempts-Ends left) h.0 h.1)

-- A retry calls the next executor at least once and at most `max_attempts` times, and never again
-- after a call that succeeded, was cancelled, or failed to dispatch an event. It is said of a world
-- with a count of the calls and a note of such an outcome, which only the calls change; a call after
-- the note may do anything to them.
pub retry_bounded :
    {W : Type 0} (count : W → ℕ) (shut : W → Bool) (m : RetryMiddleware W) (effect : Obj)
    (context : Context) (call_next : Executor W) (w : W)
    → 1 ≤ m.max_attempts
    → Counted count shut m (call_next effect context)
    → shut w ≡ false
    → Ends count shut
        (λ r w'. (suc (count w) ≤ count w') × (count w' ≤ count w + m.max_attempts))
        (retry m effect context call_next w)
unfolding retry
retry_bounded count shut m effect context call_next w some_attempt c unshut =
    Ends-weaken count shut
      (λ r w'. (suc (count w) ≤ count w') × (count w' ≤ count w + suc (m.max_attempts - 1)))
      (λ r w'. (suc (count w) ≤ count w') × (count w' ≤ count w + m.max_attempts))
      (attempts m (call_next effect context) (m.max_attempts - 1) w)
      (λ r w' h. let (low, high) = h in (low, omega arith))
      (attempts-Ends count shut m (call_next effect context) c (m.max_attempts - 1) w unshut)
