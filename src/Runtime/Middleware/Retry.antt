-- ===== src/Runtime/Middleware/Retry.antt =====
-- middleware.py: `RetryMiddleware`.
use purrcept_core.Base.{
  ℕ, zero, suc, ◌-◌, Bool, true, false, Option, none, some, Result, ok, err, ⊤, leb, List, [], ◌∷◌,
}
use purrcept_core.Base.Float.{Float, is_negative, is_nonzero}
use purrcept_core.Runtime.Exceptions.{Obj, Exc, value_error, type_error, is_deliverable}
use purrcept_core.Runtime.Driver.Monad.{Execution, finished}
use purrcept_core.Runtime.Middleware.{Middleware, then_ended}

-- A number of seconds, or a strategy, which may raise.
pub data Delay (W : Type 0) : Type 0 where
  seconds : Float → Delay W
  strategy : (ℕ → Exc → W → Result Exc Float × W) → Delay W

-- `retry_on` is the test that an error is an instance of one of the types.
pub record RetryMiddleware (W : Type 0) : Type 0 where
  pub max_attempts : ℕ
  pub retry_on : Exc → Bool
  pub predicate : Option (Exc → W → Result Exc Bool × W)
  pub delay : Delay W
  pub sleep : Float → W → Result Exc ⊤ × W

-- One argument of `retry_on`, or a member of its tuple: a class, with whether it derives from
-- `Exception` and the test of an instance, or another object.
pub data Candidate : Type 0 where
  class : Bool → (Exc → Bool) → Candidate
  not_class : Candidate

pub data RetryOn : Type 0 where
  one_type : Candidate → RetryOn
  tuple_of : List Candidate → RetryOn

-- `isinstance(error, types)` on the types of the candidates, once all are exception classes.
abbrev pub all_types : List Candidate → Result Exc (Exc → Bool)
all_types [] = ok (λ e. false)
all_types (not_class ∷ rest) = err type_error
all_types (class false test ∷ rest) = err type_error
all_types (class true test ∷ rest) = elim (all_types rest) [
  | ok others ↦ ok (λ e. elim (test e) [ true ↦ true | false ↦ others e ])
  | err e ↦ err e
]

-- `_normalize_retry_types`
unfoldable pub normalize_retry_types : RetryOn → Result Exc (Exc → Bool)
normalize_retry_types (one_type (class e test)) = all_types (class e test ∷ [])
normalize_retry_types (one_type not_class) = err type_error
normalize_retry_types (tuple_of candidates) = all_types candidates

module _ {W : Type 0} where
  abbrev negative_delay : Delay W → Bool
  negative_delay (seconds s) = is_negative s
  negative_delay (strategy f) = false

  -- `RetryMiddleware.__init__`
  unfoldable pub retry_middleware :
      ℕ
      → RetryOn
      → Option (Exc → W → Result Exc Bool × W)
      → Delay W
      → (Float → W → Result Exc ⊤ × W)
      → Result Exc (RetryMiddleware W)
  retry_middleware max_attempts retry_on predicate delay sleep = elim (leb max_attempts 0) [
    | true ↦ err value_error
    | false ↦ elim (normalize_retry_types retry_on) [
      | err e ↦ err e
      | ok types ↦ elim (negative_delay delay) [
        | true ↦ err value_error
        | false ↦ ok (record {
          max_attempts = max_attempts;
          retry_on = types;
          predicate = predicate;
          delay = delay;
          sleep = sleep;
        })
      ]
    ]
  ]

  abbrev pub ask_predicate : Option (Exc → W → Result Exc Bool × W) → Exc → W → Result Exc Bool × W
  ask_predicate none e w = (ok false, w)
  ask_predicate (some predicate) e w = predicate e w

  -- `_should_retry`
  unfoldable pub should_retry : RetryMiddleware W → Exc → W → Result Exc Bool × W
  should_retry m e w = elim (m.retry_on e) [
    | true ↦ (ok true, w)
    | false ↦ ask_predicate m.predicate e w
  ]

  abbrev pub resolve_delay : Delay W → ℕ → Exc → W → Result Exc Float × W
  resolve_delay (seconds s) attempt e w = (ok s, w)
  resolve_delay (strategy f) attempt e w = f attempt e w

  abbrev pub sleep_nonzero : RetryMiddleware W → Bool → Float → W → Result Exc ⊤ × W
  sleep_nonzero m true s w = m.sleep s w
  sleep_nonzero m false s w = (ok tt, w)

  abbrev pub sleep_checked : RetryMiddleware W → Bool → Float → W → Result Exc ⊤ × W
  sleep_checked m true s w = (err value_error, w)
  sleep_checked m false s w = sleep_nonzero m (is_nonzero s) s w

  -- The checks of the delay, and the sleep.
  abbrev pub sleep_for : RetryMiddleware W → Result Exc Float × W → Result Exc ⊤ × W
  sleep_for m (err e, w) = (err e, w)
  sleep_for m (ok s, w) = sleep_checked m (is_negative s) s w

  -- The handler of an ordinary error, by the choice to retry: what it raises, or `ok`.
  abbrev pub wait_if : RetryMiddleware W → ℕ → Exc → Result Exc Bool × W → Result Exc ⊤ × W
  wait_if m attempt e (err raised, w) = (err raised, w)
  wait_if m attempt e (ok false, w) = (err e, w)
  wait_if m attempt e (ok true, w) = sleep_for m (resolve_delay m.delay attempt e w)

  unfoldable pub before_retry : RetryMiddleware W → ℕ → Exc → W → Result Exc ⊤ × W
  before_retry m attempt e w = wait_if m attempt e (should_retry m e w)

  abbrev pub try_again : (W → Execution W) → Result Exc ⊤ × W → Execution W
  try_again again (ok _, w) = again w
  try_again again (err raised, w) = finished (err raised) w

  -- The three `except` clauses, on an attempt that is not the last.
  abbrev pub after_attempt :
      RetryMiddleware W → ℕ → (W → Execution W) → Result Exc Obj → W → Execution W
  after_attempt m attempt again (ok value) w = finished (ok value) w
  after_attempt m attempt again (err e) w = elim (is_deliverable e) [
    | true ↦ try_again again (before_retry m attempt e w)
    | false ↦ finished (err e) w
  ]

  -- The loop, with `left` attempts to come after this one: with none, every error is raised.
  unfoldable pub attempts : RetryMiddleware W → (W → Execution W) → ℕ → W → Execution W
  attempts m call zero w = then_ended (call w) (λ r w'. finished r w')
  attempts m call (suc left) w =
      let again = attempts m call left in
      then_ended (call w) (after_attempt m (m.max_attempts - suc left) again)

  -- `RetryMiddleware.__call__`
  unfoldable pub retry : RetryMiddleware W → Middleware W
  retry m effect context call_next w = attempts m (call_next effect context) (m.max_attempts - 1) w
