-- ===== src/Runtime/Middleware/Tests.antt =====
-- Tests of the middlewares, on a world with a count of the calls and a note of a final outcome.
use purrcept_core.Base.{
  ℕ, zero, suc, ◌+◌, ◌≤◌, Bool, true, false, ◌≡◌, refl, inl, none, [], ◌∷◌, ◌++◌, ok, err, arith,
}
use purrcept_core.Base.Int.{pos}
use purrcept_core.Base.Float.{finite}
use purrcept_core.Runtime.Exceptions.{ordinary, value_error}
use purrcept_core.Runtime.Driver.Monad.{Execution, finished}
use purrcept_core.Runtime.Executor.{Executor}
use purrcept_core.Runtime.Executor.Tests.{context}
use purrcept_core.Runtime.Middleware.{Middleware, middleware_executor}
use purrcept_core.Runtime.Middleware.Retry.{
  RetryMiddleware, seconds, tuple_of, retry_middleware, should_retry, before_retry, attempts, retry,
}
use purrcept_core.Runtime.Middleware.Chain.{chain_order}
use purrcept_core.Runtime.Middleware.Bounds.{is_final, Ends, Counted, retry_bounded}
use purrcept_core.Runtime.Middleware.Transparent.{retry_transparent}

abbrev Seen : Type 0
Seen = ℕ × Bool

abbrev counted : Seen → ℕ
counted s = s.0

abbrev final_seen : Seen → Bool
final_seen s = s.1

-- The first two calls fail, the third succeeds.
abbrev outcome : Seen → Execution Seen
outcome (zero, b) = finished (err (ordinary 0)) (1, b)
outcome (suc zero, b) = finished (err (ordinary 1)) (2, b)
outcome (suc (suc n), b) = finished (ok 7) (suc (suc (suc n)), true)

abbrev flaky : Executor Seen
flaky effect c w = outcome w

abbrev policy : ℕ → RetryMiddleware Seen
policy n = record {
  max_attempts = n;
  retry_on = λ e. true;
  predicate = none;
  delay = seconds (finite (pos 0) 0);
  sleep = λ s w. (ok tt, w);
}

third_succeeds : retry (policy 3) 5 context flaky (0, false) ≡ finished (ok 7) (3, true)
unfolding retry attempts before_retry should_retry
third_succeeds = refl

second_fails : retry (policy 2) 5 context flaky (0, false) ≡ finished (err (ordinary 1)) (2, false)
unfolding retry attempts before_retry should_retry
second_fails = refl

no_attempts :
    retry_middleware 0 (tuple_of []) none (seconds (finite (pos 0) 0)) (λ s (w : ℕ). (ok tt, w))
    ≡ err value_error
unfolding retry_middleware
no_attempts = refl

outcome-counts :
    (w : Seen)
    → final_seen w ≡ false
    → Ends counted final_seen
        (λ r w'. (counted w' ≡ suc (counted w)) × (final_seen w' ≡ is_final r))
        (outcome w)
outcome-counts (zero, b) h = (refl, h)
outcome-counts (suc zero, b) h = (refl, h)
outcome-counts (suc (suc n), b) h = (refl, refl)

flaky-Counted : Counted counted final_seen (policy 3) (flaky 5 context)
flaky-Counted = record {
  counts = outcome-counts;
  predicate_keeps = λ e w. record { count_kept = refl; shut_kept = refl };
  delay_keeps = λ n e w. record { count_kept = refl; shut_kept = refl };
  sleep_keeps = λ s w. record { count_kept = refl; shut_kept = refl };
}

retry_bounded_example :
    Ends counted final_seen
      (λ r w'. (suc 0 ≤ counted w') × (counted w' ≤ 0 + 3))
      (retry (policy 3) 5 context flaky (0, false))
retry_bounded_example =
    retry_bounded counted final_seen (policy 3) 5 context flaky (0, false) (omega arith)
      flaky-Counted refl

retry_transparent_example : retry (policy 1) 5 context flaky (0, false) ≡ flaky 5 context (0, false)
retry_transparent_example = retry_transparent (policy 1) 5 context flaky (0, false) (inl refl)

-- It adds `n` to the first component, and goes on.
abbrev marks : ℕ → Middleware Seen
marks n effect context call_next w = call_next effect context (n + w.0, w.1)

chain_order_example :
    (middleware_executor flaky (marks 1 ∷ marks 2 ∷ []) 5 context (0, false)
      ≡ marks 1 5 context (middleware_executor flaky (marks 2 ∷ [])) (0, false))
    × (middleware_executor flaky [] ≡ flaky)
    × (middleware_executor flaky ((marks 2 ∷ []) ++ marks 3 ∷ [])
        ≡ middleware_executor (middleware_executor flaky (marks 3 ∷ [])) (marks 2 ∷ []))
chain_order_example = chain_order flaky (marks 1) (marks 2 ∷ []) (marks 3 ∷ []) 5 context (0, false)
