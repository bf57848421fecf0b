-- ===== src/Runtime/Executor/Tests.antt =====
-- Tests of the executors: a class 3 that derives from 2 and 1, with handlers for 1 and 2.
use purrcept_core.Base.{ℕ, ◌+◌, ◌≡◌, ◌⊎◌, ◌∷◌, [], some, none, ok, err, refl}
use purrcept_core.Runtime.Exceptions.{unsupported_effect}
use purrcept_core.Runtime.Driver.Monad.{Context, finished}
use purrcept_core.Runtime.Executor.{
  Executor, Handler, Objects, DispatchExecutor, immediate, resolve_result, find_handler,
  dispatch_execute,
}
use purrcept_core.Runtime.Executor.Nearest.{Nearest, Unhandled, dispatch-Nearest}

abbrev pub context : Context
context = record { run_id = "r"; effect_id = "e"; step_index = 0; host = 0; metadata = 0 }

abbrev objects : Objects ℕ
objects = record { mro = λ effect. 3 ∷ 2 ∷ 1 ∷ 0 ∷ []; execute_method = λ effect. none }

abbrev dispatcher : DispatchExecutor ℕ
dispatcher = record {
  handlers =
      (1, λ effect context w. immediate (ok 10) (w + 1))
      ∷ (2, λ effect context w. immediate (ok 20) (w + 2))
      ∷ [];
  fallback = none;
}

dispatch_run : dispatch_execute objects dispatcher 5 context 0 ≡ finished (ok 20) 2
unfolding dispatch_execute find_handler
dispatch_run = refl

dispatch-Nearest_example :
    ((h : Handler ℕ) × Nearest dispatcher.handlers (objects.mro 5) h
      × (dispatch_execute objects dispatcher 5 context 0 ≡ resolve_result (h 5 context 0)))
    ⊎ (Unhandled dispatcher.handlers (objects.mro 5)
        × ((f : Executor ℕ)
            → dispatcher.fallback ≡ some f
            → dispatch_execute objects dispatcher 5 context 0 ≡ f 5 context 0)
        × (dispatcher.fallback ≡ none
            → dispatch_execute objects dispatcher 5 context 0
              ≡ finished (err unsupported_effect) 0))
dispatch-Nearest_example = dispatch-Nearest objects dispatcher 5 context 0
