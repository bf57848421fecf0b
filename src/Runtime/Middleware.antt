-- ===== src/Runtime/Middleware.antt =====
-- middleware.py: the chain of middlewares around an executor, and the retry and timeout policies.
pub mod Retry
pub mod Chain
pub mod Bounds
pub mod Transparent
pub mod Tests
use purrcept_core.Base.{Option, List, [], ◌∷◌, ◌++◌, Result}
use purrcept_core.Base.Float.{Float}
use purrcept_core.Runtime.Exceptions.{Obj, Exc}
use purrcept_core.Runtime.Driver.Monad.{Execution, finished, reports, Context}
use purrcept_core.Runtime.Executor.{Executor, Reply, resolve_result}

-- `EffectMiddleware.__call__`
abbrev pub Middleware : Type 0 → Type 0
Middleware W = Obj → Context → Executor W → W → Execution W

module _ {W : Type 0} where
  -- `try: await ...`: what comes after an execution, by how it ended.
  abbrev pub then_ended : Execution W → (Result Exc Obj → W → Execution W) → Execution W
  then_ended (finished r w) next = next r w
  then_ended (reports payload w go) next =
      reports payload w (λ told w'. then_ended (go told w') next)

  -- `_wrap_middleware`
  abbrev pub wrap_middleware : Middleware W → Executor W → Executor W
  wrap_middleware middleware call_next effect context w = middleware effect context call_next w

  abbrev pub reversed : List (Middleware W) → List (Middleware W)
  reversed [] = []
  reversed (m ∷ ms) = reversed ms ++ m ∷ []

  -- The loop of `MiddlewareExecutor.__init__`.
  abbrev pub wrap_each : Executor W → List (Middleware W) → Executor W
  wrap_each call_next [] = call_next
  wrap_each call_next (m ∷ ms) = wrap_each (wrap_middleware m call_next) ms

  -- `MiddlewareExecutor`: its `execute` calls the chain that the constructor builds.
  unfoldable pub middleware_executor : Executor W → List (Middleware W) → Executor W
  middleware_executor base middlewares = wrap_each base (reversed middlewares)

  -- `FunctionMiddleware`
  unfoldable pub function_middleware : (Obj → Context → Executor W → W → Reply W) → Middleware W
  function_middleware function effect context call_next w =
      resolve_result (function effect context call_next w)

  -- `TimeoutMiddleware`, over `asyncio.timeout`.
  unfoldable pub timeout_middleware :
      (Option Float → (W → Execution W) → W → Execution W) → Option Float → Middleware W
  timeout_middleware asyncio_timeout timeout effect context call_next w =
      asyncio_timeout timeout (call_next effect context) w
