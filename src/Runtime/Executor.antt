-- ===== src/Runtime/Executor.antt =====
-- executor.py: the executors that select the code of an effect. Executors and handlers act on the
-- world `W`; the classes of the effects are numbers.
pub mod Nearest
pub mod Tests
use purrcept_core.Base.{ℕ, ◌==◌, Option, none, some, List, [], ◌∷◌, Result, err, if◌then◌else◌}
use purrcept_core.Runtime.Exceptions.{Obj, Exc, unsupported_effect}
use purrcept_core.Runtime.Driver.Monad.{Execution, finished, Context}

-- `EffectExecutor.execute`, and `NextExecutor`.
abbrev pub Executor : Type 0 → Type 0
Executor W = Obj → Context → W → Execution W

-- What a synchronous or asynchronous function gives: it returns or raises, or what it returns is
-- awaited.
pub data Reply (W : Type 0) : Type 0 where
  immediate : Result Exc Obj → W → Reply W
  awaitable : Execution W → Reply W

-- `_resolve_result`
abbrev pub resolve_result : {W : Type 0} → Reply W → Execution W
resolve_result (immediate r w) = finished r w
resolve_result (awaitable execution) = execution

abbrev pub Handler : Type 0 → Type 0
Handler W = Obj → Context → W → Reply W

abbrev pub Class : Type 0
Class = ℕ

-- `dict.get`, on the pairs of a dict.
abbrev pub dict_get {ℓ} : {A : Type ℓ} → List (Class × A) → Class → Option A
dict_get [] c = none
dict_get ((k, a) ∷ rest) c = if k == c then some a else dict_get rest c

-- `DispatchExecutor`
pub record DispatchExecutor (W : Type 0) : Type 0 where
  pub handlers : List (Class × Handler W)
  pub fallback : Option (Executor W)

-- What the executors read of Python's objects: the method resolution order of an effect's class, and
-- a callable `execute` of the effect, where it has one.
pub record Objects (W : Type 0) : Type 0 where
  pub mro : Obj → List Class
  pub execute_method : Obj → Option (Context → W → Reply W)

module _ {W : Type 0} where
  abbrev inline_method : Option (Context → W → Reply W) → Context → W → Execution W
  inline_method none context w = finished (err unsupported_effect) w
  inline_method (some execute) context w = resolve_result (execute context w)

  -- `InlineExecutor.execute`
  unfoldable pub inline_execute : Objects W → Executor W
  inline_execute objects effect context w = inline_method (objects.execute_method effect) context w

  abbrev or_else : Option (Handler W) → Option (Handler W) → Option (Handler W)
  or_else (some handler) rest = some handler
  or_else none rest = rest

  -- `DispatchExecutor._find_handler`, on the classes in order.
  unfoldable pub find_handler : List (Class × Handler W) → List Class → Option (Handler W)
  find_handler handlers [] = none
  find_handler handlers (candidate ∷ mro) =
      let rest = find_handler handlers mro in or_else (dict_get handlers candidate) rest

  abbrev fall_back : Option (Executor W) → Executor W
  fall_back (some fallback) effect context w = fallback effect context w
  fall_back none effect context w = finished (err unsupported_effect) w

  abbrev dispatch_to : Option (Handler W) → Option (Executor W) → Executor W
  dispatch_to (some handler) fallback effect context w = resolve_result (handler effect context w)
  dispatch_to none fallback effect context w = fall_back fallback effect context w

  -- `DispatchExecutor.execute`
  unfoldable pub dispatch_execute : Objects W → DispatchExecutor W → Executor W
  dispatch_execute objects d effect context w =
      dispatch_to (find_handler d.handlers (objects.mro effect)) d.fallback effect context w
