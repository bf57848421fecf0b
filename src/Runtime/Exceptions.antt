-- ===== src/Runtime/Exceptions.antt =====
-- Python exceptions, by the classes that the kernel distinguishes (errors.py).
use purrcept_core.Base.{ℕ, ◌==◌, Bool, true, false}

-- An application object of which the kernel uses nothing but its identity.
abbrev pub Obj : Type 0
Obj = ℕ

-- Who raised an `EventDispatchError`: `_emit`, at the emission of that number, or the sink itself.
pub data Origin : Type 0 where
  translated by_sink : ℕ → Origin

-- The number in an application's exception is its identity. `fatal` is any other `BaseException`.
pub data Exc : Type 0 where
  event_dispatch : Origin → Exc
  invalid_run_state unsupported_effect type_error value_error : Exc
  timeout_error : Exc
  ordinary cancelled fatal : ℕ → Exc

-- `isinstance(error, Exception)`: `CancelledError` is a `BaseException` only.
abbrev pub is_exception : Exc → Bool
is_exception (cancelled _) = false
is_exception (fatal _) = false
is_exception _ = true

-- An error that the driver may hand to agent code, and that a retry may repeat.
abbrev pub is_deliverable : Exc → Bool
is_deliverable (event_dispatch _) = false
is_deliverable e = is_exception e

-- `a is b`
abbrev pub same_exc : Exc → Exc → Bool
same_exc (event_dispatch (translated m)) (event_dispatch (translated n)) = m == n
same_exc (event_dispatch (by_sink m)) (event_dispatch (by_sink n)) = m == n
same_exc (ordinary m) (ordinary n) = m == n
same_exc (cancelled m) (cancelled n) = m == n
same_exc (fatal m) (fatal n) = m == n
same_exc _ _ = false
