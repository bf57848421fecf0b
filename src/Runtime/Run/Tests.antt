-- ===== src/Runtime/Run/Tests.antt =====
-- A generator that yields twice and then returns what it was sent last.
use purrcept_core.Base.{◌≡◌, refl, none, List, [], ◌∷◌, ok}
use purrcept_core.Runtime.Run.{
  new_run, Flow, Outcome, FlowCall, yields, stops, raises, next, send_value, throw_error, returned,
  start, send, GeneratorRun,
}
use purrcept_core.Runtime.Run.Lifecycle.{
  IsLinear, single_use, op_start, op_send, op_close, perform_all,
}

abbrev behave : List FlowCall → Outcome
behave (next ∷ []) = yields 10
behave (send_value v ∷ next ∷ []) = yields 11
behave (throw_error e ∷ _) = raises e
behave (send_value v ∷ _) = stops v
behave _ = stops 0

abbrev two_steps : Flow
two_steps = record { resume = behave; finalize = λ _. none }

single_use_example :
    IsLinear (perform_all (op_start ∷ op_send 5 ∷ op_close ∷ []) (new_run two_steps))
single_use_example = single_use two_steps (op_start ∷ op_send 5 ∷ op_close ∷ [])

second_send : (send 6 (send 5 (start (new_run two_steps)).1).1).0 ≡ ok (returned 6)
unfolding send start
second_send = refl

abbrev started : GeneratorRun
started = (start (new_run two_steps)).1
