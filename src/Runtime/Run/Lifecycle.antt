-- ===== src/Runtime/Run/Lifecycle.antt =====
-- The adapter keeps to the generator protocol, whatever is called on it and in whatever order.
use purrcept_core.Base.{◌≡◌, refl, ◌≢◌, Option, none, some, List, [], ◌∷◌, arith, ok, err}
use purrcept_core.Runtime.Exceptions.{Obj, Exc, invalid_run_state}
use purrcept_core.Runtime.Run.{
  Flow, FlowCall, next, close_flow, send_value, throw_error, Outcome, yields, stops, raises,
  GeneratorRun, GeneratorRunState, created, running, returned_state, closed, new_run, start, send,
  throw, close,
}

-- The protocol of a Python generator, read off its history alone.
pub data Phase : Type 0 where
  fresh suspended finished : Phase

abbrev after : Outcome → Phase
after (yields _) = suspended
after (stops _) = finished
after (raises _) = finished

-- `none`: the call is made in a phase where the protocol has no place for it.
abbrev obey : Phase → FlowCall → Outcome → Option Phase
obey fresh next o = some (after o)
obey fresh close_flow o = some finished
obey suspended (send_value _) o = some (after o)
obey suspended (throw_error _) o = some (after o)
obey suspended close_flow o = some finished
obey _ _ o = none

abbrev pub protocol : Flow → List FlowCall → Option Phase
protocol flow [] = some fresh
protocol flow (c ∷ calls) = elim (protocol flow calls) [
  | none ↦ none
  | some p ↦ obey p c (flow.resume (c ∷ calls))
]

abbrev pub phase_of : GeneratorRunState → Phase
phase_of created = fresh
phase_of running = suspended
phase_of returned_state = finished
phase_of closed = finished

-- The history is one that the protocol allows, and the recorded state is the phase it ends in.
pub record IsLinear (r : GeneratorRun) : Type 0 where
  pub obeyed : protocol r.flow r.calls ≡ some (phase_of r.state)

pub data RunOp : Type 0 where
  op_start op_close : RunOp
  op_send : Obj → RunOp
  op_throw : Exc → RunOp

pub perform : RunOp → GeneratorRun → GeneratorRun
unfolding start send throw close
perform op_start r = (start r).1
perform op_close r = (close r).1
perform (op_send v) r = (send v r).1
perform (op_throw e) r = (throw e r).1

pub perform_all : List RunOp → GeneratorRun → GeneratorRun
unfolding perform
perform_all [] r = r
perform_all (op ∷ ops) r = perform_all ops (perform op r)

pub perform-IsLinear : (op : RunOp) (r : GeneratorRun) → IsLinear r → IsLinear (perform op r)
unfolding perform
perform-IsLinear op_start r h = ground arith
perform-IsLinear op_close r h = ground arith
perform-IsLinear (op_send v) r h = ground arith
perform-IsLinear (op_throw e) r h = ground arith

perform_all-IsLinear :
    (ops : List RunOp) (r : GeneratorRun) → IsLinear r → IsLinear (perform_all ops r)
unfolding perform_all
perform_all-IsLinear [] r h = h
perform_all-IsLinear (op ∷ ops) r h =
    perform_all-IsLinear ops (perform op r) (perform-IsLinear op r h)

-- Whatever sequence of start, send, throw and close is applied to a new adapter, its generator is
-- asked only what the generator protocol allows in that order (next first and once, then values and
-- errors while it is suspended, nothing after it stopped, raised or was closed), and the recorded
-- state is the phase in which that history leaves the generator.
pub single_use : (flow : Flow) (ops : List RunOp) → IsLinear (perform_all ops (new_run flow))
single_use flow ops = perform_all-IsLinear ops (new_run flow) (record { obeyed = refl })

-- In a state other than the expected one, each advancing call raises InvalidRunStateError and
-- leaves the whole run, the generator included, as it was.
rejected_unchanged :
    (r : GeneratorRun) (v : Obj) (e : Exc)
    → (r.state ≢ created → start r ≡ (err invalid_run_state, r))
      × (r.state ≢ running
          → (send v r ≡ (err invalid_run_state, r)) × (throw e r ≡ (err invalid_run_state, r)))
unfolding start send throw
rejected_unchanged r v e = ground arith

-- After a close the run is in a terminal state, and a second close returns and changes nothing,
-- also where the generator raised in the first.
close-close :
    (r : GeneratorRun)
    → let r' = (close r).1 in (phase_of r'.state ≡ finished) × (close r' ≡ (ok tt, r'))
unfolding close
close-close r = ground arith
