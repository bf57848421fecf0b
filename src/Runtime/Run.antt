-- ===== src/Runtime/Run.antt =====
-- run.py: the state of a run, and `GeneratorRun`, the adapter of a Python generator.
pub mod Lifecycle
mod Tests
use purrcept_core.Base.{
  Bool, true, false, ◌||◌, Option, none, some, List, [], ◌∷◌, Result, ok, err, ⊤,
}
use purrcept_core.Runtime.Exceptions.{Obj, Exc, invalid_run_state, type_error}

-- `RunState`, and `unsupported` for any other object that a custom run returns.
pub data RunState : Type 0 where
  yielded returned : Obj → RunState
  unsupported : RunState

-- What is asked of a Python generator, and how a resumption ends.
pub data FlowCall : Type 0 where
  next close_flow : FlowCall
  send_value : Obj → FlowCall
  throw_error : Exc → FlowCall

pub data Outcome : Type 0 where
  yields stops : Obj → Outcome
  raises : Exc → Outcome

-- The application's generator. Its behaviour is a function of all that it was asked, newest first.
pub record Flow : Type 0 where
  pub resume : List FlowCall → Outcome
  pub finalize : List FlowCall → Option Exc

pub data GeneratorRunState : Type 0 where
  created running returned_state closed : GeneratorRunState

-- `calls` is the generator's history, newest first.
pub record GeneratorRun : Type 0 where
  pub flow : Flow
  pub calls : List FlowCall
  pub state : GeneratorRunState

abbrev pub new_run : Flow → GeneratorRun
new_run flow = record { flow = flow; calls = []; state = created }

abbrev pub same_state : GeneratorRunState → GeneratorRunState → Bool
same_state created created = true
same_state running running = true
same_state returned_state returned_state = true
same_state closed closed = true
same_state _ _ = false

-- A transition keeps the run's new state beside its result, also where it raises.
abbrev pub Transition : Type 0
Transition = Result Exc RunState × GeneratorRun

abbrev settle : Outcome → GeneratorRun → Transition
settle (stops v) r = (ok (returned v), record r { state = returned_state })
settle (raises e) r = (err e, record r { state = closed })
settle (yields e) r = (ok (yielded e), record r { state = running })

-- `_advance`
advance : FlowCall → GeneratorRun → Transition
advance call r =
    let history = call ∷ r.calls in settle (r.flow.resume history) (record r { calls = history })

-- `_require_state`, then the transition
require_state : GeneratorRunState → GeneratorRun → Transition → Transition
require_state expected r go = elim (same_state r.state expected) [
  | true ↦ go
  | false ↦ (err invalid_run_state, r)
]

unfoldable pub start : GeneratorRun → Transition
unfolding advance require_state
start r = require_state created r (advance next r)

unfoldable pub send : Obj → GeneratorRun → Transition
unfolding advance require_state
send value r = require_state running r (advance (send_value value) r)

unfoldable pub throw : Exc → GeneratorRun → Transition
unfolding advance require_state
throw error r = require_state running r (advance (throw_error error) r)

-- `try: flow.close() finally: state = CLOSED`
abbrev close_result : Option Exc → Result Exc ⊤
close_result none = ok tt
close_result (some e) = err e

unfoldable pub close : GeneratorRun → Result Exc ⊤ × GeneratorRun
close r = elim (same_state r.state closed || same_state r.state returned_state) [
  | true ↦ (ok tt, r)
  | false ↦ (
    close_result (r.flow.finalize (close_flow ∷ r.calls)),
    record r { calls = close_flow ∷ r.calls; state = closed },
  )
]

-- The argument of `as_agent_run`: a run, a generator, or anything else.
pub data RunArgument (R : Type 0) : Type 0 where
  agent_run : R → RunArgument R
  generator : Flow → RunArgument R
  other : RunArgument R

pub data AdaptedRun (R : Type 0) : Type 0 where
  custom : R → AdaptedRun R
  adapted : GeneratorRun → AdaptedRun R

pub as_agent_run : {R : Type 0} → RunArgument R → Result Exc (AdaptedRun R)
as_agent_run (agent_run r) = ok (custom r)
as_agent_run (generator flow) = ok (adapted (new_run flow))
as_agent_run other = err type_error
