-- ===== src/Runtime/Driver/Tests.antt =====
-- A run of one effect, driven over services that always answer, and over a sink that fails on
-- progress.
use purrcept_core.Base.{ℕ, ◌≡◌, refl, ap, ◌≢◌, none, some, Result, ok, err, ◌+◌}
use purrcept_core.Base.Int.{pos}
use mathlib.Core.Path.{subst}
use purrcept_core.Runtime.Exceptions.{Obj, Exc, ordinary, event_dispatch, translated}
use purrcept_core.Runtime.Run.{RunState, yielded, returned, unsupported}
use purrcept_core.Runtime.Events.{Event, Reply, replied_none, raised, effect_progress, EffectInfo}
use purrcept_core.Runtime.Driver.Monad.{
  Services, AgentRun, Sys, Execution, finished, reports, Context, emit, emit_now, emit_elapsed,
  run_start, run_send,
}
use purrcept_core.Runtime.Driver.Channel.{report_progress, execute_effect}
use purrcept_core.Runtime.Driver.Loop.{Request, drive, perform_effect, run_effect, run, init}
use purrcept_core.Runtime.Driver.Order.{Ends, events_ordered}
use purrcept_core.Runtime.Driver.Cleanup.{IsClosedOnError, calls_ordered}
use purrcept_core.Runtime.Driver.Observers.{observer_failure_wins}
use purrcept_core.Runtime.Driver.Halting.{HaltsIn, run_halts}

-- The world counts the calls of the services.
abbrev accept_all : Event → ℕ → Reply × ℕ
accept_all e w = (replied_none, w + 1)

abbrev reject_progress : Event → ℕ → Reply × ℕ
reject_progress (effect_progress _ _ _ _) w = (raised (ordinary 9), w)
reject_progress _ w = (replied_none, w + 1)

-- The executor reports once, and returns 5 whatever the report came to.
abbrev stubborn : Obj → Context → ℕ → Execution ℕ
stubborn effect context w = reports 3 w (λ r w'. finished (ok 5) w')

abbrev services : (Event → ℕ → Reply × ℕ) → Services ℕ
services sink = record {
  new_id = λ w. (ok "id", w);
  now = λ w. (ok w, w);
  ticks = λ w. (ok (pos w), w);
  sink = sink;
  execute = stubborn;
}

-- Asks for effect 1 and returns what it is sent; an error passes through it.
abbrev one_effect : AgentRun ℕ ℕ
one_effect = record {
  start = λ r w. (ok (yielded 1), r, w);
  send = λ v r w. (ok (returned v), r, w);
  throw = λ e r w. (err e, r, w);
  close = λ r w. (err (ordinary 8), r, w);
}

abbrev request : Request
request = record { host = 0; metadata = ok 0; run_id = none }

abbrev start_state : Sys ℕ ℕ
start_state = init 0 0

driven : (run (services accept_all) one_effect 2 request (init 0 0)).0 ≡ ok (some 5)
unfolding run drive perform_effect run_effect execute_effect report_progress emit_now emit_elapsed
    emit run_start run_send
driven = refl

-- The failed progress event, the third one, ends the run, and the executor's 5 is dropped.
unobserved :
    (run (services reject_progress) one_effect 2 request (init 0 0)).0
    ≡ err (event_dispatch (translated 2))
unfolding run drive perform_effect run_effect execute_effect report_progress emit_now emit_elapsed
    emit run_start run_send
unobserved = refl

events_ordered_example : Ends (run (services reject_progress) one_effect 2 request (init 0 0))
events_ordered_example = events_ordered (services reject_progress) one_effect 2 request 0 0

calls_ordered_example :
    IsClosedOnError
      (services reject_progress)
      one_effect
      (run (services reject_progress) one_effect 2 request (init 0 0))
calls_ordered_example = calls_ordered (services reject_progress) one_effect 2 request 0 0

abbrev info : EffectInfo
info = record { effect_id = "id"; step_index = 0; effect = 1 }

abbrev failed_state : Sys ℕ ℕ
failed_state =
    (emit_now (services reject_progress) (λ t. effect_progress "r" t info 3) start_state).1

progress_fails :
    emit_now (services reject_progress) (λ t. effect_progress "r" t info 3) start_state
    ≡ (err (event_dispatch (translated 0)), failed_state)
unfolding emit_now emit
progress_fails = refl

abbrev context : Context
context = record { run_id = "r"; effect_id = "id"; step_index = 0; host = 0; metadata = 0 }

observer_failure_wins_example :
    let (result, s) = execute_effect (services reject_progress) "r" info context start_state in
    (result ≡ err (event_dispatch (translated 0))) × (s.events ≡ failed_state.events)
observer_failure_wins_example =
    observer_failure_wins (services reject_progress) "r" info context start_state failed_state 0
      (translated 0) progress_fails

state_of : Result Exc RunState → RunState
state_of (ok state) = state
state_of (err e) = unsupported

one_effect-HaltsIn :
    (w : ℕ) (state : RunState)
    → (one_effect.start 0 w).0 ≡ ok state
    → HaltsIn one_effect 1 state (one_effect.start 0 w).1
unfolding state_of
one_effect-HaltsIn w state e =
    subst (λ s. HaltsIn one_effect 1 s 0) (ap state_of e)
      (
        λ v w' next h. subst (λ s. HaltsIn one_effect 0 s 0) (ap state_of h) tt,
        λ x w' next h. absurd (cc),
      )

run_halts_example : (run (services accept_all) one_effect 2 request start_state).0 ≢ ok none
run_halts_example = run_halts (services accept_all) one_effect 1 request 0 0 one_effect-HaltsIn
