-- ===== src/Runtime/Driver/Order.antt =====
-- The events of a run are in order, however the run, the executor and the services behave.
use purrcept_core.Base.{
  ℕ, zero, suc, ◌+◌, String, ◌≡◌, refl, ◌≢◌, Option, none, some, arith, Result, ok, err, ⊤,
  Bool-cases, inl, inr,
}
use purrcept_core.Base.Int.{ℤ}
use purrcept_core.Runtime.Exceptions.{Obj, Exc, event_dispatch, cancelled, fatal, is_deliverable}
use purrcept_core.Runtime.Run.{RunState, yielded, returned, unsupported}
use purrcept_core.Runtime.Events.{Event, EffectInfo, effect_progress, run_failed, run_cancelled}
use purrcept_core.Runtime.Driver.Monad.{
  Services, AgentRun, Sys, pure, Execution, finished, reports, Context, emit_elapsed, run_start,
  run_send, run_throw, close_preserving, called, RunCall, called_start, called_send, called_throw,
}
use purrcept_core.Runtime.Driver.Channel.{
  Channel, open_channel, report_progress, run_execution, execute_effect, prefer_latched,
  finish_progress,
}
use purrcept_core.Runtime.Driver.Loop.{
  Request, Preflight, feed_back, run_effect, perform_effect, drive, body, handle, guarded, run,
  init, effect_context, effect_info, after_cancel, after_failure, resume, preflight,
}
use purrcept_core.Runtime.Driver.Grammar.{
  Phase, idle, between, inside, succeeded, ended, step, accept, IsOpen, Allows, Allows-IsOpen,
  same_info_refl,
}
use purrcept_core.Runtime.Driver.Trace.{
  At, Post, Triple, Moves, Moves-bind, service-Moves, emit_now-Moves, emit_elapsed-Moves,
  emit_now-stays, result-Post, IsOrdered, emit_elapsed-IsOrdered,
}

-- RunSucceeded has been emitted where the loop returns a result; where the fuel ran out, the run is
-- between two effects.
abbrev pub Stands : Option Obj → Phase → Type 0
Stands (some v) p = p ≡ succeeded
Stands none p = IsOpen p

-- The events are in order, and those of a run that returned a result end with its success.
abbrev pub Ends : {W R : Type 0} → Result Exc (Option Obj) × Sys W R → Type 0
Ends x =
    (p : Phase) × (accept x.1.events ≡ some p) × ((v : Obj) → x.0 ≡ ok (some v) → p ≡ succeeded)

module _ {W R : Type 0} (sv : Services W) where
  module _ (run_id : String) (info : EffectInfo) where
    report_progress-At :
        (payload : Obj) (c : Channel) (s : Sys W R)
        → At (inside info) s
        → At (inside info) (report_progress sv run_id info payload c s).2
    unfolding report_progress
    report_progress-At payload c s h = ground (
      arith,
      emit_now-stays sv (λ t. effect_progress run_id t info payload) (inside info) s h
          (λ t. rw same_info_refl),
    )

    run_execution-At :
        (x : Execution W) (c : Channel) (s : Sys W R)
        → At (inside info) s
        → At (inside info) (run_execution sv run_id info x c s).2
    unfolding run_execution
    run_execution-At (finished r w) c s h = h
    run_execution-At (reports payload w go) c s h =
        let (r, c', s') = report_progress sv run_id info payload c (record s { world = w }) in
        run_execution-At (go r s'.world) c' s'
          (report_progress-At payload c (record s { world = w }) h)

    prefer_latched-At :
        (latched : Option Exc) (r : Result Exc Obj) (s : Sys W R)
        → At (inside info) s
        → At (inside info) (prefer_latched latched r s).1
    prefer_latched-At none r s h = h
    prefer_latched-At (some p) (ok v) s h = h
    prefer_latched-At (some p) (err e) s h = ground arith

    execute_effect-At :
        (context : Context) (s : Sys W R)
        → At (inside info) s
        → At (inside info) (execute_effect sv run_id info context s).1
    unfolding execute_effect
    execute_effect-At context s h =
        let x = sv.execute info.effect context s.world in
        let (r, c, s') = run_execution sv run_id info x open_channel s in
        prefer_latched-At (finish_progress c).0 r s' (run_execution-At x open_channel s h)

  module _ (ops : AgentRun W R) where
    called-Moves :
        {A : Type 0} (call : RunCall) (f : R → W → Result Exc A × R × W) (p : Phase)
        → IsOpen p
        → Moves {W = W} p (called ops call f) p
    called-Moves call f p h = record { at = λ s at_p. result-Post _ p _ at_p h }

    events-close : (e : Exc) (s : Sys W R) → (close_preserving ops e s).events ≡ s.events
    unfolding close_preserving
    events-close e s = ground arith

    module _ (pre : Preflight) where
      feed_back-Moves :
          (started : ℤ) (info : EffectInfo) (r : Result Exc Obj)
          → Moves
              (inside info)
              (feed_back sv ops pre started info r)
              (between (info.step_index + 1))
      unfolding feed_back run_send run_throw
      feed_back-Moves started info (ok v) =
          Moves-bind _
            (emit_elapsed-Moves sv started _ (inside info) (between (info.step_index + 1)) tt
              (λ t d. rw same_info_refl) (λ e. cc))
            λ _. called-Moves (called_send v) (ops.send v) _ tt
      feed_back-Moves started info (err e) = elim (Bool-cases (is_deliverable e)) [
        | inl y ↦
            rw (y, feed_back)
              (Moves-bind _
                (emit_elapsed-Moves sv started _ (inside info) (between (info.step_index + 1)) tt
                  (λ t d. rw same_info_refl) (λ e. cc))
                λ _. called-Moves (called_throw e) (ops.throw e) _ tt)
        | inr n ↦
            rw (n, feed_back)
              (record { at = λ s h. (inside info, h, Allows-IsOpen (inside info) e tt) })
      ]

      run_effect-Moves :
          (host : Obj) (started : ℤ) (info : EffectInfo)
          → Moves
              (inside info)
              (run_effect sv ops pre host started info)
              (between (info.step_index + 1))
      unfolding run_effect
      run_effect-Moves host started info = record {
        at = λ s h.
            let (r, s') =
              execute_effect sv pre.run_id info (effect_context sv ops pre host info) s in
            (feed_back-Moves started info r).at s'
              (execute_effect-At pre.run_id info (effect_context sv ops pre host info) s h);
      }

      perform_effect-Moves :
          (host effect : Obj) (i : ℕ)
          → Moves (between i) (perform_effect sv ops pre host effect i) (between (i + 1))
      unfolding perform_effect
      perform_effect-Moves host effect i =
          Moves-bind _ (service-Moves sv.new_id (between i) tt) λ effect_id.
            Moves-bind _ (service-Moves sv.ticks (between i) tt) λ started.
              Moves-bind _
                (emit_now-Moves sv _ (between i)
                  (inside (effect_info sv ops pre effect_id i effect)) tt (λ t. ground arith)
                  (λ e. cc))
                λ _. run_effect-Moves host started (effect_info sv ops pre effect_id i effect)

      drive-Triple :
          (host : Obj) (fuel : ℕ) (state : RunState) (i : ℕ)
          → Triple (between i) (drive sv ops pre host fuel state i) Stands
      unfolding drive
      drive-Triple host zero state i = record { at = λ s h. (between i, h, tt) }
      drive-Triple host (suc fuel) (returned v) i =
          Moves-bind (λ _. pure (some v))
            (emit_elapsed-Moves sv pre.started _ (between i) succeeded tt (λ t d. refl) (λ e. cc))
            λ _. record { at = λ s h. (succeeded, h, refl) }
      drive-Triple host (suc fuel) unsupported i = record { at = λ s h. (between i, h, tt) }
      drive-Triple host (suc fuel) (yielded effect) i =
          Moves-bind _ (perform_effect-Moves host effect i)
            λ state. drive-Triple host fuel state (i + 1)

      body-Triple : (host : Obj) (fuel : ℕ) → Triple idle (body sv ops pre host fuel) Stands
      unfolding body run_start
      body-Triple host fuel =
          Moves-bind _ (emit_now-Moves sv _ idle (between 0) tt (λ t. refl) (λ e. cc)) λ _.
            Moves-bind _ (called-Moves called_start ops.start (between 0) tt)
              λ state. drive-Triple host fuel state 0

      after_cancel-IsOrdered :
          (e : Exc) (x : Result Exc ⊤ × Sys W R)
          → IsOrdered x
          → IsOrdered (after_cancel sv ops pre e x)
      after_cancel-IsOrdered e (ok _, s) h = h
      after_cancel-IsOrdered e (err (event_dispatch o), s) h = h
      after_cancel-IsOrdered e (err _, s) h = h

      after_failure-IsOrdered :
          (e : Exc) (x : Result Exc ⊤ × Sys W R)
          → IsOrdered x
          → IsOrdered (after_failure sv ops pre e x)
      after_failure-IsOrdered e (ok _, s) (p, h) = (p, rw events-close h)
      after_failure-IsOrdered e (err _, s) (p, h) = (p, rw events-close h)

      -- RunFailed and RunCancelled have a place wherever their errors are allowed.
      fails :
          (e : Exc) (p : Phase) (t : ℕ) (d : ℤ)
          → IsOpen p
          → step p (run_failed pre.run_id t e d) ≡ some ended
      fails e idle t d h = refl
      fails e (between n) t d h = refl
      fails e (inside i) t d h = refl
      fails e succeeded t d h = absurd h
      fails e ended t d h = absurd h

      cancels :
          (p : Phase) (t : ℕ) (d : ℤ)
          → p ≢ ended
          → step p (run_cancelled pre.run_id t d) ≡ some ended
      cancels idle t d h = refl
      cancels (between n) t d h = refl
      cancels (inside i) t d h = refl
      cancels succeeded t d h = refl
      cancels ended t d h = absurd (h refl)

      handle_failure :
          (e : Exc) (p : Phase) (s : Sys W R)
          → At p s
          → IsOpen p
          → IsOrdered (
              after_failure sv ops pre e
                (emit_elapsed sv pre.started (λ t d. run_failed pre.run_id t e d) s))
      handle_failure e p s at_p h =
          after_failure-IsOrdered e _
            (emit_elapsed-IsOrdered sv pre.started _ p ended s at_p (λ t d. fails e p t d h))

      handle-IsOrdered :
          (e : Exc) (p : Phase) (s : Sys W R)
          → At p s
          → Allows p e
          → IsOrdered (handle sv ops pre e s)
      unfolding handle
      handle-IsOrdered (event_dispatch o) p s at_p h = (p, rw events-close at_p)
      handle-IsOrdered (fatal n) p s at_p h = (p, rw events-close at_p)
      handle-IsOrdered (cancelled n) p s at_p h =
          let closed = close_preserving ops (cancelled n) s in
          let event : ℕ → ℤ → Event = λ t d. run_cancelled pre.run_id t d in
          after_cancel-IsOrdered (cancelled n) (emit_elapsed sv pre.started event closed) (
            emit_elapsed-IsOrdered sv pre.started event p ended closed (rw events-close at_p)
              (λ t d. cancels p t d h))
      handle-IsOrdered e p s at_p h = handle_failure e p s at_p h

      after_cancel_raises :
          (e : Exc) (x : Result Exc ⊤ × Sys W R) (v : Obj)
          → (after_cancel sv ops pre e x).0 ≢ ok (some v)
      after_cancel_raises e (ok _, s) v = λ h. cc
      after_cancel_raises e (err (event_dispatch o), s) v = λ h. cc
      after_cancel_raises e (err _, s) v = λ h. cc

      after_failure_raises :
          (e : Exc) (x : Result Exc ⊤ × Sys W R) (v : Obj)
          → (after_failure sv ops pre e x).0 ≢ ok (some v)
      after_failure_raises e (ok _, s) v = λ h. cc
      after_failure_raises e (err _, s) v = λ h. cc

      handle_raises : (e : Exc) (s : Sys W R) (v : Obj) → (handle sv ops pre e s).0 ≢ ok (some v)
      unfolding handle
      handle_raises (event_dispatch o) s v = λ h. cc
      handle_raises (fatal n) s v = λ h. cc
      handle_raises (cancelled n) s v =
          after_cancel_raises (cancelled n)
            (emit_elapsed sv pre.started (λ t d. run_cancelled pre.run_id t d)
              (close_preserving ops (cancelled n) s))
            v
      handle_raises e s v =
          after_failure_raises e
            (emit_elapsed sv pre.started (λ t d. run_failed pre.run_id t e d) s) v

      guarded-Ends :
          (x : Result Exc (Option Obj) × Sys W R) → Post Stands x → Ends (guarded sv ops pre x)
      unfolding guarded
      guarded-Ends (ok (some v), s) (p, h, q) = (p, h, λ u k. q)
      guarded-Ends (ok none, s) (p, h, q) = (p, h, λ u k. absurd (cc))
      guarded-Ends (err e, s) (p, h, q) =
          let (p', h') = handle-IsOrdered e p s h q in
          (p', h', λ v k. absurd (handle_raises e s v k))

    resume-Ends :
        (host : Obj) (fuel : ℕ) (x : Result Exc Preflight × Sys W R)
        → At idle x.1
        → Ends (resume sv ops host fuel x)
    resume-Ends host fuel (err e, s) h = (idle, rw (events-close) h, λ v k. absurd (cc))
    resume-Ends host fuel (ok pre, s) h =
        guarded-Ends pre (body sv ops pre host fuel s) ((body-Triple pre host fuel).at s h)

    events-preflight : (q : Request) (s : Sys W R) → (preflight sv ops q s).1.events ≡ s.events
    unfolding preflight
    events-preflight q s = ground arith

    -- For every run, executor, sink, clock and id factory, and at every moment of the loop (every
    -- fuel), the events that `AgentDriver.run` has emitted are in order: the first is RunStarted,
    -- or else a RunFailed or RunCancelled is the only event; the effects are announced with the indices
    -- 0, 1, 2 and so on, one at a time; progress and the one outcome of an effect carry the identity of the effect announced last; RunSucceeded comes
    -- with no effect in progress, nothing but RunCancelled can follow it, and it is the last event of
    -- a run that returns a result; after RunFailed or RunCancelled there is no event.
    pub events_ordered :
        (fuel : ℕ) (q : Request) (w : W) (r : R) → Ends (run sv ops fuel q (init w r))
    unfolding run
    events_ordered fuel q w r =
        resume-Ends q.host fuel (preflight sv ops q (init w r))
          (rw (events-preflight q (init w r)) refl)
