-- ===== src/Runtime/Driver/Cleanup.antt =====
-- The calls that the driver makes of a run: their order, and the close on every abnormal exit.
use purrcept_core.Base.{
  ℕ, zero, suc, ◌+◌, ◌≡◌, refl, true, false, Option, none, some, List, [], ◌∷◌, arith, Result, ok,
  err, ⊤, inl, inr, Bool-cases, ◌≢◌,
}
use purrcept_core.Base.Int.{ℤ}
use purrcept_core.Runtime.Exceptions.{Obj, Exc, event_dispatch, cancelled, fatal, is_deliverable}
use purrcept_core.Runtime.Run.{RunState, yielded, returned, unsupported}
use purrcept_core.Runtime.Events.{Event, EffectInfo, run_cancelled, run_failed, run_started}
use purrcept_core.Runtime.Driver.Monad.{
  Services, AgentRun, Sys, Act, ◌>>=◌, service, emit_now, emit_elapsed, RunCall, called_start,
  called_close, called_send, called_throw, run_start, run_send, run_throw, close_preserving,
}
use purrcept_core.Runtime.Driver.Channel.{execute_effect}
use purrcept_core.Runtime.Driver.Loop.{
  Request, Preflight, feed_back, run_effect, perform_effect, drive, body, handle, guarded, run,
  init, preflight, after_cancel, after_failure, resume, effect_info, effect_context,
}
use purrcept_core.Runtime.Driver.Invariants.{
  Keeps, Keeps-pure, Keeps-fail, Keeps-bind, emit_now-SameRun, emit_elapsed-SameRun,
  execute_effect-SameRun,
}

-- How far the calls of a run have come, newest first; `none` for a call out of place. An error is
-- thrown into agent code only if it is an ordinary one: no cancellation, no dispatch failure.
pub data CallPhase : Type 0 where
  unstarted active closed : CallPhase

abbrev pub next_call : CallPhase → RunCall → Option CallPhase
next_call unstarted called_start = some active
next_call unstarted called_close = some closed
next_call active (called_send _) = some active
next_call active (called_throw e) = elim (is_deliverable e) [ true ↦ some active | false ↦ none ]
next_call active called_close = some closed
next_call _ _ = none

abbrev pub call_phase : List RunCall → Option CallPhase
call_phase [] = some unstarted
call_phase (c ∷ calls) = elim (call_phase calls) [ none ↦ none | some p ↦ next_call p c ]

abbrev Called : {W R : Type 0} → CallPhase → Sys W R → Type 0
Called p s = call_phase s.calls ≡ some p

module _ {W R : Type 0} (sv : Services W) (ops : AgentRun W R) where
  emit_now-Keeps :
      (p : CallPhase) (e : ℕ → Event) → Keeps {W = W} {R = R} (Called p) (emit_now sv e)
  emit_now-Keeps p e = record { at = λ s h. rw (emit_now-SameRun sv e s).1 h }

  emit_elapsed-Keeps :
      (p : CallPhase) (m : ℤ) (e : ℕ → ℤ → Event)
      → Keeps {W = W} {R = R} (Called p) (emit_elapsed sv m e)
  emit_elapsed-Keeps p m e = record { at = λ s h. rw (emit_elapsed-SameRun sv m e s).1 h }

  service-Keeps :
      {A : Type 0} (p : CallPhase) (f : W → Result Exc A × W)
      → Keeps {W = W} {R = R} (Called p) (service f)
  service-Keeps p f = record { at = λ s h. h }

  run_send-Keeps : (v : Obj) → Keeps {W = W} {R = R} (Called active) (run_send ops v)
  unfolding run_send
  run_send-Keeps v = record { at = λ s h. rw h refl }

  run_throw-Keeps :
      (e : Exc) → is_deliverable e ≡ true → Keeps {W = W} {R = R} (Called active) (run_throw ops e)
  unfolding run_throw
  run_throw-Keeps e y = record { at = λ s h. rw h (ground arith) }

  module _ (pre : Preflight) where
    feed_back-Keeps :
        (started : ℤ) (info : EffectInfo) (r : Result Exc Obj)
        → Keeps (Called active) (feed_back sv ops pre started info r)
    unfolding feed_back
    feed_back-Keeps started info (ok v) =
        Keeps-bind _ _ (emit_elapsed-Keeps active started _) λ _. run_send-Keeps v
    feed_back-Keeps started info (err e) = elim (Bool-cases (is_deliverable e)) [
      | inl y ↦
          rw (y, feed_back)
            (Keeps-bind _ _ (emit_elapsed-Keeps active started _) λ _. run_throw-Keeps e y)
      | inr n ↦ rw (n, feed_back) (Keeps-fail e)
    ]

    run_effect-Keeps :
        (host : Obj) (started : ℤ) (info : EffectInfo)
        → Keeps (Called active) (run_effect sv ops pre host started info)
    unfolding run_effect
    run_effect-Keeps host started info = record {
      at = λ s h.
          let context = effect_context sv ops pre host info in
          let (r, s') = execute_effect sv pre.run_id info context s in
          (feed_back-Keeps started info r).at s'
            (rw (execute_effect-SameRun sv pre.run_id info context s).1 h);
    }

    perform_effect-Keeps :
        (host effect : Obj) (i : ℕ)
        → Keeps (Called active) (perform_effect sv ops pre host effect i)
    unfolding perform_effect
    perform_effect-Keeps host effect i =
        Keeps-bind _ _ (service-Keeps active sv.new_id) λ effect_id.
          Keeps-bind _ _ (service-Keeps active sv.ticks) λ started.
            Keeps-bind _ _ (emit_now-Keeps active _)
              λ _. run_effect-Keeps host started (effect_info sv ops pre effect_id i effect)

    drive-Keeps :
        (host : Obj) (fuel : ℕ) (state : RunState) (i : ℕ)
        → Keeps (Called active) (drive sv ops pre host fuel state i)
    unfolding drive
    drive-Keeps host zero state i = Keeps-pure none
    drive-Keeps host (suc fuel) (returned v) i =
        Keeps-bind _ _ (emit_elapsed-Keeps active pre.started _) λ _. Keeps-pure (some v)
    drive-Keeps host (suc fuel) unsupported i = Keeps-fail _
    drive-Keeps host (suc fuel) (yielded effect) i =
        Keeps-bind _ _ (perform_effect-Keeps host effect i)
          λ state. drive-Keeps host fuel state (i + 1)

    -- What the body leaves: an error may come before or after the start.
    abbrev Left : Result Exc (Option Obj) × Sys W R → Type 0
    Left (ok _, s) = Called active s
    Left (err _, s) = (p : CallPhase) × Called p s × (p ≢ closed)

    started_Left : (x : Result Exc (Option Obj) × Sys W R) → Called active x.1 → Left x
    started_Left (ok _, s) h = h
    started_Left (err _, s) h = (active, h, λ e. cc)

    continue-Left :
        {A : Type 0} (p : CallPhase) (f : A → Act W R (Option Obj)) (x : Result Exc A × Sys W R)
        → Called p x.1
        → p ≢ closed
        → ((a : A) (s : Sys W R) → Called p s → Left (f a s))
        → Left (elim x.0 [ ok a ↦ f a x.1 | err e ↦ (err e, x.1) ])
    continue-Left p f (ok a, s) h n k = k a s h
    continue-Left p f (err e, s) h n k = (p, h, n)

    start-active : (s : Sys W R) → Called unstarted s → Called active (run_start ops s).1
    unfolding run_start
    start-active s h = rw h refl

    body-Left :
        (host : Obj) (fuel : ℕ) (s : Sys W R)
        → Called unstarted s
        → Left (body sv ops pre host fuel s)
    unfolding body
    body-Left host fuel s h =
        let rest : Act W R (Option Obj) =
          run_start ops >>= λ state. drive sv ops pre host fuel state 0 in
        let announced : ℕ → Event = λ t. run_started pre.run_id t pre.metadata in
        continue-Left unstarted (λ _. rest) (emit_now sv announced s)
          (rw (emit_now-SameRun sv announced s).1 h) (λ e. cc)
          λ _ s' h'.
            continue-Left active (λ state. drive sv ops pre host fuel state 0) (run_start ops s')
              (start-active s' h') (λ e. cc)
              λ state s'' h''. started_Left _ ((drive-Keeps host fuel state 0).at s'' h'')

  -- The run is closed where an error comes out, and only there.
  abbrev pub IsClosedOnError : Result Exc (Option Obj) × Sys W R → Type 0
  IsClosedOnError (ok _, s) = call_phase s.calls ≡ some active
  IsClosedOnError (err _, s) = call_phase s.calls ≡ some closed

  close-Called :
      (e : Exc) (p : CallPhase) (s : Sys W R)
      → Called p s
      → p ≢ closed
      → Called closed (close_preserving ops e s)
  unfolding close_preserving
  close-Called e unstarted s h n = ground arith
  close-Called e active s h n = ground arith
  close-Called e closed s h n = absurd (n refl)

  module _ (pre : Preflight) where
    after_cancel-closed :
        (e : Exc) (x : Result Exc ⊤ × Sys W R)
        → Called closed x.1
        → IsClosedOnError (after_cancel sv ops pre e x)
    after_cancel-closed e (ok _, s) h = h
    after_cancel-closed e (err (event_dispatch o), s) h = h
    after_cancel-closed e (err _, s) h = h

    after_failure-closed :
        (e : Exc) (p : CallPhase) (x : Result Exc ⊤ × Sys W R)
        → Called p x.1
        → p ≢ closed
        → IsClosedOnError (after_failure sv ops pre e x)
    after_failure-closed e p (ok _, s) h n = close-Called e p s h n
    after_failure-closed e p (err _, s) h n = close-Called e p s h n

    failure-closed :
        (e : Exc) (p : CallPhase) (s : Sys W R)
        → Called p s
        → p ≢ closed
        → let event : ℕ → ℤ → Event = λ t d. run_failed pre.run_id t e d in
          IsClosedOnError (after_failure sv ops pre e (emit_elapsed sv pre.started event s))
    failure-closed e p s h n =
        let event : ℕ → ℤ → Event = λ t d. run_failed pre.run_id t e d in
        after_failure-closed e p (emit_elapsed sv pre.started event s)
          (rw (emit_elapsed-SameRun sv pre.started event s).1 h) n

    handle-closed :
        (e : Exc) (p : CallPhase) (s : Sys W R)
        → Called p s
        → p ≢ closed
        → IsClosedOnError (handle sv ops pre e s)
    unfolding handle
    handle-closed (event_dispatch o) p s h n = close-Called _ p s h n
    handle-closed (fatal m) p s h n = close-Called _ p s h n
    handle-closed (cancelled m) p s h n =
        let closing = close_preserving ops (cancelled m) s in
        let event : ℕ → ℤ → Event = λ t d. run_cancelled pre.run_id t d in
        after_cancel-closed (cancelled m) (emit_elapsed sv pre.started event closing)
          (rw (emit_elapsed-SameRun sv pre.started event closing).1 (close-Called _ p s h n))
    handle-closed e p s h n = failure-closed e p s h n

    guarded-closed :
        (x : Result Exc (Option Obj) × Sys W R)
        → Left pre x
        → IsClosedOnError (guarded sv ops pre x)
    unfolding guarded
    guarded-closed (ok r, s) h = h
    guarded-closed (err e, s) (p, h, n) = handle-closed e p s h n

  resume-closed :
      (host : Obj) (fuel : ℕ) (x : Result Exc Preflight × Sys W R)
      → Called unstarted x.1
      → IsClosedOnError (resume sv ops host fuel x)
  resume-closed host fuel (err e, s) h = close-Called e unstarted s h (λ x. cc)
  resume-closed host fuel (ok pre, s) h =
      guarded-closed pre (body sv ops pre host fuel s) (body-Left pre host fuel s h)

  calls-preflight : (q : Request) (s : Sys W R) → (preflight sv ops q s).1.calls ≡ s.calls
  unfolding preflight
  calls-preflight q s = ground arith

  -- However the run, the executor and the services behave, `AgentDriver.run` calls the run in order:
  -- start first and once, then send and throw; every error that it throws into the run is an
  -- ordinary exception, never a cancellation, another BaseException or an EventDispatchError; and
  -- where an error comes out of `run`, the last call is the one and only close, while a run that
  -- returned, or is still going, has not been closed.
  pub calls_ordered :
      (fuel : ℕ) (q : Request) (w : W) (r : R) → IsClosedOnError (run sv ops fuel q (init w r))
  unfolding run
  calls_ordered fuel q w r =
      resume-closed q.host fuel (preflight sv ops q (init w r))
        (rw (calls-preflight q (init w r)) refl)
