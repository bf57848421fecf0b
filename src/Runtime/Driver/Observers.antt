-- ===== src/Runtime/Driver/Observers.antt =====
-- A failure to deliver progress cannot be hidden by the executor, and a finished channel is silent.
use purrcept_core.Base.{
  ℕ, zero, suc, List, ◌≡◌, refl, String, true, Option, none, some, arith, Result, ok, err,
}
use purrcept_core.Runtime.Exceptions.{Obj, Exc, event_dispatch, Origin}
use purrcept_core.Runtime.Events.{Event, EffectInfo, effect_progress}
use purrcept_core.Runtime.Driver.Monad.{
  Services, Sys, Context, Execution, finished, reports, emit_now,
}
use purrcept_core.Runtime.Driver.Channel.{
  Channel, open_channel, execute_effect, report_progress, run_execution, prefer_latched,
}

prefers :
    {W R : Type 0} (p : Exc) (latched : Option Exc) (r : Result Exc Obj) (s : Sys W R)
    (events : List Event)
    → latched ≡ some p
    → s.events ≡ events
    → let (result, s') = prefer_latched latched r s in (result ≡ err p) × (s'.events ≡ events)
prefers p none r s events h g = cc
prefers p (some x) (ok v) s events h g = ground arith
prefers p (some x) (err e) s events h g = ground arith

abbrev failed_channel : Origin → Channel
failed_channel o = record { active = true; dispatch_error = some (event_dispatch o) }

module _ {W R : Type 0} (sv : Services W) (run_id : String) (info : EffectInfo) where
  -- Once a failure is latched, the rest of the execution emits nothing and keeps that failure.
  latched_stays :
      (x : Execution W) (c : Channel) (s : Sys W R) (p : Exc)
      → c.active ≡ true
      → c.dispatch_error ≡ some p
      → let (r, c', s') = run_execution sv run_id info x c s in
        (c'.dispatch_error ≡ some p) × (s'.events ≡ s.events)
  unfolding run_execution
  latched_stays (finished r w) c s p on h = (h, refl)
  latched_stays (reports payload w go) c s p on h =
      let s₁ : Sys W R = record s { world = w } in
      let e : report_progress sv run_id info payload c s₁ ≡ (err p, c, s₁) =
        unfold report_progress in ground arith in
      rw (e, run_execution) (latched_stays (go (err p) w) c s₁ p on h)

  -- The execution's first `n` progress events are delivered, and the next one cannot be dispatched,
  -- for the origin `o`; that leaves the state `s'`.
  abbrev pub FailsAt : ℕ → Execution W → Sys W R → Origin → Sys W R → Type 0
  FailsAt n (finished r w) s o s' = ⊥
  FailsAt zero (reports payload w go) s o s' =
      emit_now sv (λ t. effect_progress run_id t info payload) (record s { world = w })
      ≡ (err (event_dispatch o), s')
  FailsAt (suc n) (reports payload w go) s o s' =
      (s₁ : Sys W R) × (emit_now sv (λ t. effect_progress run_id t info payload)
          (record s { world = w })
        ≡ (ok tt, s₁))
      × FailsAt n (go (ok tt) s₁.world) s₁ o s'

  report-delivered :
      (payload : Obj) (s s' : Sys W R)
      → emit_now sv (λ t. effect_progress run_id t info payload) s ≡ (ok tt, s')
      → report_progress sv run_id info payload open_channel s ≡ (ok tt, open_channel, s')
  unfolding report_progress
  report-delivered payload s s' h = ground arith

  report-failed :
      (payload : Obj) (s s' : Sys W R) (o : Origin)
      → emit_now sv (λ t. effect_progress run_id t info payload) s ≡ (err (event_dispatch o), s')
      → report_progress sv run_id info payload open_channel s
        ≡ (err (event_dispatch o), failed_channel o, s')
  unfolding report_progress
  report-failed payload s s' o h = ground arith

  execution_fails :
      (n : ℕ) (x : Execution W) (s : Sys W R) (o : Origin) (s' : Sys W R)
      → FailsAt n x s o s'
      → let (r, c, s'') = run_execution sv run_id info x open_channel s in
        (c.dispatch_error ≡ some (event_dispatch o)) × (s''.events ≡ s'.events)
  unfolding run_execution
  execution_fails n (finished r w) s o s' h = absurd h
  execution_fails zero (reports payload w go) s o s' h =
      rw (report-failed payload (record s { world = w }) s' o h, run_execution)
        (latched_stays (go (err (event_dispatch o)) s'.world) (failed_channel o) s'
          (event_dispatch o) refl refl)
  execution_fails (suc n) (reports payload w go) s o s' (s₁, delivered, h) =
      rw (report-delivered payload (record s { world = w }) s₁ delivered, run_execution)
        (execution_fails n (go (ok tt) s₁.world) s₁ o s' h)

  -- If an executor's execution of an effect reports progress whose event cannot be dispatched, after
  -- any number of reports that were delivered, then the effect ends with that dispatch error,
  -- whatever the executor does with the error and however it ends, and no further progress event is
  -- emitted for the effect.
  pub observer_failure_wins :
      (context : Context) (s s' : Sys W R) (n : ℕ) (o : Origin)
      → FailsAt n (sv.execute info.effect context s.world) s o s'
      → let (result, s'') = execute_effect sv run_id info context s in
        (result ≡ err (event_dispatch o)) × (s''.events ≡ s'.events)
  unfolding execute_effect
  observer_failure_wins context s s' n o h =
      let x = sv.execute info.effect context s.world in
      let (same, silent) = execution_fails n x s o s' h in
      let (r, c, s'') = run_execution sv run_id info x open_channel s in
      prefers (event_dispatch o) c.dispatch_error r s'' s'.events same silent
