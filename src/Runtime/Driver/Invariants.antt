-- ===== src/Runtime/Driver/Invariants.antt =====
-- Invariants of the driver's actions: what each action keeps, whether it returns or raises.
use purrcept_core.Base.{◌≡◌, refl, ◌∙◌, arith, Result, ok, err, ℕ, String}
use purrcept_core.Base.Int.{ℤ}
use purrcept_core.Runtime.Exceptions.{Obj, Exc}
use purrcept_core.Runtime.Events.{Event, EffectInfo, effect_progress}
use purrcept_core.Runtime.Driver.Monad.{
  Services, Sys, Act, pure, fail, ◌>>=◌, emit, emit_now, emit_elapsed, Execution, finished, reports,
  Context,
}
use purrcept_core.Runtime.Driver.Channel.{
  Channel, open_channel, report_progress, run_execution, execute_effect,
}

-- The action keeps `P`, whether it returns or raises.
pub record Keeps {W R A : Type 0} (P : Sys W R → Type 0) (m : Act W R A) : Type 0 where
  pub at : (s : Sys W R) → P s → P (m s).1

module _ {W R : Type 0} {P : Sys W R → Type 0} where
  pub Keeps-pure : {A : Type 0} (a : A) → Keeps P (pure a)
  Keeps-pure a = record { at = λ s h. h }

  pub Keeps-fail : {A : Type 0} (e : Exc) → Keeps P (fail {A = A} e)
  Keeps-fail e = record { at = λ s h. h }

  continue-Keeps :
      {A B : Type 0} (f : A → Act W R B) (r : Result Exc A × Sys W R)
      → P r.1
      → ((a : A) → Keeps P (f a))
      → P (
          let x : Result Exc B × Sys W R = elim r.0 [ ok a ↦ f a r.1 | err e ↦ (err e, r.1) ] in
          x.1)
  continue-Keeps f (ok a, s) h k = (k a).at s h
  continue-Keeps f (err e, s) h k = h

  pub Keeps-bind :
      {A B : Type 0} (m : Act W R A) (f : A → Act W R B)
      → Keeps P m
      → ((a : A) → Keeps P (f a))
      → Keeps P (m >>= f)
  Keeps-bind m f km kf = record { at = λ s h. continue-Keeps f (m s) (km.at s h) kf }

-- What does not touch the run leaves it, and the calls made of it, alone.
abbrev pub SameRun : {W R : Type 0} → Sys W R → Sys W R → Type 0
SameRun s s' = (s'.run ≡ s.run) × (s'.calls ≡ s.calls)

module _ {W R : Type 0} (sv : Services W) where
  pub emit_now-SameRun : (e : ℕ → Event) (s : Sys W R) → SameRun s (emit_now sv e s).1
  unfolding emit_now emit
  emit_now-SameRun e s = ground arith

  pub emit_elapsed-SameRun :
      (m : ℤ) (e : ℕ → ℤ → Event) (s : Sys W R) → SameRun s (emit_elapsed sv m e s).1
  unfolding emit_elapsed emit
  emit_elapsed-SameRun m e s = ground arith

  module _ (run_id : String) (info : EffectInfo) where
    report_progress-SameRun :
        (payload : Obj) (c : Channel) (s : Sys W R)
        → SameRun s (report_progress sv run_id info payload c s).2
    unfolding report_progress
    report_progress-SameRun payload c s =
        ground (arith, emit_now-SameRun (λ t. effect_progress run_id t info payload) s)

    run_execution-SameRun :
        (x : Execution W) (c : Channel) (s : Sys W R)
        → SameRun s (run_execution sv run_id info x c s).2
    unfolding run_execution
    run_execution-SameRun (finished r w) c s = (refl, refl)
    run_execution-SameRun (reports payload w go) c s =
        let s₁ : Sys W R = record s { world = w } in
        let (r, c', s₂) = report_progress sv run_id info payload c s₁ in
        let before = report_progress-SameRun payload c s₁ in
        let after = run_execution-SameRun (go r s₂.world) c' s₂ in
        (after.0 ∙ before.0, after.1 ∙ before.1)

    pub execute_effect-SameRun :
        (context : Context) (s : Sys W R) → SameRun s (execute_effect sv run_id info context s).1
    unfolding execute_effect
    execute_effect-SameRun context s =
        ground
          (arith, run_execution-SameRun (sv.execute info.effect context s.world) open_channel s)
