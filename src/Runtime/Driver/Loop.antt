-- ===== src/Runtime/Driver/Loop.antt =====
-- driver.py: `AgentDriver.run`: preflight, the main loop, and the handlers of its exits.
use purrcept_core.Base.{
  ℕ, zero, suc, ◌+◌, String, true, false, Option, none, some, [], Result, ok, err, ⊤,
}
use purrcept_core.Base.Int.{ℤ}
use purrcept_core.Runtime.Exceptions.{
  Obj, Exc, event_dispatch, cancelled, type_error, is_exception, is_deliverable,
}
use purrcept_core.Runtime.Run.{RunState, yielded, returned, unsupported}
use purrcept_core.Runtime.Events.{
  EffectInfo, run_started, effect_started, effect_succeeded, effect_failed, run_succeeded,
  run_failed, run_cancelled,
}
use purrcept_core.Runtime.Driver.Monad.{
  Context, Services, AgentRun, Sys, Act, pure, fail, ◌>>=◌, ◌>>◌, service, add_note,
  dispatch_also_failed, emit_now, emit_elapsed, run_start, run_send, run_throw, close_preserving,
}
use purrcept_core.Runtime.Driver.Channel.{execute_effect}

-- The arguments of `run`. `metadata` is what `dict(metadata or {})` comes to.
pub record Request : Type 0 where
  pub host : Obj
  pub metadata : Result Exc Obj
  pub run_id : Option String

-- What the preflight resolves.
pub record Preflight : Type 0 where
  pub run_id : String
  pub metadata : Obj
  pub started : ℤ

module _ {W R : Type 0} (sv : Services W) (ops : AgentRun W R) where
  abbrev pub resolve_id : Option String → Act W R String
  resolve_id none = service sv.new_id
  resolve_id (some run_id) = pure run_id

  unfoldable pub preflight : Request → Act W R Preflight
  preflight q = do
    run_id ← resolve_id q.run_id
    metadata ← λ s. (q.metadata, s)
    started ← service sv.ticks
    pure (record { run_id = run_id; metadata = metadata; started = started })

  module _ (pre : Preflight) where
    -- One success or ordinary failure is reported and fed back; any other error passes.
    unfoldable pub feed_back : ℤ → EffectInfo → Result Exc Obj → Act W R RunState
    feed_back started info (ok value) = do
      emit_elapsed sv started (λ t d. effect_succeeded pre.run_id t info value d)
      run_send ops value
    feed_back started info (err e) = elim (is_deliverable e) [
      | true ↦ do
        emit_elapsed sv started (λ t d. effect_failed pre.run_id t info e d)
        run_throw ops e
      | false ↦ fail e
    ]

    abbrev pub effect_info : String → ℕ → Obj → EffectInfo
    effect_info effect_id i effect = record {
      effect_id = effect_id;
      step_index = i;
      effect = effect;
    }

    abbrev pub effect_context : Obj → EffectInfo → Context
    effect_context host info = record {
      run_id = pre.run_id;
      effect_id = info.effect_id;
      step_index = info.step_index;
      host = host;
      metadata = pre.metadata;
    }

    -- The rest of the body, once the effect is announced.
    unfoldable pub run_effect : Obj → ℤ → EffectInfo → Act W R RunState
    unfolding feed_back
    run_effect host started info s =
        let (r, s') = execute_effect sv pre.run_id info (effect_context host info) s in
        feed_back started info r s'

    -- One round of `while True` for a yielded effect.
    unfoldable pub perform_effect : Obj → Obj → ℕ → Act W R RunState
    perform_effect host effect i = do
      effect_id ← service sv.new_id
      started ← service sv.ticks
      emit_now sv (λ t. effect_started pre.run_id t (effect_info effect_id i effect))
      run_effect host started (effect_info effect_id i effect)

    -- The loop on fuel: `none` when the fuel runs out with the run still going.
    unfoldable pub drive : Obj → ℕ → RunState → ℕ → Act W R (Option Obj)
    drive host zero state i = pure none
    drive host (suc fuel) (returned result) i = do
      emit_elapsed sv pre.started (λ t d. run_succeeded pre.run_id t result d)
      pure (some result)
    drive host (suc fuel) unsupported i = fail type_error
    drive host (suc fuel) (yielded effect) i =
        perform_effect host effect i >>= λ state. drive host fuel state (i + 1)

    -- The body of the outer `try`.
    unfoldable pub body : Obj → ℕ → Act W R (Option Obj)
    body host fuel = do
      emit_now sv (λ t. run_started pre.run_id t pre.metadata)
      state ← run_start ops
      drive host fuel state 0

    -- `except CancelledError`: the cancellation goes on unless building the event raises another.
    abbrev pub after_cancel : Exc → Result Exc ⊤ × Sys W R → Result Exc (Option Obj) × Sys W R
    after_cancel e (ok _, s) = (err e, s)
    after_cancel e (err (event_dispatch o), s) =
        (err e, add_note e (dispatch_also_failed (event_dispatch o)) s)
    after_cancel e (err x, s) = (err x, s)

    -- `except Exception`: the run is closed whether or not RunFailed could be emitted.
    abbrev pub after_failure : Exc → Result Exc ⊤ × Sys W R → Result Exc (Option Obj) × Sys W R
    after_failure e (ok _, s) = (err e, close_preserving ops e s)
    after_failure e (err x, s) = (err x, close_preserving ops e s)

    unfoldable pub handle : Exc → Act W R (Option Obj)
    handle (cancelled n) s = after_cancel (cancelled n) (
        emit_elapsed sv pre.started (λ t d. run_cancelled pre.run_id t d)
          (close_preserving ops (cancelled n) s))
    handle (event_dispatch o) s =
        (err (event_dispatch o), close_preserving ops (event_dispatch o) s)
    handle e s = elim (is_exception e) [
      | true ↦ after_failure e (emit_elapsed sv pre.started (λ t d. run_failed pre.run_id t e d) s)
      | false ↦ (err e, close_preserving ops e s)
    ]

    unfoldable pub guarded : Result Exc (Option Obj) × Sys W R → Result Exc (Option Obj) × Sys W R
    unfolding handle
    guarded (ok r, s) = (ok r, s)
    guarded (err e, s) = handle e s

  abbrev pub resume : Obj → ℕ → Result Exc Preflight × Sys W R → Result Exc (Option Obj) × Sys W R
  resume host fuel (err e, s) = (err e, close_preserving ops e s)
  resume host fuel (ok pre, s) = guarded pre (body pre host fuel s)

  -- `AgentDriver.run`
  unfoldable pub run : ℕ → Request → Act W R (Option Obj)
  unfolding preflight guarded body
  run fuel q s = resume q.host fuel (preflight q s)

-- A driver's state before a run.
abbrev pub init : {W R : Type 0} → W → R → Sys W R
init w r = record { world = w; run = r; events = []; calls = []; notes = [] }
