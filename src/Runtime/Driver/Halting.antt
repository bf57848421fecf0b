-- ===== src/Runtime/Driver/Halting.antt =====
-- A run of finitely many steps is driven to its end.
use purrcept_core.Base.{
  ℕ, zero, suc, ◌+◌, ◌≡◌, refl, sym, ap, ◌≢◌, ◌∙◌, ◌⊎◌, inl, inr, Option, none, some, arith, Result,
  ok, err, ⊤,
}
use purrcept_core.Runtime.Exceptions.{Obj, Exc, event_dispatch, cancelled, fatal}
use purrcept_core.Runtime.Run.{RunState, yielded, returned, unsupported}
use purrcept_core.Runtime.Driver.Monad.{
  Services, AgentRun, Sys, Act, ◌>>=◌, service, run_start, run_send, run_throw, emit_elapsed,
  emit_now,
}
use purrcept_core.Runtime.Driver.Loop.{
  Request, Preflight, feed_back, run_effect, perform_effect, drive, run, init, preflight, body,
  guarded, handle, resume, after_cancel, after_failure, effect_context, effect_info,
}
use purrcept_core.Base.Int.{ℤ}
use purrcept_core.Runtime.Exceptions.{is_deliverable}
use purrcept_core.Base.{Bool-cases, String}
use purrcept_core.Runtime.Events.{
  EffectInfo, Event, effect_succeeded, effect_failed, effect_started, run_succeeded, run_started,
}
use purrcept_core.Runtime.Driver.Channel.{execute_effect}
use purrcept_core.Runtime.Driver.Invariants.{
  emit_now-SameRun, emit_elapsed-SameRun, execute_effect-SameRun,
}

module _ {W R : Type 0} (ops : AgentRun W R) where
  -- From this state the run asks for at most `n` more effects, whatever their outcomes and the worlds
  -- are in which it is resumed.
  abbrev pub HaltsIn : ℕ → RunState → R → Type 0
  HaltsIn n (returned v) r = Unit
  HaltsIn n unsupported r = Unit
  HaltsIn zero (yielded e) r = ⊥
  HaltsIn (suc n) (yielded e) r =
      ((v : Obj) (w : W) (state : RunState)
        → (ops.send v r w).0 ≡ ok state
        → HaltsIn n state (ops.send v r w).1)
      × ((x : Exc) (w : W) (state : RunState)
          → (ops.throw x r w).0 ≡ ok state
          → HaltsIn n state (ops.throw x r w).1)

module _ {W R : Type 0} (sv : Services W) (ops : AgentRun W R) where
  -- A state that comes back comes from one send or throw to the run as it was.
  abbrev Resumed : R → Result Exc RunState × Sys W R → Type 0
  Resumed r (err e, s) = Unit
  Resumed r (ok state, s) =
      ((v : Obj) × (w : W) × ((ops.send v r w).0 ≡ ok state) × (s.run ≡ (ops.send v r w).1))
      ⊎ ((x : Exc) × (w : W) × ((ops.throw x r w).0 ≡ ok state) × (s.run ≡ (ops.throw x r w).1))

  continue-Resumed :
      {A : Type 0} (r : R) (f : A → Act W R RunState) (x : Result Exc A × Sys W R)
      → x.1.run ≡ r
      → ((a : A) (s : Sys W R) → s.run ≡ r → Resumed r (f a s))
      → Resumed r (elim x.0 [ ok a ↦ f a x.1 | err e ↦ (err e, x.1) ])
  continue-Resumed r f (ok a, s) h k = k a s h
  continue-Resumed r f (err e, s) h k = tt

  from_send :
      (r : R) (v : Obj) (w : W) (x : Result Exc RunState) (s : Sys W R)
      → (ops.send v r w).0 ≡ x
      → s.run ≡ (ops.send v r w).1
      → Resumed r (x, s)
  from_send r v w (ok state) s e h = inl (v, w, e, h)
  from_send r v w (err z) s e h = tt

  from_throw :
      (r : R) (z : Exc) (w : W) (x : Result Exc RunState) (s : Sys W R)
      → (ops.throw z r w).0 ≡ x
      → s.run ≡ (ops.throw z r w).1
      → Resumed r (x, s)
  from_throw r z w (ok state) s e h = inr (z, w, e, h)
  from_throw r z w (err y) s e h = tt

  send-Resumed : (v : Obj) (s : Sys W R) → Resumed s.run (run_send ops v s)
  unfolding run_send
  send-Resumed v s =
      from_send s.run v s.world (ops.send v s.run s.world).0 (run_send ops v s).1 refl refl

  throw-Resumed : (z : Exc) (s : Sys W R) → Resumed s.run (run_throw ops z s)
  unfolding run_throw
  throw-Resumed z s =
      from_throw s.run z s.world (ops.throw z s.run s.world).0 (run_throw ops z s).1 refl refl

  module _ (pre : Preflight) where
    feed_back-Resumed :
        (started : ℤ) (info : EffectInfo) (x : Result Exc Obj) (r : R) (s : Sys W R)
        → s.run ≡ r
        → Resumed r (feed_back sv ops pre started info x s)
    unfolding feed_back
    feed_back-Resumed started info (ok v) r s same =
        let event : ℕ → ℤ → Event = λ t d. effect_succeeded pre.run_id t info v d in
        continue-Resumed r (λ _. run_send ops v) (emit_elapsed sv started event s)
          ((emit_elapsed-SameRun sv started event s).0 ∙ same)
          λ _ s' h. rw (← h) (send-Resumed v s')
    feed_back-Resumed started info (err e) r s same = elim (Bool-cases (is_deliverable e)) [
      | inl y ↦
          rw (y, feed_back)
            (let event : ℕ → ℤ → Event = λ t d. effect_failed pre.run_id t info e d in
              continue-Resumed r (λ _. run_throw ops e) (emit_elapsed sv started event s)
                ((emit_elapsed-SameRun sv started event s).0 ∙ same)
                λ _ s' h. rw (← h) (throw-Resumed e s'))
      | inr n ↦ rw (n, feed_back) tt
    ]

    run_effect-Resumed :
        (host : Obj) (started : ℤ) (info : EffectInfo) (r : R) (s : Sys W R)
        → s.run ≡ r
        → Resumed r (run_effect sv ops pre host started info s)
    unfolding run_effect
    run_effect-Resumed host started info r s same =
        let context = effect_context sv ops pre host info in
        let (x, s') = execute_effect sv pre.run_id info context s in
        feed_back-Resumed started info x r s'
          ((execute_effect-SameRun sv pre.run_id info context s).0 ∙ same)

    announced-Resumed :
        (host : Obj) (started : ℤ) (info : EffectInfo) (r : R) (s : Sys W R)
        → s.run ≡ r
        → Resumed r (
            (emit_now sv (λ t. effect_started pre.run_id t info) >>= λ _.
            run_effect sv ops pre host started info)
              s)
    announced-Resumed host started info r s same =
        let event : ℕ → Event = λ t. effect_started pre.run_id t info in
        continue-Resumed r (λ _. run_effect sv ops pre host started info) (emit_now sv event s)
          ((emit_now-SameRun sv event s).0 ∙ same)
          λ _ s' h. run_effect-Resumed host started info r s' h

    perform_effect-Resumed :
        (host effect : Obj) (i : ℕ) (s : Sys W R)
        → Resumed s.run (perform_effect sv ops pre host effect i s)
    unfolding perform_effect
    perform_effect-Resumed host effect i s =
        let info : String → EffectInfo = λ id. effect_info sv ops pre id i effect in
        let rest : String → ℤ → Act W R RunState = λ id started.
          emit_now sv (λ t. effect_started pre.run_id t (info id)) >>= λ _.
          run_effect sv ops pre host started (info id) in
        continue-Resumed s.run (λ id. service sv.ticks >>= rest id) (service sv.new_id s) refl
          λ id s₁ h₁.
            continue-Resumed s.run (rest id) (service sv.ticks s₁) h₁
              λ started s₂ h₂. announced-Resumed host started (info id) s.run s₂ h₂

    -- The loop comes to an end, by a return or by an error.
    abbrev pub Ended : {A : Type 0} → Result Exc (Option A) × Sys W R → Type 0
    Ended x = x.0 ≢ ok none

    finish :
        (e : Result Exc ⊤ × Sys W R) (v : Obj)
        → Ended {A = Obj} (elim e.0 [ ok _ ↦ (ok (some v), e.1) | err x ↦ (err x, e.1) ])
    finish (ok _, s) v = λ h. cc
    finish (err x, s) v = λ h. cc

    HaltsIn-Resumed :
        (n : ℕ) (effect : Obj) (r : R) (state : RunState) (s : Sys W R)
        → HaltsIn ops (suc n) (yielded effect) r
        → Resumed r (ok state, s)
        → HaltsIn ops n state s.run
    HaltsIn-Resumed n effect r state s h (inl (v, w, e, same)) = rw same (h.0 v w state e)
    HaltsIn-Resumed n effect r state s h (inr (x, w, e, same)) = rw same (h.1 x w state e)

    continue-Ended :
        (n : ℕ) (effect : Obj) (r : R) (f : RunState → Act W R (Option Obj))
        (x : Result Exc RunState × Sys W R)
        → HaltsIn ops (suc n) (yielded effect) r
        → Resumed r x
        → ((state : RunState) (s : Sys W R) → HaltsIn ops n state s.run → Ended (f state s))
        → Ended {A = Obj} (elim x.0 [ ok a ↦ f a x.1 | err e ↦ (err e, x.1) ])
    continue-Ended n effect r f (ok state, s) h q k =
        k state s (HaltsIn-Resumed n effect r state s h q)
    continue-Ended n effect r f (err e, s) h q k = λ p. cc

    drive-Ended :
        (host : Obj) (n : ℕ) (state : RunState) (i : ℕ) (s : Sys W R)
        → HaltsIn ops n state s.run
        → Ended (drive sv ops pre host (suc n) state i s)
    unfolding drive
    drive-Ended host n (returned v) i s h =
        finish (emit_elapsed sv pre.started (λ t d. run_succeeded pre.run_id t v d) s) v
    drive-Ended host n unsupported i s h = λ p. cc
    drive-Ended host zero (yielded effect) i s h = absurd h
    drive-Ended host (suc n) (yielded effect) i s h =
        continue-Ended n effect s.run (λ state. drive sv ops pre host (suc n) state (i + 1))
          (perform_effect sv ops pre host effect i s) h (perform_effect-Resumed host effect i s)
          λ state s' h'. drive-Ended host n state (i + 1) s' h'

    continue-start :
        (n : ℕ) (r : R) (f : RunState → Act W R (Option Obj)) (w : W) (x : Result Exc RunState)
        (s : Sys W R)
        → (ops.start r w).0 ≡ x
        → s.run ≡ (ops.start r w).1
        → ((w : W) (state : RunState)
            → (ops.start r w).0 ≡ ok state
            → HaltsIn ops n state (ops.start r w).1)
        → ((state : RunState) (s : Sys W R) → HaltsIn ops n state s.run → Ended (f state s))
        → Ended {A = Obj} (elim x [ ok a ↦ f a s | err e ↦ (err e, s) ])
    continue-start n r f w (ok state) s e same h k = k state s (rw same (h w state e))
    continue-start n r f w (err z) s e same h k = λ p. cc

    after_announcement :
        (host : Obj) (n : ℕ) (r : R) (x : Result Exc ⊤ × Sys W R)
        → x.1.run ≡ r
        → ((w : W) (state : RunState)
            → (ops.start r w).0 ≡ ok state
            → HaltsIn ops n state (ops.start r w).1)
        → let rest : Act W R (Option Obj) =
            run_start ops >>= λ state. drive sv ops pre host (suc n) state 0 in
          Ended {A = Obj} (elim x.0 [ ok _ ↦ rest x.1 | err e ↦ (err e, x.1) ])
    unfolding run_start
    after_announcement host n r (ok _, s) same h =
        continue-start n r (λ state. drive sv ops pre host (suc n) state 0) s.world
          (ops.start s.run s.world).0 (run_start ops s).1
          (ap (λ z. (ops.start z s.world).0) (sym same)) (ap (λ z. (ops.start z s.world).1) same) h
          λ state s' h'. drive-Ended host n state 0 s' h'
    after_announcement host n r (err e, s) same h = λ p. cc

    cancel-Ended : (e : Exc) (x : Result Exc ⊤ × Sys W R) → Ended (after_cancel sv ops pre e x)
    cancel-Ended e (ok _, s) = λ p. cc
    cancel-Ended e (err (event_dispatch o), s) = λ p. cc
    cancel-Ended e (err _, s) = λ p. cc

    failure-Ended : (e : Exc) (x : Result Exc ⊤ × Sys W R) → Ended (after_failure sv ops pre e x)
    failure-Ended e (ok _, s) = λ p. cc
    failure-Ended e (err _, s) = λ p. cc

    handle-Ended : (e : Exc) (s : Sys W R) → Ended (handle sv ops pre e s)
    unfolding handle
    handle-Ended (event_dispatch o) s = λ p. cc
    handle-Ended (fatal n) s = λ p. cc
    handle-Ended (cancelled n) s = cancel-Ended (cancelled n) _
    handle-Ended e s = failure-Ended e _

    guarded-Ended : (x : Result Exc (Option Obj) × Sys W R) → Ended x → Ended (guarded sv ops pre x)
    unfolding guarded
    guarded-Ended (ok r, s) h = h
    guarded-Ended (err e, s) h = handle-Ended e s

  resume-Ended :
      (host : Obj) (n : ℕ) (r : R) (x : Result Exc Preflight × Sys W R)
      → x.1.run ≡ r
      → ((w : W) (state : RunState)
          → (ops.start r w).0 ≡ ok state
          → HaltsIn ops n state (ops.start r w).1)
      → (resume sv ops host (suc n) x).0 ≢ ok none
  resume-Ended host n r (err e, s) same h = λ p. cc
  resume-Ended host n r (ok pre, s) same h =
      let event : ℕ → Event = λ t. run_started pre.run_id t pre.metadata in
      guarded-Ended pre (body sv ops pre host (suc n) s) (
        unfold body in
        after_announcement pre host n r (emit_now sv event s)
          ((emit_now-SameRun sv event s).0 ∙ same) h)

  run-preflight : (q : Request) (s : Sys W R) → (preflight sv ops q s).1.run ≡ s.run
  unfolding preflight
  run-preflight q s = ground arith

  -- If from its first state the run asks for at most `n` effects, whatever their outcomes and the
  -- worlds are in which it is resumed, then `AgentDriver.run` comes to an end, with a result or an
  -- error, within n + 1 rounds of its loop.
  pub run_halts :
      (n : ℕ) (q : Request) (w : W) (r : R)
      → ((w : W) (state : RunState)
          → (ops.start r w).0 ≡ ok state
          → HaltsIn ops n state (ops.start r w).1)
      → (run sv ops (suc n) q (init w r)).0 ≢ ok none
  unfolding run
  run_halts n q w r h =
      resume-Ended q.host n r (preflight sv ops q (init w r)) (run-preflight q (init w r)) h
