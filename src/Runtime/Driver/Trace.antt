-- ===== src/Runtime/Driver/Trace.antt =====
-- The events of a run are in order, however the run, the executor and the services behave.
use purrcept_core.Base.{ℕ, ◌≡◌, refl, ◌≢◌, some, arith, Result, ok, err, ⊤}
use purrcept_core.Base.Int.{ℤ, ◌-ℤ◌}
use purrcept_core.Runtime.Exceptions.{Exc, event_dispatch, cancelled, fatal}
use purrcept_core.Runtime.Events.{Event}
use purrcept_core.Runtime.Driver.Monad.{
  Services, Sys, Act, ◌>>=◌, service, emit, emit_now, emit_elapsed, dispatched, translate,
}
use purrcept_core.Runtime.Driver.Grammar.{Phase, ended, step, accept, IsOpen, Allows, Allows-IsOpen}

abbrev pub At : {W R : Type 0} → Phase → Sys W R → Type 0
At p s = accept s.events ≡ some p

-- What an action leaves: on a return a phase that `Q` asks for, on a raise one that allows it.
abbrev pub Post : {W R A : Type 0} → (A → Phase → Type 0) → Result Exc A × Sys W R → Type 0
Post Q (ok a, s) = (p : Phase) × At p s × Q a p
Post Q (err e, s) = (p : Phase) × At p s × Allows p e

-- From phase `p` the action leaves what `Q` says.
pub record Triple {W R A : Type 0} (p : Phase) (m : Act W R A) (Q : A → Phase → Type 0)
    : Type 0 where
  pub at : (s : Sys W R) → At p s → Post Q (m s)

-- From phase `p` a return of the action leaves phase `p'`.
abbrev pub Moves : {W R A : Type 0} → Phase → Act W R A → Phase → Type 0
Moves p m p' = Triple p m (λ _ q. q ≡ p')

translate-Allows : (n : ℕ) (e : Exc) (p : Phase) → p ≢ ended → Allows p (translate n e)
translate-Allows n (event_dispatch o) p h = tt
translate-Allows n (cancelled c) p h = h
translate-Allows n (fatal c) p h = tt
translate-Allows n _ p h = tt

module _ {W R : Type 0} where
  continue-Post :
      {A B : Type 0} {Q : A → Phase → Type 0} {Q' : B → Phase → Type 0} (f : A → Act W R B)
      (r : Result Exc A × Sys W R)
      → Post Q r
      → ((a : A) (p : Phase) → Q a p → Triple p (f a) Q')
      → Post {W = W} {R = R} Q' (elim r.0 [ ok a ↦ f a r.1 | err e ↦ (err e, r.1) ])
  continue-Post f (ok a, s) (p, at_p, q) k = (k a p q).at s at_p
  continue-Post f (err e, s) h k = h

  pub Triple-bind :
      {A B : Type 0} {p : Phase} {Q : A → Phase → Type 0} {Q' : B → Phase → Type 0} {m : Act W R A}
      (f : A → Act W R B)
      → Triple p m Q
      → ((a : A) (q : Phase) → Q a q → Triple q (f a) Q')
      → Triple p (m >>= f) Q'
  Triple-bind {m} f h k = record { at = λ s at_p. continue-Post f (m s) (h.at s at_p) k }

  pub Moves-bind :
      {A B : Type 0} {p p' : Phase} {Q' : B → Phase → Type 0} {m : Act W R A} (f : A → Act W R B)
      → Moves p m p'
      → ((a : A) → Triple p' (f a) Q')
      → Triple p (m >>= f) Q'
  Moves-bind f h k = Triple-bind f h (λ a q same. rw same (k a))

  pub result-Post :
      {A : Type 0} (r : Result Exc A) (p : Phase) (s : Sys W R)
      → At p s
      → IsOpen p
      → Post (λ _ q. q ≡ p) (r, s)
  result-Post (ok _) p s at_p h = (p, at_p, refl)
  result-Post (err e) p s at_p h = (p, at_p, Allows-IsOpen p e h)

  dispatched-Post :
      (n : ℕ) (r : Result Exc ⊤) (p : Phase) (s : Sys W R)
      → At p s
      → p ≢ ended
      → Post (λ _ q. q ≡ p) (dispatched n r, s)
  dispatched-Post n (ok _) p s at_p h = (p, at_p, refl)
  dispatched-Post n (err e) p s at_p h = (p, at_p, translate-Allows n e p h)

  pub service-Moves :
      {A : Type 0} (f : W → Result Exc A × W) (p : Phase) → IsOpen p → Moves {R = R} p (service f) p
  service-Moves f p h = record { at = λ s at_p. result-Post _ p _ at_p h }

  stays :
      (sv : Services W) (e : ℕ → Event) (p : Phase) (r : Result Exc ℕ × Sys W R)
      → At p r.1
      → ((t : ℕ) → step p (e t) ≡ some p)
      → At p (elim r.0 [ ok t ↦ (emit sv (e t) r.1).1 | err x ↦ r.1 ])
  unfolding emit
  stays sv e p (ok t, s) at_p moves = rw at_p (moves t)
  stays sv e p (err x, s) at_p moves = at_p

  module _ (sv : Services W) where
    -- An event that the phase accepts is recorded, whatever the sink does.
    pub emit-Moves :
        (e : Event) (p p' : Phase)
        → step p e ≡ some p'
        → p' ≢ ended
        → Moves {R = R} p (emit sv e) p'
    unfolding emit
    emit-Moves e p p' moves going = record {
      at = λ s at_p. dispatched-Post _ _ p' _ (rw at_p moves) going;
    }

    pub emit_now-Moves :
        (e : ℕ → Event) (p p' : Phase)
        → IsOpen p
        → ((t : ℕ) → step p (e t) ≡ some p')
        → p' ≢ ended
        → Moves {R = R} p (emit_now sv e) p'
    unfolding emit_now
    emit_now-Moves e p p' is_open moves going =
        Moves-bind _ (service-Moves sv.now p is_open) λ t. emit-Moves (e t) p p' (moves t) going

    pub emit_elapsed-Moves :
        (m : ℤ) (e : ℕ → ℤ → Event) (p p' : Phase)
        → IsOpen p
        → ((t : ℕ) (d : ℤ) → step p (e t d) ≡ some p')
        → p' ≢ ended
        → Moves {R = R} p (emit_elapsed sv m e) p'
    unfolding emit_elapsed
    emit_elapsed-Moves m e p p' is_open moves going =
        Moves-bind _ (service-Moves sv.now p is_open) λ t.
          Moves-bind _ (service-Moves sv.ticks p is_open) λ d. emit-Moves _ p p' (moves t _) going

    -- An event that leaves its phase alone does so also when it cannot be built or delivered.
    pub emit_now-stays :
        (e : ℕ → Event) (p : Phase) (s : Sys W R)
        → At p s
        → ((t : ℕ) → step p (e t) ≡ some p)
        → At p (emit_now sv e s).1
    unfolding emit_now emit
    emit_now-stays e p s at_p moves = ground (arith, stays sv e p (service sv.now s) at_p moves)

-- The action leaves some phase, so every event of it had its place.
abbrev pub IsOrdered : {W R A : Type 0} → Result Exc A × Sys W R → Type 0
IsOrdered r = (p : Phase) × At p r.1

module _ {W R : Type 0} where
  IsOrdered-bind :
      {A B : Type 0} (p : Phase) (f : A → Act W R B) (r : Result Exc A × Sys W R)
      → At p r.1
      → ((a : A) (s : Sys W R) → At p s → IsOrdered (f a s))
      → IsOrdered {W = W} {R = R} {A = B} (elim r.0 [ ok a ↦ f a r.1 | err e ↦ (err e, r.1) ])
  IsOrdered-bind p f (ok a, s) h k = k a s h
  IsOrdered-bind p f (err e, s) h k = (p, h)

  pub emit_elapsed-IsOrdered :
      (sv : Services W) (m : ℤ) (e : ℕ → ℤ → Event) (p p' : Phase) (s : Sys W R)
      → At p s
      → ((t : ℕ) (d : ℤ) → step p (e t d) ≡ some p')
      → IsOrdered (emit_elapsed sv m e s)
  unfolding emit_elapsed emit
  emit_elapsed-IsOrdered sv m e p p' s at_p moves =
      IsOrdered-bind p (λ t. service sv.ticks >>= λ now. emit sv (e t (now -ℤ m)))
        (service sv.now s) at_p
        λ t s' h.
          IsOrdered-bind p (λ now. emit sv (e t (now -ℤ m))) (service sv.ticks s') h
            λ d s'' h'. (p', rw h' (moves t _))
