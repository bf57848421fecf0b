-- ===== src/Runtime/Driver/Monad.antt =====
-- driver.py: the driver's services, its state, and the actions that the rest is built from.
use purrcept_core.Base.{ℕ, String, true, false, List, ◌∷◌, length, Result, ok, err, ⊤}
use purrcept_core.Base.Int.{ℤ, ◌-ℤ◌}
use purrcept_core.Runtime.Exceptions.{Obj, Exc, event_dispatch, translated, is_exception}
use purrcept_core.Runtime.Run.{RunState}
use purrcept_core.Runtime.Events.{Event, require_synchronous_callback, Sink}

-- An executor's work on one effect, on the world `W`: it ends with a result, or it reports progress
-- and goes on by what the callback returned or raised. Every execution ends.
pub data Execution (W : Type 0) : Type 0 where
  finished : Result Exc Obj → W → Execution W
  reports : Obj → W → (Result Exc ⊤ → W → Execution W) → Execution W

-- `ExecutionContext`, without the callback, which the driver hands over in the form of `reports`.
pub record Context : Type 0 where
  pub run_id : String
  pub effect_id : String
  pub step_index : ℕ
  pub host : Obj
  pub metadata : Obj

-- The driver's executor, sink, clock, monotonic clock and id factory, which act on the world `W`.
pub record Services (W : Type 0) : Type 0 where
  pub new_id : W → Result Exc String × W
  pub now : W → Result Exc ℕ × W
  pub ticks : W → Result Exc ℤ × W
  pub sink : Sink W
  pub execute : Obj → Context → W → Execution W

-- `AgentRun`: the four calls, on the run's own state `R` and on the world: a generator is code of the
-- application, which may change the driver's sink, clock and executor whenever it is resumed.
pub record AgentRun (W R : Type 0) : Type 0 where
  pub start : R → W → Result Exc RunState × R × W
  pub send : Obj → R → W → Result Exc RunState × R × W
  pub throw : Exc → R → W → Result Exc RunState × R × W
  pub close : R → W → Result Exc ⊤ × R × W

pub data RunCall : Type 0 where
  called_start called_close : RunCall
  called_send : Obj → RunCall
  called_throw : Exc → RunCall

-- The notes that the driver adds to an exception.
pub data Note : Type 0 where
  close_also_raised execution_also_raised : Exc → Note
  dispatch_also_failed : Exc → Note

-- The world and the run, and three records kept newest first: the events handed to the sink, the
-- calls made of the run, and the notes added to exceptions.
pub record Sys (W R : Type 0) : Type 0 where
  pub world : W
  pub run : R
  pub events : List Event
  pub calls : List RunCall
  pub notes : List (Exc × Note)

abbrev pub Act : Type 0 → Type 0 → Type 0 → Type 0
Act W R A = Sys W R → Result Exc A × Sys W R

module _ {W R : Type 0} where
  abbrev pub pure : {A : Type 0} → A → Act W R A
  pure a s = (ok a, s)

  abbrev pub fail : {A : Type 0} → Exc → Act W R A
  fail e s = (err e, s)

  infixl 5 ◌>>=◌ ◌>>◌
  abbrev pub ◌>>=◌ : {A B : Type 0} → Act W R A → (A → Act W R B) → Act W R B
  ◌>>=◌ m f s = let (r, s') = m s in elim r [ ok a ↦ f a s' | err e ↦ (err e, s') ]

  abbrev pub ◌>>◌ : {A B : Type 0} → Act W R A → Act W R B → Act W R B
  m >> k = m >>= λ _. k

  -- A call of a service.
  abbrev pub service : {A : Type 0} → (W → Result Exc A × W) → Act W R A
  service f s = let (r, w) = f s.world in (r, record s { world = w })

  abbrev pub add_note : Exc → Note → Sys W R → Sys W R
  add_note e n s = record s { notes = (e, n) ∷ s.notes }

-- `except EventDispatchError: raise; except Exception: raise EventDispatchError(event)`. The event
-- is named by the number of events before it.
abbrev pub translate : ℕ → Exc → Exc
translate n (event_dispatch o) = event_dispatch o
translate n e = elim (is_exception e) [ true ↦ event_dispatch (translated n) | false ↦ e ]

abbrev pub dispatched : ℕ → Result Exc ⊤ → Result Exc ⊤
dispatched n (ok _) = ok tt
dispatched n (err e) = err (translate n e)

module _ {W R : Type 0} (sv : Services W) where
  -- `_emit`
  unfoldable pub emit : Event → Act W R ⊤
  emit event s =
      let (reply, w) = sv.sink event s.world in
      (
        dispatched (length s.events) (require_synchronous_callback reply),
        record s { world = w; events = event ∷ s.events },
      )

  -- An event is built before it is emitted: the wall clock first, then the elapsed time.
  unfoldable pub emit_now : (ℕ → Event) → Act W R ⊤
  emit_now event = do t ← service sv.now; emit (event t)

  unfoldable pub emit_elapsed : ℤ → (ℕ → ℤ → Event) → Act W R ⊤
  emit_elapsed started event = do
    t ← service sv.now
    now ← service sv.ticks
    emit (event t (now -ℤ started))

module _ {W R : Type 0} (ops : AgentRun W R) where
  abbrev pub called : {A : Type 0} → RunCall → (R → W → Result Exc A × R × W) → Act W R A
  called call f s =
      let (r, run', w) = f s.run s.world in
      (r, record s { world = w; run = run'; calls = call ∷ s.calls })

  unfoldable pub run_start : Act W R RunState
  run_start = called called_start ops.start

  unfoldable pub run_send : Obj → Act W R RunState
  run_send value = called (called_send value) (ops.send value)

  unfoldable pub run_throw : Exc → Act W R RunState
  run_throw error = called (called_throw error) (ops.throw error)

  -- `close_preserving`: an error of `close` becomes a note on the primary error.
  abbrev pub noted : Exc → Result Exc ⊤ → Sys W R → Sys W R
  noted primary (ok _) s = s
  noted primary (err e) s = add_note primary (close_also_raised e) s

  unfoldable pub close_preserving : Exc → Sys W R → Sys W R
  close_preserving primary s = let (r, s') = called called_close ops.close s in noted primary r s'
