-- ===== src/Runtime/Driver/Grammar.antt =====
-- The order of lifecycle events, read off the emitted events alone.
use purrcept_core.Base.{
  ℕ, ◌+◌, ◌≡◌, ◌≢◌, ◌&&◌, Bool, true, Option, none, some, List, [], ◌∷◌, arith, ◌==◌, str_eq,
  eq_refl, if◌then◌else◌,
}
use purrcept_core.Runtime.Exceptions.{Exc, event_dispatch, cancelled, fatal}
use purrcept_core.Runtime.Events.{
  EffectInfo, Event, run_started, effect_started, effect_progress, effect_succeeded, effect_failed,
  run_succeeded, run_failed, run_cancelled,
}

-- Where a run is between its events: `between n` after n effects, `inside` the effect announced
-- last, `succeeded` after RunSucceeded, and `ended` after RunFailed or RunCancelled.
pub data Phase : Type 0 where
  idle succeeded ended : Phase
  between : ℕ → Phase
  inside : EffectInfo → Phase

abbrev same_info : EffectInfo → EffectInfo → Bool
same_info a b =
    str_eq a.effect_id b.effect_id && a.step_index == b.step_index && a.effect == b.effect

pub same_info_refl : (a : EffectInfo) → same_info a a ≡ true
same_info_refl a = ground (arith, eq_refl a.effect_id)

-- The next phase, or `none` for an event that has no place there. Two entries are for failures at
-- the edges: a run whose first event could not be built may fail with no RunStarted, and a sink that
-- raises CancelledError on RunSucceeded is followed by RunCancelled.
abbrev pub step : Phase → Event → Option Phase
step idle (run_started _ _ _) = some (between 0)
step idle (run_failed _ _ _ _) = some ended
step idle (run_cancelled _ _ _) = some ended
step (between n) (effect_started _ _ i) = if i.step_index == n then some (inside i) else none
step (between n) (run_succeeded _ _ _ _) = some succeeded
step (between n) (run_failed _ _ _ _) = some ended
step (between n) (run_cancelled _ _ _) = some ended
step (inside i) (effect_progress _ _ j _) = if same_info i j then some (inside i) else none
step (inside i) (effect_succeeded _ _ j _ _) =
    if same_info i j then some (between (i.step_index + 1)) else none
step (inside i) (effect_failed _ _ j _ _) =
    if same_info i j then some (between (i.step_index + 1)) else none
step (inside i) (run_failed _ _ _ _) = some ended
step (inside i) (run_cancelled _ _ _) = some ended
step succeeded (run_cancelled _ _ _) = some ended
step _ _ = none

-- The phase after the events, newest first.
abbrev pub accept : List Event → Option Phase
accept [] = some idle
accept (e ∷ events) = elim (accept events) [ none ↦ none | some p ↦ step p e ]

-- A phase in which the run may still fail or be cancelled.
abbrev pub IsOpen : Phase → Type 0
IsOpen succeeded = ⊥
IsOpen ended = ⊥
IsOpen _ = Unit

-- The errors that may reach the exits of the driver in a phase.
abbrev pub Allows : Phase → Exc → Type 0
Allows p (event_dispatch _) = Unit
Allows p (fatal _) = Unit
Allows p (cancelled _) = p ≢ ended
Allows p _ = IsOpen p

pub Allows-IsOpen : (p : Phase) (e : Exc) → IsOpen p → Allows p e
Allows-IsOpen idle (cancelled n) h = λ e. cc
Allows-IsOpen (between n) (cancelled _) h = λ e. cc
Allows-IsOpen (inside n) (cancelled _) h = λ e. cc
Allows-IsOpen succeeded _ h = absurd h
Allows-IsOpen ended _ h = absurd h
Allows-IsOpen _ (event_dispatch _) h = tt
Allows-IsOpen _ (fatal _) h = tt
Allows-IsOpen _ _ h = h
