-- ===== src/Runtime/Events.antt =====
-- events.py: the lifecycle events of a run, and the sinks that receive them.
pub mod Isolation
mod Tests
use purrcept_core.Base.{
  ℕ, true, false, String, Option, none, some, List, [], ◌∷◌, Result, ok, err, ⊤,
}
use purrcept_core.Base.Int.{ℤ}
use purrcept_core.Runtime.Exceptions.{Obj, Exc, type_error, is_exception}

-- `EffectEvent`: what every event of one yielded effect carries.
pub record EffectInfo : Type 0 where
  pub effect_id : String
  pub step_index : ℕ
  pub effect : Obj

-- The event classes. Each begins with `run_id` and `occurred_at`; elapsed times are signed ticks.
pub data Event : Type 0 where
  run_started : String → ℕ → Obj → Event
  effect_started : String → ℕ → EffectInfo → Event
  effect_progress : String → ℕ → EffectInfo → Obj → Event
  effect_succeeded : String → ℕ → EffectInfo → Obj → ℤ → Event
  effect_failed : String → ℕ → EffectInfo → Exc → ℤ → Event
  run_succeeded : String → ℕ → Obj → ℤ → Event
  run_failed : String → ℕ → Exc → ℤ → Event
  run_cancelled : String → ℕ → ℤ → Event

-- What a call of an application's callback comes to: it returns `None`, another value or an
-- awaitable, or it raises.
pub data Reply : Type 0 where
  replied_none replied_value replied_awaitable : Reply
  raised : Exc → Reply

-- `_require_synchronous_callback`, on the call's outcome
abbrev pub require_synchronous_callback : Reply → Result Exc ⊤
require_synchronous_callback replied_none = ok tt
require_synchronous_callback (raised e) = err e
require_synchronous_callback _ = err type_error

-- A sink over the state of the world that it acts on.
abbrev pub Sink : Type 0 → Type 0
Sink W = Event → W → Reply × W

abbrev as_reply : Result Exc ⊤ → Reply
as_reply (ok _) = replied_none
as_reply (err e) = raised e

module _ {W : Type 0} where
  -- `NullEventSink.emit`
  pub null_sink : Sink W
  null_sink event w = (replied_none, w)

  -- `CallbackEventSink.emit`
  pub callback_sink : (Event → W → Reply × W) → Sink W
  callback_sink callback event w =
      let (reply, w') = callback event w in (as_reply (require_synchronous_callback reply), w')

  -- `CompositeEventSink.emit`
  composite_next : Result Exc ⊤ → (W → Reply × W) → W → Reply × W
  composite_next (ok _) rest w = rest w
  composite_next (err e) rest w = (raised e, w)

  pub composite_sink : List (Sink W) → Sink W
  unfolding composite_next
  composite_sink [] event w = (replied_none, w)
  composite_sink (sink ∷ sinks) event w =
      let (reply, w') = sink event w in
      composite_next (require_synchronous_callback reply) (composite_sink sinks event) w'

  -- The `except Exception` of `SafeEventSink.emit`; the callback is optional.
  report_error : Option (Exc → W → Reply × W) → Exc → W → Reply × W
  report_error none e w = (replied_none, w)
  report_error (some on_error) e w =
      let (reply, w') = on_error e w in (as_reply (require_synchronous_callback reply), w')

  contain : Result Exc ⊤ → Option (Exc → W → Reply × W) → W → Reply × W
  unfolding report_error
  contain (ok _) on_error w = (replied_none, w)
  contain (err e) on_error w = elim (is_exception e) [
    | true ↦ report_error on_error e w
    | false ↦ (raised e, w)
  ]

  pub safe_sink : Sink W → Option (Exc → W → Reply × W) → Sink W
  unfolding contain
  safe_sink sink on_error event w =
      let (reply, w') = sink event w in contain (require_synchronous_callback reply) on_error w'
