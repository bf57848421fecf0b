-- ===== src/Runtime/Events/Isolation.antt =====
-- What the composed sinks promise: order and early stop, and isolation of ordinary failures.
use purrcept_core.Base.{true, refl, ap, ◌∙◌, map, ◌≡◌, false, none, List, [], ◌∷◌, ◌++◌, arith, err}
use purrcept_core.Runtime.Exceptions.{Exc, is_exception}
use purrcept_core.Runtime.Events.{
  Event, Reply, replied_none, replied_value, replied_awaitable, raised, contain,
  require_synchronous_callback, Sink, composite_sink, safe_sink,
}

module _ {W : Type 0} where
  -- Every one of the sinks accepts the event, from `w` on, each in the world the one before left.
  abbrev pub AllAccept : List (Sink W) → Event → W → W → Type 0
  AllAccept [] event w w' = w ≡ w'
  AllAccept (sink ∷ sinks) event w w' =
      ((sink event w).0 ≡ replied_none) × AllAccept sinks event (sink event w).1 w'

  -- If every sink before one accepts the event, then the composite has that sink's event in the
  -- world they leave; and where that sink breaks the contract by raising or returning a value, the
  -- composite raises its error and no later sink is called.
  composite_stops :
      (before after : List (Sink W)) (sink : Sink W) (event : Event) (w w' : W) (e : Exc)
      → AllAccept before event w w'
      → require_synchronous_callback (sink event w').0 ≡ err e
      → composite_sink (before ++ sink ∷ after) event w ≡ (raised e, (sink event w').1)
  unfolding composite_sink
  composite_stops [] after sink event w w' e same bad = ground (arith)
  composite_stops (s ∷ before) after sink event w w' e h bad =
      ground (arith, composite_stops before after sink event (s event w).1 w' e)

  -- A composite whose sinks all accept the event accepts it, in the world that the last one left.
  composite_accepts :
      (sinks : List (Sink W)) (event : Event) (w w' : W)
      → AllAccept sinks event w w'
      → composite_sink sinks event w ≡ (replied_none, w')
  unfolding composite_sink
  composite_accepts [] event w w' h = ground arith
  composite_accepts (s ∷ sinks) event w w' h =
      ground (arith, composite_accepts sinks event (s event w).1 w')

  -- The sinks without error callbacks, made safe.
  abbrev pub safe : Sink W → Sink W
  safe sink = safe_sink sink none

  -- Every one of the sinks returns or raises an `Exception`, from `w` on, each in the world the one
  -- before left.
  abbrev pub AllContained : List (Sink W) → Event → W → W → Type 0
  AllContained [] event w w' = w ≡ w'
  AllContained (sink ∷ sinks) event w w' =
      ((e : Exc) → (sink event w).0 ≡ raised e → is_exception e ≡ true)
      × AllContained sinks event (sink event w).1 w'

  safe-contains :
      (sink : Sink W) (event : Event) (w : W)
      → ((e : Exc) → (sink event w).0 ≡ raised e → is_exception e ≡ true)
      → safe sink event w ≡ (replied_none, (sink event w).1)
  unfolding safe_sink
  safe-contains sink event w h = contained (sink event w) h
    where
      contained :
          (r : Reply × W)
          → ((e : Exc) → r.0 ≡ raised e → is_exception e ≡ true)
          → contain (require_synchronous_callback r.0) none r.1 ≡ (replied_none, r.1)
      contained (replied_none, w') k = refl
      contained (replied_value, w') k = refl
      contained (replied_awaitable, w') k = refl
      contained (raised e, w') k = rw (k e refl, contain) refl

  safe-passes :
      (sink : Sink W) (event : Event) (w : W) (e : Exc)
      → (sink event w).0 ≡ raised e
      → is_exception e ≡ false
      → safe sink event w ≡ (raised e, (sink event w).1)
  unfolding safe_sink
  safe-passes sink event w e h k = ground arith

  AllContained-AllAccept :
      (sinks : List (Sink W)) (event : Event) (w w' : W)
      → AllContained sinks event w w'
      → AllAccept (map safe sinks) event w w'
  AllContained-AllAccept [] event w w' h = h
  AllContained-AllAccept (sink ∷ sinks) event w w' (here, rest) =
      let same : safe sink event w ≡ (replied_none, (sink event w).1) =
        safe-contains sink event w here in
      rw same (refl, AllContained-AllAccept sinks event (sink event w).1 w' rest)

  -- A composite of safe sinks without error callbacks calls every sink once, in order, and accepts the
  -- event, however many of them raise an `Exception` or return a value; but the first one that raises
  -- something that is no `Exception` is the last one called, and the composite raises just that.
  pub safe_isolates :
      (sinks after : List (Sink W)) (event : Event) (w w' : W)
      → AllContained sinks event w w'
      → (composite_sink (map safe sinks) event w ≡ (replied_none, w'))
        × ((sink : Sink W) (e : Exc)
            → (sink event w').0 ≡ raised e
            → is_exception e ≡ false
            → composite_sink (map safe sinks ++ safe sink ∷ map safe after) event w
              ≡ (raised e, (sink event w').1))
  safe_isolates sinks after event w w' h =
      let all = AllContained-AllAccept sinks event w w' h in
      (
        composite_accepts (map safe sinks) event w w' all,
        λ sink e raises unordinary.
            let same = safe-passes sink event w' e raises unordinary in
            composite_stops (map safe sinks) (map safe after) (safe sink) event w w' e all
              (rw same refl)
            ∙ ap (λ (r : Reply × W). (raised e, r.1)) same,
      )
