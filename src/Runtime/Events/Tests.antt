-- ===== src/Runtime/Events/Tests.antt =====
-- Tests of composed sinks over a world that counts the events which sinks have kept.
use purrcept_core.Base.{arith, true, refl, map, [], ◌∷◌, ◌++◌, ℕ, ◌+◌, ◌≡◌, false}
use purrcept_core.Runtime.Exceptions.{Exc, ordinary, fatal, is_exception}
use purrcept_core.Runtime.Events.{
  Event, run_started, replied_none, raised, Sink, safe_sink, composite_sink,
}
use purrcept_core.Runtime.Events.Isolation.{safe, AllContained, safe_isolates}

abbrev keeping : Sink ℕ
keeping event w = (replied_none, w + 1)

abbrev failing : Sink ℕ
failing event w = (raised (ordinary 4), w)

abbrev event : Event
event = run_started "id" 0 0

-- Raises what is no `Exception`.
abbrev interrupting : Sink ℕ
interrupting e w = (raised (fatal 5), w)

failing_kind : (e : Exc) → (failing event 0).0 ≡ raised e → is_exception e ≡ true
failing_kind e h = ground arith

both_contained : AllContained (failing ∷ keeping ∷ []) event 0 1
both_contained = (λ e h. failing_kind e h, ((λ e h. absurd (cc)), refl))

safe_isolates_example :
    (composite_sink (map safe (failing ∷ keeping ∷ [])) event 0 ≡ (replied_none, 1))
    × ((sink : Sink ℕ) (e : Exc)
        → (sink event 1).0 ≡ raised e
        → is_exception e ≡ false
        → composite_sink
            (map safe (failing ∷ keeping ∷ []) ++ safe sink ∷ map safe (keeping ∷ []))
            event
            0
          ≡ (raised e, (sink event 1).1))
safe_isolates_example =
    safe_isolates (failing ∷ keeping ∷ []) (keeping ∷ []) event 0 1 both_contained

interrupted :
    composite_sink (safe failing ∷ safe interrupting ∷ safe keeping ∷ []) event 0
    ≡ (raised (fatal 5), 0)
unfolding composite_sink safe_sink
interrupted = refl
