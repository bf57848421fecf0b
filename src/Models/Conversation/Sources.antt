-- ===== src/Models/Conversation/Sources.antt =====
-- reminder_sources.py: which registered sources are accepted.
use purrcept_core.Base.{
  String, str_eq, false, ◌≡◌, refl, eq_iff, List, [], ◌∷◌, map, inl, inr, ok, ◌>>=◌, ◌>>◌, bind_ok,
  raise_if, raise_if-ok,
}
use mathlib.Core.Path.{subst}
use purrcept_core.Base.Sets.{◌∈◌, Distinct, differ, string_equal, is_member, is_member_iff}
use purrcept_core.Models.Messages.{value_error}
use purrcept_core.Models.Prompt.Session.{Source, sources_from, normalize_reminder_sources}

module _ {W : Type 0} where
  abbrev pub ids : List (Source W) → List String
  ids sources = map (λ s. s.source_id) sources

  -- No identifier is empty, stands twice, or was seen before.
  record New (seen : List String) (sources : List (Source W)) : Type 0 where
    named : ¬ ("" ∈ ids sources)
    distinct : Distinct (ids sources)
    unseen : (i : String) → i ∈ seen → ¬ (i ∈ ids sources)

  New-first :
      (seen : List String) (s : Source W) (sources : List (Source W))
      → str_eq "" s.source_id ≡ false
      → is_member s.source_id seen ≡ false
      → New (s.source_id ∷ seen) sources
      → New seen (s ∷ sources)
  New-first seen s sources given fresh h = record {
    named = λ m. elim m [
      | inl same ↦ differ given ((eq_iff "" s.source_id).1 same)
      | inr later ↦ h.named later
    ];
    distinct = (h.unseen s.source_id (inl refl), h.distinct);
    unseen = λ i old m. elim m [
      | inl same ↦
          differ fresh ((is_member_iff s.source_id seen).1 (subst (λ j. j ∈ seen) same old))
      | inr later ↦ h.unseen i (inr old) later
    ];
  }

  sources_from-New :
      (seen : List String) (sources result : List (Source W))
      → sources_from seen sources ≡ ok result
      → (sources_from seen sources ≡ ok sources) × New seen sources
  sources_from-New seen [] result h =
      (refl, record { named = λ m. m; distinct = tt; unseen = λ i old m. m })
  sources_from-New seen (s ∷ sources) result h =
      let empty = raise_if (str_eq "" s.source_id) value_error in
      let again = raise_if (is_member s.source_id seen) value_error in
      let rest = sources_from (s.source_id ∷ seen) sources >>= λ normalized. ok (s ∷ normalized) in
      let outer = bind_ok (empty >> again) (λ _. rest) result h in
      let both = bind_ok empty (λ _. again) outer.value outer.first in
      let kept =
        bind_ok (sources_from (s.source_id ∷ seen) sources) (λ normalized. ok (s ∷ normalized))
          result outer.then in
      let (same, new) = sources_from-New (s.source_id ∷ seen) sources kept.value kept.first in
      let given = raise_if-ok (str_eq "" s.source_id) value_error both.first in
      let fresh = raise_if-ok (is_member s.source_id seen) value_error both.then in
      (rw (given, fresh, same) refl, New-first seen s sources given fresh new)

  -- Sources that are accepted are kept as they are, none has an empty identifier, and no two share one.
  pub accepted_sources :
      (sources result : List (Source W))
      → normalize_reminder_sources sources ≡ ok result
      → (normalize_reminder_sources sources ≡ ok sources)
        × (¬ ("" ∈ ids sources))
        × Distinct (ids sources)
  unfolding normalize_reminder_sources
  accepted_sources sources result h =
      let (same, new) = sources_from-New [] sources result h in (same, new.named, new.distinct)
