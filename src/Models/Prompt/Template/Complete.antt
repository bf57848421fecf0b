-- ===== src/Models/Prompt/Template/Complete.antt =====
-- Rendering with and without values for all fields.

use purrcept_core.Base.{
  String, str_eq, eq_iff, Bool, true, false, not, ◌≡◌, refl, sym, ap, ◌∙◌, ◌↔◌, inl, inr, Option,
  some, List, [], ◌∷◌, Result, ok, err, keep_if, Bool-cases, Option-cases,
}
use purrcept_core.Base.Sets.{differ, ◌∈◌, is_member, is_member_iff, string_equal}
use purrcept_core.Models.Prompt.Template.{
  PromptError, missing, unknown_values, RenderPolicy, PromptValue, Dict, PromptTemplate,
  TemplatePart, Texts, Str, keys, look_up, new_template, merge_values, field_text, part_text,
  render_parts, missing_fields, render_checked, render, render_partial,
}
use purrcept_core.Models.Prompt.Template.Fields.{Named, new_template-WellFormed}

look_up-some :
    (a : String) (d : Dict PromptValue) → a ∈ keys d → (v : PromptValue) × (look_up a d ≡ some v)
look_up-some a [] m = absurd m
look_up-some a ((k, v) ∷ d) m = elim (Bool-cases (str_eq k a)) [
  | inl b ↦ (v, rw (b, look_up) refl)
  | inr b ↦ elim m [
    | inl same ↦ absurd (differ b ((eq_iff k a).1 (sym same)))
    | inr later ↦ let (u, found) = look_up-some a d later in (u, rw (b, look_up) found)
  ]
]

-- The names that a test keeps.
keep_if-∈ :
    (p : String → Bool) (names : List String) (a : String)
    → (a ∈ keep_if p names) ↔ ((a ∈ names) × (p a ≡ true))
keep_if-∈ p [] a = (λ m. absurd m, λ m. absurd m.0)
keep_if-∈ p (n ∷ names) a =
    let rest = keep_if-∈ p names a in
    elim (Bool-cases (p n)) [
      | inl kept ↦
          rw (kept, keep_if)
            (
              λ m. elim m [
                | inl same ↦ (inl same, ap p same ∙ kept)
                | inr later ↦ (inr (rest.0 later).0, (rest.0 later).1)
              ],
              λ m. elim m.0 as (λ _. a ∈ (n ∷ keep_if p names)) [
                | inl same ↦ inl same
                | inr later ↦ inr (rest.1 (later, m.1))
              ],
            )
      | inr dropped ↦
          rw (dropped, keep_if)
            (
              λ m. (inr (rest.0 m).0, (rest.0 m).1),
              λ m. elim m.0 [
                | inl same ↦ absurd (differ dropped (ap p (sym same) ∙ m.1))
                | inr later ↦ rest.1 (later, m.1)
              ],
            )
    ]

not-true : (b : Bool) → not b ≡ true → b ≡ false
not-true true h = absurd (cc)
not-true false h = refl

not_member :
    (a : String) (d : Dict PromptValue) → (not (is_member a (keys d)) ≡ true) ↔ (¬ (a ∈ keys d))
not_member a d = (
  λ h m. differ (not-true (is_member a (keys d)) h) ((is_member_iff a (keys d)).1 m),
  λ h. elim (Bool-cases (is_member a (keys d))) [
    | inl b ↦ absurd (h ((is_member_iff a (keys d)).0 b))
    | inr b ↦ ap not b
  ],
)

module _ (str : Str) where
  missing_fields-∈ :
      (values : Dict PromptValue) (fields : List String) (a : String)
      → (a ∈ missing_fields str values fields) ↔ ((a ∈ fields) × ¬ (a ∈ keys values))
  missing_fields-∈ values fields a =
      let kept = keep_if-∈ (λ name. not (is_member name (keys values))) fields a in
      (
        λ m. ((kept.0 m).0, (not_member a values).0 (kept.0 m).1),
        λ m. kept.1 (m.0, (not_member a values).1 m.1),
      )

  none_missing :
      (names : List String) (rendered : Result PromptError String)
      → ((a : String) → ¬ (a ∈ names))
      → render_checked str true names rendered ≡ rendered
  none_missing [] rendered h = refl
  none_missing (n ∷ names) rendered h = absurd (h n (inl refl))

  some_missing :
      (names : List String) (rendered : Result PromptError String) (a : String)
      → a ∈ names
      → render_checked str true names rendered ≡ err (missing names)
  some_missing [] rendered a m = absurd m
  some_missing (n ∷ names) rendered a m = refl

  lenient :
      (names : List String) (rendered : Result PromptError String)
      → render_checked str false names rendered ≡ rendered
  lenient [] rendered = refl
  lenient (n ∷ names) rendered = refl

  part_text-bound :
      (policies : Dict RenderPolicy) (values : Dict PromptValue) (part : TemplatePart)
      → ((a : String) → part.field_name ≡ some a → a ∈ keys values)
      → part_text str policies true values part ≡ part_text str policies false values part
  part_text-bound policies values part h = elim (Option-cases part.field_name) [
    | inl e ↦ rw (e, part_text) refl
    | inr (a, e) ↦
        let (v, found) = look_up-some a values (h a e) in rw (e, part_text, found, field_text) refl
  ]

  render_parts-bound :
      (policies : Dict RenderPolicy) (values : Dict PromptValue) (parts : List TemplatePart)
      → ((a : String) → Named a parts → a ∈ keys values)
      → render_parts str policies true values parts ≡ render_parts str policies false values parts
  unfolding render_parts
  render_parts-bound policies values [] h = refl
  render_parts-bound policies values (part ∷ parts) h =
      rw
        (
          part_text-bound policies values part (λ a e. h a (inl e)),
          render_parts-bound policies values parts (λ a m. h a (inr m)),
        )
        refl

  -- For a template that is made and values that it accepts: where every field has a value, the strict,
  -- the lenient and the partial rendering are the same. Where a field has none, the strict rendering
  -- fails and names exactly the fields without a value.
  pub render_missing :
      (texts : Texts) (name template : String) (policies : Dict RenderPolicy)
      (values : Dict PromptValue) (t : PromptTemplate) (given : Option (Dict PromptValue))
      (overrides effective : Dict PromptValue)
      → new_template texts name template policies values ≡ ok t
      → merge_values t given overrides unknown_values ≡ ok effective
      → (((a : String) → a ∈ t.fields → a ∈ keys effective)
          → (render str t true given overrides ≡ render str t false given overrides)
            × (render_partial str t given overrides ≡ render str t true given overrides))
        × ((a : String)
            → a ∈ t.fields
            → ¬ (a ∈ keys effective)
            → (names : List String) × (render str t true given overrides ≡ err (missing names))
              × ((b : String) → (b ∈ names) ↔ ((b ∈ t.fields) × ¬ (b ∈ keys effective))))
  unfolding render render_partial
  render_missing texts name template policies values t given overrides effective made merged =
      let formed = new_template-WellFormed texts name template policies values t made in
      let lacking = missing_fields str effective t.fields in
      let rendered = render_parts str t.policies false effective t.parts in
      (
        λ complete.
            let strict = none_missing lacking rendered (λ a m.
              ((missing_fields-∈ effective t.fields a).0 m).1
                (complete a ((missing_fields-∈ effective t.fields a).0 m).0)) in
            (
              rw (merged) (strict ∙ sym (lenient lacking rendered)),
              rw (merged) (
                  render_parts-bound t.policies effective t.parts
                    (λ a m. complete a ((formed.named a).1 m))
                  ∙ sym strict),
            ),
        λ a field_of lacks. (
          lacking,
          rw (merged) (
              some_missing lacking rendered a
                ((missing_fields-∈ effective t.fields a).1 (field_of, lacks))),
          missing_fields-∈ effective t.fields,
        ),
      )
