-- ===== src/Models/Prompt/Template/Fields.antt =====
-- The fields of a template, and what is bound to them.
use mathlib.Core.Path.{subst}
use purrcept_core.Base.{
  String, str_eq, Bool, false, not, ◌≡◌, refl, sym, ap, ◌∙◌, ◌⊎◌, ◌↔◌, inl, inr, Option, none, some,
  List, [], ◌∷◌, Result, ok, err, ◌>>◌, bind_ok, ok_with, raise_if, raise_if-ok, any_of, Bool-cases,
}
use purrcept_core.Base.Sets.{
  differ, ∈-snoc, Distinct-snoc, ◌∈◌, Distinct, is_member, is_member_iff, string_equal,
}
use purrcept_core.Models.Prompt.Template.{
  PromptError, definition_error, prompt_value_error, RenderPolicy, PromptValue, Parsed,
  TemplatePart, Dict, PromptTemplate, Texts, keys, add_field, plain_part, field_part, first_part,
  check_field, parse_field, parse_parts, require_keys, reject_unknown_keys, new_template,
}

add_field-Distinct :
    (names : List String) (n : String) → Distinct names → Distinct (add_field names n)
add_field-Distinct names n d = elim (Bool-cases (is_member n names)) [
  | inl old ↦ rw (old, add_field) d
  | inr new ↦
      rw (new, add_field) (Distinct-snoc names n d (λ m. differ new ((is_member_iff n names).1 m)))
]

add_field-∈ :
    (names : List String) (n a : String) → (a ∈ add_field names n) ↔ ((a ∈ names) ⊎ (a ≡ n))
add_field-∈ names n a = elim (Bool-cases (is_member n names)) [
  | inl old ↦
      rw (old, add_field)
        (
          λ m. inl m,
          λ m. elim m [
            | inl m' ↦ m'
            | inr same ↦ subst (λ b. b ∈ names) (sym same) ((is_member_iff n names).0 old)
          ],
        )
  | inr new ↦ rw (new, add_field) (∈-snoc a n names)
]

-- The names in the parts.
abbrev pub Named : String → List TemplatePart → Type 0
Named a [] = ⊥
Named a (part ∷ parts) = (part.field_name ≡ some a) ⊎ Named a parts

-- The names of the fields come once each, and are those before and those of the parts.
abbrev Lists : List String → List TemplatePart × List String → Type 0
Lists names (parts, fields) =
    Distinct fields × ((a : String) → (a ∈ fields) ↔ ((a ∈ names) ⊎ Named a parts))

some_same : (a b : String) → some a ≡ some b → b ≡ a
some_same a b h = cc

first_plain-Lists :
    (p : Parsed) (names : List String) (t : List TemplatePart × List String)
    → Lists names t
    → Lists names (plain_part p ∷ t.0, t.1)
first_plain-Lists p names (parts, fields) (d, h) = (
  d,
  λ a. (
    λ m. elim ((h a).0 m) as (λ _. (a ∈ names) ⊎ Named a (plain_part p ∷ parts)) [
      | inl old ↦ inl old
      | inr later ↦ inr (inr later)
    ],
    λ m. elim m [
      | inl old ↦ (h a).1 (inl old)
      | inr now ↦ elim now [ inl e ↦ absurd (none_some e) | inr later ↦ (h a).1 (inr later) ]
    ],
  ),
)
  where
    none_some : {a : String} → none ≡ some a → ⊥
    none_some e = cc

first_field-Lists :
    (p : Parsed) (n : String) (names : List String) (t : List TemplatePart × List String)
    → Lists (add_field names n) t
    → Lists names (field_part p n ∷ t.0, t.1)
first_field-Lists p n names (parts, fields) (d, h) = (
  d,
  λ a.
      let added = add_field-∈ names n a in
      (
        λ m. elim ((h a).0 m) as (λ _. (a ∈ names) ⊎ Named a (field_part p n ∷ parts)) [
          | inl old ↦ elim (added.0 old) as (λ _. (a ∈ names) ⊎ Named a (field_part p n ∷ parts)) [
            | inl before ↦ inl before
            | inr same ↦ inr (inl (ap some (sym same)))
          ]
          | inr later ↦ inr (inr later)
        ],
        λ m. elim m [
          | inl old ↦ (h a).1 (inl (added.1 (inl old)))
          | inr now ↦ elim now [
            | inl e ↦ (h a).1 (inl (added.1 (inr (some_same n a e))))
            | inr later ↦ (h a).1 (inr later)
          ]
        ],
      ),
)

first_part-Lists :
    (part : TemplatePart) (r : Result PromptError (List TemplatePart × List String))
    (t : List TemplatePart × List String) (before after : List String)
    → ((u : List TemplatePart × List String) → Lists after u → Lists before (part ∷ u.0, u.1))
    → ((u : List TemplatePart × List String) → r ≡ ok u → Lists after u)
    → first_part part r ≡ ok t
    → Lists before t
first_part-Lists part (err e) t before after k h e' = absurd (cc)
first_part-Lists part (ok (parts, names)) t before after k h e' =
    ok_with (Lists before) (part ∷ parts, names) t (first_part part (ok (parts, names))) refl e'
      (k (parts, names) (h (parts, names) refl))

module _ (texts : Texts) where
  parse_field-Lists :
      (p : Parsed) (o : Option (String × Bool × Bool)) (names : List String)
      (rest : List String → Result PromptError (List TemplatePart × List String))
      (t : List TemplatePart × List String)
      → Distinct names
      → ((more : List String) (u : List TemplatePart × List String)
          → Distinct more
          → rest more ≡ ok u
          → Lists more u)
      → parse_field texts p o names rest ≡ ok t
      → Lists names t
  parse_field-Lists p none names rest t d h e =
      first_part-Lists (plain_part p) (rest names) t names names (first_plain-Lists p names)
        (λ u q. h names u d q) e
  parse_field-Lists p (some f) names rest t d h e =
      let checked = bind_ok (check_field texts f) _ t e in
      first_part-Lists (field_part p f.0) (rest (add_field names f.0)) t names (add_field names f.0)
        (first_field-Lists p f.0 names)
        (λ u q. h (add_field names f.0) u (add_field-Distinct names f.0 d) q) checked.then

  parse_parts-Lists :
      (parsed : List (Option Parsed)) (names : List String) (t : List TemplatePart × List String)
      → Distinct names
      → parse_parts texts parsed names ≡ ok t
      → Lists names t
  unfolding parse_parts
  parse_parts-Lists [] names t d e =
      ok_with (Lists names) ([], names) t (parse_parts texts [] names) refl e
        (d, λ a. (λ m. inl m, λ m. elim m [ inl old ↦ old | inr nothing ↦ absurd nothing ]))
  parse_parts-Lists (none ∷ parsed) names t d e = absurd (cc)
  parse_parts-Lists (some p ∷ parsed) names t d e =
      parse_field-Lists p p.field names (λ names'. parse_parts texts parsed names') t d
        (λ more u d' q. parse_parts-Lists parsed more u d' q) e

  known_keys :
      (ks fields : List String)
      → any_of (λ k. not (is_member k fields)) ks ≡ false
      → (a : String) → a ∈ ks
      → a ∈ fields
  known_keys [] fields h a m = absurd m
  known_keys (k ∷ ks) fields h a m = elim (Bool-cases (is_member k fields)) [
    | inl known ↦ elim m [
      | inl same ↦ subst (λ b. b ∈ fields) (sym same) ((is_member_iff k fields).0 known)
      | inr later ↦ known_keys ks fields (sym (rw (known, any_of) refl) ∙ h) a later
    ]
    | inr unknown ↦ absurd (differ h (rw (unknown, any_of) refl))
  ]

  -- The fields are the names in the parts, each once, and only they are bound.
  pub record WellFormed (t : PromptTemplate) : Type 0 where
    pub each_once : Distinct t.fields
    pub named : (a : String) → (a ∈ t.fields) ↔ Named a t.parts
    pub policies_known : (a : String) → a ∈ keys t.policies → a ∈ t.fields
    pub values_known : (a : String) → a ∈ keys t.values → a ∈ t.fields

  -- What a template that is made consists of.
  pub record Built (name template : String) (policies : Dict RenderPolicy)
      (values : Dict PromptValue) (t : PromptTemplate) : Type 0 where
    pub name_is : t.name ≡ name
    pub template_is : t.template ≡ template
    pub policies_are : t.policies ≡ policies
    pub values_are : t.values ≡ values
    pub parsed : parse_parts texts (texts.parse template) [] ≡ ok (t.parts, t.fields)
    pub policies_ok : any_of (λ k. not (is_member k t.fields)) (keys policies) ≡ false
    pub values_ok : any_of (λ k. not (is_member k t.fields)) (keys values) ≡ false

  pub new_template-Built :
      (name template : String) (policies : Dict RenderPolicy) (values : Dict PromptValue)
      (t : PromptTemplate)
      → new_template texts name template policies values ≡ ok t
      → Built name template policies values t
  unfolding new_template reject_unknown_keys
  new_template-Built name template policies values t h =
      let named = raise_if (str_eq name "") prompt_value_error in
      let filled = raise_if (str_eq template "") prompt_value_error in
      let parse = parse_parts texts (texts.parse template) [] in
      let read = bind_ok (named >> filled >> parse) _ t h in
      let first = bind_ok (named >> filled) (λ _. parse) read.value read.first in
      let fields = read.value.1 in
      let keyed = require_keys (keys policies) >> require_keys (keys values) in
      let known_p =
        raise_if (any_of (λ k. not (is_member k fields)) (keys policies)) definition_error in
      let known_v =
        raise_if (any_of (λ k. not (is_member k fields)) (keys values)) definition_error in
      let last = bind_ok (keyed >> known_p >> known_v) _ t read.then in
      let bound_v = bind_ok (keyed >> known_p) (λ _. known_v) last.value last.first in
      let bound_p = bind_ok keyed (λ _. known_p) bound_v.value bound_v.first in
      ok_with (Built name template policies values) _ t _ refl last.then (record {
        name_is = refl;
        template_is = refl;
        policies_are = refl;
        values_are = refl;
        parsed = first.then;
        policies_ok =
            raise_if-ok (any_of (λ k. not (is_member k fields)) (keys policies)) definition_error
              bound_p.then;
        values_ok =
            raise_if-ok (any_of (λ k. not (is_member k fields)) (keys values)) definition_error
              bound_v.then;
      })

  -- A template that is made has as its fields the names of its placeholders, each once, and its
  -- policies and its values are bound to fields only.
  pub new_template-WellFormed :
      (name template : String) (policies : Dict RenderPolicy) (values : Dict PromptValue)
      (t : PromptTemplate)
      → new_template texts name template policies values ≡ ok t
      → WellFormed t
  new_template-WellFormed name template policies values t h =
      let built = new_template-Built name template policies values t h in
      let listed =
        parse_parts-Lists (texts.parse template) [] (t.parts, t.fields) tt built.parsed in
      record {
        each_once = listed.0;
        named = λ a. (
          λ m. elim ((listed.1 a).0 m) as (λ _. Named a t.parts) [
            | inl nothing ↦ absurd nothing
            | inr now ↦ now
          ],
          λ m. (listed.1 a).1 (inr m),
        );
        policies_known = λ a m.
            known_keys (keys policies) t.fields built.policies_ok a
              (subst (λ d. a ∈ keys d) built.policies_are m);
        values_known = λ a m.
            known_keys (keys values) t.fields built.values_ok a
              (subst (λ d. a ∈ keys d) built.values_are m);
      }
