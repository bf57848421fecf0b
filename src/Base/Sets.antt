-- ===== src/Base/Sets.antt =====
-- Python's sets of values, kept as lists: membership, duplicates, and equality of sets.
use Prim.Native.Nat.{ℕ, suc, ◌≤◌}
use Prim.Native.String.{String}
use mathlib.Core.Path.{◌≡◌, refl, sym, ap, ◌∙◌, subst}
use mathlib.Core.Logic.{◌↔◌, ◌⊎◌, inl, inr}
use mathlib.Core.Bool.{Bool, true, false, not, ◌&&◌}
use mathlib.Core.List.{List, [], ◌∷◌, ◌++◌}
use native.Mathlib.Omega.{arith}
use text.Mathlib.Text.{◌==◌ as str_eq}
use text.Mathlib.TextEquality.{eq_iff}
use purrcept_core.Base.Tests.{◌==◌, Bool-cases}
use purrcept_core.Base.Lists.{length}

-- `a == b`
pub record Equal (A : Type 0) : Type 0 where
  pub same : A → A → Bool
  pub same_iff : (a b : A) → (same a b ≡ true) ↔ (a ≡ b)

pub nat_same_iff : (a b : ℕ) → (a == b ≡ true) ↔ (a ≡ b)
nat_same_iff a b = (λ h. ground arith, λ h. ground arith)

instance abbrev pub nat_equal : Equal ℕ
nat_equal = record { same = λ a b. a == b; same_iff = nat_same_iff }

instance abbrev pub string_equal : Equal String
string_equal = record { same = str_eq; same_iff = λ a b. eq_iff a b }

-- Membership and the absence of duplicates, as propositions.
infix 50 ◌∈◌
abbrev pub ◌∈◌ : {A : Type 0} → A → List A → Type 0
a ∈ [] = ⊥
a ∈ (x ∷ xs) = (a ≡ x) ⊎ (a ∈ xs)

abbrev pub Distinct : {A : Type 0} → List A → Type 0
Distinct [] = Unit
Distinct (x ∷ xs) = ¬ (x ∈ xs) × Distinct xs

pub differ : {b : Bool} → b ≡ false → b ≡ true → ⊥
differ h k = cc

too_short : {a b : ℕ} → a ≡ suc b → a ≤ b → ⊥
too_short h k = omega arith

one_less : {a b : ℕ} → suc a ≡ suc b → a ≡ b
one_less h = omega arith

equal_of : {a b : ℕ} → not (a == b) ≡ false → a ≡ b
equal_of h = ground arith

of_equal : {a b : ℕ} → a ≡ b → not (a == b) ≡ false
of_equal h = ground arith

both : (a b : Bool) → a && b ≡ true → (a ≡ true) × (b ≡ true)
both true b h = (refl, h)
both false b h = absurd (cc)

pub both_true : {a b : Bool} → a && b ≡ true → (a ≡ true) × (b ≡ true)
both_true {a} {b} h = both a b h

pub true_both : {a b : Bool} → a ≡ true → b ≡ true → a && b ≡ true
true_both h k = rw (h, k) refl

pub ∈-snoc : {A : Type 0} (a b : A) (xs : List A) → (a ∈ (xs ++ b ∷ [])) ↔ ((a ∈ xs) ⊎ (a ≡ b))
∈-snoc a b [] = (
  λ m. elim m [ inl same ↦ inr same | inr nothing ↦ absurd nothing ],
  λ m. elim m [ inl nothing ↦ absurd nothing | inr same ↦ inl same ],
)
∈-snoc a b (x ∷ xs) =
    let rest = ∈-snoc a b xs in
    (
      λ m. elim m [
        | inl same ↦ inl (inl same)
        | inr later ↦ elim (rest.0 later) as (λ _. (a ∈ (x ∷ xs)) ⊎ (a ≡ b)) [
          | inl old ↦ inl (inr old)
          | inr same ↦ inr same
        ]
      ],
      λ m. elim m [
        | inl old ↦ elim old as (λ _. a ∈ ((x ∷ xs) ++ b ∷ [])) [
          | inl same ↦ inl same
          | inr later ↦ inr (rest.1 (inl later))
        ]
        | inr same ↦ inr (rest.1 (inr same))
      ],
    )

pub Distinct-snoc :
    {A : Type 0} (xs : List A) (b : A) → Distinct xs → ¬ (b ∈ xs) → Distinct (xs ++ b ∷ [])
Distinct-snoc [] b d new = (λ m. m, tt)
Distinct-snoc (x ∷ xs) b (fresh, d) new = (
  λ m. elim ((∈-snoc x b xs).0 m) [ inl old ↦ fresh old | inr same ↦ new (inl (sym same)) ],
  Distinct-snoc xs b d (λ m. new (inr m)),
)

module _ {A : Type 0} ⦃e : Equal A⦄ where
  -- `a in xs`
  abbrev pub is_member : A → List A → Bool
  is_member a [] = false
  is_member a (x ∷ xs) = elim (e.same a x) [ true ↦ true | false ↦ is_member a xs ]

  abbrev pub unless : Bool → A → List A → List A
  unless true x rest = rest
  unless false x rest = x ∷ rest

  -- `set(xs)`
  abbrev pub to_set : List A → List A
  to_set [] = []
  to_set (x ∷ xs) = let rest = to_set xs in unless (is_member x rest) x rest

  -- `xs <= ys` of sets
  abbrev pub is_subset : List A → List A → Bool
  is_subset [] ys = true
  is_subset (x ∷ xs) ys = is_member x ys && is_subset xs ys

  -- `xs == ys` of sets
  abbrev pub same_set : List A → List A → Bool
  same_set xs ys = is_subset xs ys && is_subset ys xs

  -- `len(set(xs)) != len(xs)`
  abbrev pub has_repeats : List A → Bool
  has_repeats xs = not (length (to_set xs) == length xs)

  pub is_member_iff : (a : A) (xs : List A) → (is_member a xs ≡ true) ↔ (a ∈ xs)
  is_member_iff a [] = (λ h. absurd (cc), λ h. absurd h)
  is_member_iff a (x ∷ xs) = elim (Bool-cases (e.same a x)) [
    | inl b ↦ (λ h. inl ((e.same_iff a x).0 b), λ h. rw (b, is_member) refl)
    | inr b ↦ (
      λ h. inr ((is_member_iff a xs).0 (sym (rw (b, is_member) refl) ∙ h)),
      λ h. elim h [
        | inl same ↦ absurd (differ b ((e.same_iff a x).1 same))
        | inr later ↦ rw (b, is_member) ((is_member_iff a xs).1 later)
      ],
    )
  ]

  unless-∈ :
      (a x : A) (rest : List A) (b : Bool)
      → (b ≡ true → x ∈ rest)
      → (a ∈ unless b x rest) ↔ (a ∈ (x ∷ rest))
  unless-∈ a x rest true h = (
    λ m. inr m,
    λ m. elim m [ inl same ↦ subst (λ y. y ∈ rest) (sym same) (h refl) | inr later ↦ later ],
  )
  unless-∈ a x rest false h = (λ m. m, λ m. m)

  pub to_set-∈ : (a : A) (xs : List A) → (a ∈ to_set xs) ↔ (a ∈ xs)
  to_set-∈ a [] = (λ h. h, λ h. h)
  to_set-∈ a (x ∷ xs) =
      let rest = to_set-∈ a xs in
      let new =
        unless-∈ a x (to_set xs) (is_member x (to_set xs)) (is_member_iff x (to_set xs)).0 in
      (
        λ h. elim (new.0 h) [ inl same ↦ inl same | inr later ↦ inr (rest.0 later) ],
        λ h. new.1 (elim h as (λ _. a ∈ (x ∷ to_set xs)) [
          | inl same ↦ inl same
          | inr later ↦ inr (rest.1 later)
        ]),
      )

  length-to_set : (xs : List A) → length (to_set xs) ≤ length xs
  length-to_set [] = omega arith
  length-to_set (x ∷ xs) = elim (Bool-cases (is_member x (to_set xs))) [
    | inl b ↦ rw (b, unless) (omega (arith, length-to_set xs))
    | inr b ↦ rw (b, unless) (omega (arith, length-to_set xs))
  ]

  full-Distinct : (xs : List A) → (length (to_set xs) ≡ length xs) ↔ Distinct xs
  full-Distinct [] = (λ h. tt, λ h. refl)
  full-Distinct (x ∷ xs) =
      let mem = is_member_iff x (to_set xs) in
      let old = to_set-∈ x xs in
      let rest = full-Distinct xs in
      elim (Bool-cases (is_member x (to_set xs))) [
        | inl b ↦
            rw (b, unless)
              (λ h. absurd (too_short h (length-to_set xs)), λ h. absurd (h.0 (old.0 (mem.0 b))))
        | inr b ↦
            rw (b, unless)
              (
                λ h. (λ m. differ b (mem.1 (old.1 m)), rest.0 (one_less h)),
                λ h. ap suc (rest.1 h.1),
              )
      ]

  -- A set has as many members as the list only where nothing is repeated.
  pub has_repeats_iff : (xs : List A) → (has_repeats xs ≡ false) ↔ Distinct xs
  has_repeats_iff xs =
      (λ h. (full-Distinct xs).0 (equal_of h), λ h. of_equal ((full-Distinct xs).1 h))

  pub is_subset_iff : (xs ys : List A) → (is_subset xs ys ≡ true) ↔ ((a : A) → a ∈ xs → a ∈ ys)
  is_subset_iff [] ys = (λ h a m. absurd m, λ h. refl)
  is_subset_iff (x ∷ xs) ys =
      let rest = is_subset_iff xs ys in
      (
        λ h a m. elim m [
          | inl same ↦ subst (λ y. y ∈ ys) (sym same) ((is_member_iff x ys).0 (both_true h).0)
          | inr later ↦ rest.0 (both_true h).1 a later
        ],
        λ h. true_both ((is_member_iff x ys).1 (h x (inl refl))) (rest.1 (λ a m. h a (inr m))),
      )

  pub same_set_iff : (xs ys : List A) → (same_set xs ys ≡ true) ↔ ((a : A) → (a ∈ xs) ↔ (a ∈ ys))
  same_set_iff xs ys = (
    λ h a. ((is_subset_iff xs ys).0 (both_true h).0 a, (is_subset_iff ys xs).0 (both_true h).1 a),
    λ h.
        true_both ((is_subset_iff xs ys).1 (λ a. (h a).0)) ((is_subset_iff ys xs).1 (λ a. (h a).1)),
  )
