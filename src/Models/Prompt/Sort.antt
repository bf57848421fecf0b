-- ===== src/Models/Prompt/Sort.antt =====
-- The order of the reminders in a request.
use purrcept_core.Base.{
  ◌+◌, Bool, true, false, ◌≡◌, refl, ap, ◌∙◌, List, [], ◌∷◌, arith, keep_if, All, Bool-cases, inl,
  inr, ltb→lt, ltb→ge, leb→le, ◌⊎◌, if◌then◌else◌, ◌&&◌,
}
use purrcept_core.Base.Int.{ℤ, pos_part, neg_part, ltb_ℤ, leb_ℤ, ◌≤ℤ◌}
use purrcept_core.Models.Prompt.Compiler.{Entry, insert_entry, sort_entries}

-- Every entry has at least the priority of each one after it.
abbrev pub Descending : List Entry → Type 0
Descending [] = Unit
Descending (x ∷ xs) = All (λ y. y.reminder.priority ≤ℤ x.reminder.priority) xs × Descending xs

abbrev pub has_priority : ℤ → Entry → Bool
has_priority p x = leb_ℤ p x.reminder.priority && leb_ℤ x.reminder.priority p

insert-All :
    (b : ℤ) (x : Entry) (ys : List Entry)
    → x.reminder.priority ≤ℤ b
    → All (λ y. y.reminder.priority ≤ℤ b) ys
    → All (λ y. y.reminder.priority ≤ℤ b) (insert_entry x ys)
unfolding insert_entry
insert-All b x [] h hs = (h, tt)
insert-All b x (y ∷ ys) h hs = ground (arith, insert-All b x ys)

weaken-All :
    (a b : ℤ) (ys : List Entry)
    → a ≤ℤ b
    → All (λ y. y.reminder.priority ≤ℤ a) ys
    → All (λ y. y.reminder.priority ≤ℤ b) ys
weaken-All a b [] h hs = tt
weaken-All a b (y ∷ ys) h hs = (omega (arith, h, hs.0), weaken-All a b ys h hs.1)

insert-before :
    (x y : Entry) (ys : List Entry)
    → ltb_ℤ x.reminder.priority y.reminder.priority ≡ false
    → insert_entry x (y ∷ ys) ≡ x ∷ y ∷ ys
unfolding insert_entry
insert-before x y ys h = ap (λ b. if b then y ∷ insert_entry x ys else x ∷ y ∷ ys) h

insert-after :
    (x y : Entry) (ys : List Entry)
    → ltb_ℤ x.reminder.priority y.reminder.priority ≡ true
    → insert_entry x (y ∷ ys) ≡ y ∷ insert_entry x ys
unfolding insert_entry
insert-after x y ys h = ap (λ b. if b then y ∷ insert_entry x ys else x ∷ y ∷ ys) h

ltb_ℤ-le : (a b : ℤ) → ltb_ℤ a b ≡ true → a ≤ℤ b
ltb_ℤ-le a b h = omega (arith, ltb→lt (pos_part a + neg_part b) (pos_part b + neg_part a) h)

ltb_ℤ-ge : (a b : ℤ) → ltb_ℤ a b ≡ false → b ≤ℤ a
ltb_ℤ-ge a b h = omega (arith, ltb→ge (pos_part a + neg_part b) (pos_part b + neg_part a) h)

insert-Descending : (x : Entry) (ys : List Entry) → Descending ys → Descending (insert_entry x ys)
unfolding insert_entry
insert-Descending x [] h = (tt, tt)
insert-Descending x (y ∷ ys) h = elim (Bool-cases (ltb_ℤ x.reminder.priority y.reminder.priority)) [
  | inl less ↦ rw (insert-after x y ys less) (
    insert-All y.reminder.priority x ys (ltb_ℤ-le x.reminder.priority y.reminder.priority less) h.0,
    insert-Descending x ys h.1,
  )
  | inr not_less ↦
      let here : y.reminder.priority ≤ℤ x.reminder.priority =
        ltb_ℤ-ge x.reminder.priority y.reminder.priority not_less in
      rw (insert-before x y ys not_less)
        ((here, weaken-All y.reminder.priority x.reminder.priority ys here h.0), h)
]

sort-Descending : (xs : List Entry) → Descending (sort_entries xs)
unfolding sort_entries
sort-Descending [] = tt
sort-Descending (x ∷ xs) = insert-Descending x (sort_entries xs) (sort-Descending xs)

keep-cons :
    (q : Entry → Bool) (x : Entry) (ys zs : List Entry)
    → keep_if q ys ≡ keep_if q zs
    → keep_if q (x ∷ ys) ≡ keep_if q (x ∷ zs)
keep-cons q x ys zs e = ground arith

keep-swap :
    (q : Entry → Bool) (x y : Entry) (zs ys : List Entry)
    → (q x ≡ false) ⊎ (q y ≡ false)
    → keep_if q zs ≡ keep_if q (x ∷ ys)
    → keep_if q (y ∷ zs) ≡ keep_if q (x ∷ y ∷ ys)
keep-swap q x y zs ys (inl h) e = ground (arith)
keep-swap q x y zs ys (inr h) e = ground (arith)

abbrev equal_ℤ : ℤ → ℤ → Bool
equal_ℤ p a = leb_ℤ p a && leb_ℤ a p

and-true : (a b : Bool) → a && b ≡ true → (a ≡ true) × (b ≡ true)
and-true true true h = (refl, refl)
and-true true false h = absurd (cc)
and-true false b h = absurd (cc)

leb_ℤ-le : (a b : ℤ) → leb_ℤ a b ≡ true → a ≤ℤ b
leb_ℤ-le a b h = omega (arith, leb→le (pos_part a + neg_part b) (pos_part b + neg_part a) h)

lt-not_above : (p a b : ℤ) → ltb_ℤ a b ≡ true → leb_ℤ p a ≡ true → leb_ℤ b p ≡ true → ⊥
lt-not_above p a b less pa bp = omega (
  arith,
  ltb→lt (pos_part a + neg_part b) (pos_part b + neg_part a) less,
  leb_ℤ-le p a pa,
  leb_ℤ-le b p bp,
)

not_both : (p a b : ℤ) → ltb_ℤ a b ≡ true → (equal_ℤ p a ≡ false) ⊎ (equal_ℤ p b ≡ false)
not_both p a b less = elim (Bool-cases (equal_ℤ p a)) [
  | inr e ↦ inl e
  | inl ea ↦ elim (Bool-cases (equal_ℤ p b)) [
    | inr e ↦ inr e
    | inl eb ↦ absurd (
        lt-not_above p a b less (and-true (leb_ℤ p a) (leb_ℤ a p) ea).0
          (and-true (leb_ℤ p b) (leb_ℤ b p) eb).1)
  ]
]

insert-keep :
    (p : ℤ) (x : Entry) (ys : List Entry)
    → keep_if (has_priority p) (insert_entry x ys) ≡ keep_if (has_priority p) (x ∷ ys)
unfolding insert_entry
insert-keep p x [] = refl
insert-keep p x (y ∷ ys) = elim (Bool-cases (ltb_ℤ x.reminder.priority y.reminder.priority)) [
  | inl less ↦
      ap (keep_if (has_priority p)) (insert-after x y ys less)
      ∙ keep-swap (has_priority p) x y (insert_entry x ys) ys
          (not_both p x.reminder.priority y.reminder.priority less) (insert-keep p x ys)
  | inr not_less ↦ ap (keep_if (has_priority p)) (insert-before x y ys not_less)
]

sort-keep :
    (p : ℤ) (xs : List Entry)
    → keep_if (has_priority p) (sort_entries xs) ≡ keep_if (has_priority p) xs
unfolding sort_entries
sort-keep p [] = refl
sort-keep p (x ∷ xs) =
    insert-keep p x (sort_entries xs)
    ∙ keep-cons (has_priority p) x (sort_entries xs) xs (sort-keep p xs)

-- The sorted reminders stand in order of descending priority, and those of one priority are the same,
-- in the same order, as before: nothing is lost, added or reordered among equals.
pub reminders_sorted :
    (xs : List Entry)
    → Descending (sort_entries xs)
      × ((p : ℤ) → keep_if (has_priority p) (sort_entries xs) ≡ keep_if (has_priority p) xs)
reminders_sorted xs = (sort-Descending xs, λ p. sort-keep p xs)
