-- ===== src/Models/Reminders/Keys.antt =====
-- Keys in a collection of reminders: construction makes them unique, and changes nothing where they
-- are.
use purrcept_core.Base.{
  ℕ, suc, ◌+◌, ◌≤◌, String, eq_iff, eq_refl, true, false, ◌≡◌, ◌≢◌, refl, sym, ap, ◌∙◌, Option,
  none, some, List, [], ◌∷◌, ◌++◌, append_assoc, append-nil, Bool-cases, Option-cases, inl, inr,
  arith,
}
use purrcept_core.Models.Reminders.{
  SystemReminder, has_key, replace_key, upsert_reminder, normalize_from, make_reminders, key_is,
  place,
}

pub true_ne_false : true ≢ false
true_ne_false = λ p. cc

-- The number of reminders with a key.
abbrev pub count : String → List SystemReminder → ℕ
count k [] = 0
count k (r ∷ rs) = let n = count k rs in elim (has_key k r) [ true ↦ suc n | false ↦ n ]

pub record UniqueKeys (rs : List SystemReminder) : Type 0 where
  pub at_most_one : (k : String) → count k rs ≤ 1

pub key-has_key : (r : SystemReminder) (k : String) → r.key ≡ some k → has_key k r ≡ true
unfolding has_key
key-has_key r k e = ap (key_is k) e ∙ eq_refl k

pub no_key-has_key : (r : SystemReminder) (k : String) → r.key ≡ none → has_key k r ≡ false
unfolding has_key
no_key-has_key r k e = ap (key_is k) e

key_is-some : (k : String) (o : Option String) → key_is k o ≡ true → o ≡ some k
key_is-some k none h = absurd (true_ne_false (sym h))
key_is-some k (some k') h = ap some ((eq_iff k' k).0 h)

pub has_key-key : (r : SystemReminder) (k : String) → has_key k r ≡ true → r.key ≡ some k
unfolding has_key
has_key-key r k h = key_is-some k r.key h

-- Two reminders agree on every key if they share one.
pub has_key-other :
    (j k : String) (r x : SystemReminder)
    → has_key k r ≡ true
    → has_key k x ≡ true
    → has_key j x ≡ has_key j r
unfolding has_key
has_key-other j k r x hr hx = ap (key_is j) (has_key-key x k hx ∙ sym (has_key-key r k hr))

pub count-append :
    (k : String) (xs ys : List SystemReminder) → count k (xs ++ ys) ≡ count k xs + count k ys
count-append k [] ys = omega arith
count-append k (x ∷ xs) ys = ground (arith, count-append k xs ys)

-- The key that is put in has exactly one reminder if it had at most one.
pub count-replace_same :
    (j k : String) (r : SystemReminder) (rs : List SystemReminder)
    → has_key k r ≡ true
    → has_key j r ≡ true
    → count j rs ≤ 1
    → count j (replace_key k r rs) ≡ 1
unfolding replace_key
count-replace_same j k r [] h mine le = ground arith
count-replace_same j k r (x ∷ xs) h mine le =
    ground (
      arith,
      count-replace_same j k r xs h mine,
      has_key-other j k r x h,
      has_key-other k j r x mine,
    )

-- Other keys keep theirs.
pub count-replace_other :
    (j k : String) (r : SystemReminder) (rs : List SystemReminder)
    → has_key k r ≡ true
    → has_key j r ≡ false
    → count j (replace_key k r rs) ≡ count j rs
unfolding replace_key
count-replace_other j k r [] h other = ground arith
count-replace_other j k r (x ∷ xs) h other =
    ground (arith, count-replace_other j k r xs h other, has_key-other j k r x h)

pub upsert-none :
    (rs : List SystemReminder) (r : SystemReminder)
    → r.key ≡ none
    → upsert_reminder rs r ≡ rs ++ r ∷ []
unfolding upsert_reminder
upsert-none rs r e = ap (λ o. place o rs r) e

pub upsert-some :
    (rs : List SystemReminder) (r : SystemReminder) (k : String)
    → r.key ≡ some k
    → upsert_reminder rs r ≡ replace_key k r rs
unfolding upsert_reminder
upsert-some rs r k e = ap (λ o. place o rs r) e

count-upsert :
    (rs : List SystemReminder) (r : SystemReminder) (j : String)
    → count j rs ≤ 1
    → count j (upsert_reminder rs r) ≤ 1
count-upsert rs r j h = elim (Option-cases r.key) [
  | inl e ↦
      rw (upsert-none rs r e) (ground (arith, count-append j rs (r ∷ []), no_key-has_key r j e))
  | inr (k, e) ↦ rw (upsert-some rs r k e) (elim (Bool-cases (has_key j r)) [
    | inl mine ↦ ground (arith, count-replace_same j k r rs (key-has_key r k e) mine h)
    | inr other ↦ ground (arith, count-replace_other j k r rs (key-has_key r k e) other, h)
  ])
]

pub upsert-UniqueKeys :
    (rs : List SystemReminder) (r : SystemReminder)
    → UniqueKeys rs
    → UniqueKeys (upsert_reminder rs r)
upsert-UniqueKeys rs r h = record { at_most_one = λ j. count-upsert rs r j (h.at_most_one j) }

normalize_from-UniqueKeys :
    (acc rs : List SystemReminder) → UniqueKeys acc → UniqueKeys (normalize_from acc rs)
unfolding normalize_from
normalize_from-UniqueKeys acc [] h = h
normalize_from-UniqueKeys acc (r ∷ rs) h =
    normalize_from-UniqueKeys (upsert_reminder acc r) rs (upsert-UniqueKeys acc r h)

nil-UniqueKeys : UniqueKeys []
nil-UniqueKeys = record { at_most_one = λ k. omega arith }

-- A key that is not there is put at the end.
pub replace-new :
    (k : String) (r : SystemReminder) (rs : List SystemReminder)
    → count k rs ≡ 0
    → replace_key k r rs ≡ rs ++ r ∷ []
unfolding replace_key
replace-new k r [] h = refl
replace-new k r (x ∷ xs) h = ground (arith, replace-new k r xs)

upsert-new :
    (acc rs : List SystemReminder) (r : SystemReminder)
    → UniqueKeys (acc ++ r ∷ rs)
    → upsert_reminder acc r ≡ acc ++ r ∷ []
upsert-new acc rs r h = elim (Option-cases r.key) [
  | inl e ↦ upsert-none acc r e
  | inr (k, e) ↦
      upsert-some acc r k e
      ∙ replace-new k r acc
          (ground (arith, h.at_most_one k, count-append k acc (r ∷ rs), key-has_key r k e))
]

normalize_from-identity :
    (acc rs : List SystemReminder) → UniqueKeys (acc ++ rs) → normalize_from acc rs ≡ acc ++ rs
unfolding normalize_from
normalize_from-identity acc [] h = sym (append-nil acc)
normalize_from-identity acc (r ∷ rs) h = rw (upsert-new acc rs r h) (
    normalize_from-identity (acc ++ r ∷ []) rs (rw (append_assoc acc (r ∷ []) rs) h)
    ∙ append_assoc acc (r ∷ []) rs)

-- The constructor of ReminderState gives, from any reminders, a collection in which no key stands
-- twice, and gives the very reminders it got if no key stood twice in them.
pub reminder_state_keys :
    (rs : List SystemReminder)
    → UniqueKeys (make_reminders rs).reminders
      × (UniqueKeys rs → (make_reminders rs).reminders ≡ rs)
unfolding make_reminders
reminder_state_keys rs =
    (normalize_from-UniqueKeys [] rs nil-UniqueKeys, normalize_from-identity [] rs)
