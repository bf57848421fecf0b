-- ===== src/Models/Prompt/Unique.antt =====
-- The check of reminder keys across stored, turn and dynamic reminders.
use purrcept_core.Base.{
  ℕ, suc, ◌≤◌, String, str_eq, eq_iff, eq_refl, true, false, ◌≡◌, refl, sym, ap, Option, none, some,
  List, [], ◌∷◌, map, ok, arith, any_of,
}
use purrcept_core.Models.Reminders.{SystemReminder, has_key, key_is}
use purrcept_core.Models.Reminders.Keys.{count, UniqueKeys}
use purrcept_core.Models.Prompt.Compiler.{validate_unique_keys}

abbrev count_key : String → List (Option String) → ℕ
count_key j [] = 0
count_key j (o ∷ ks) = let n = count_key j ks in elim (key_is j o) [ true ↦ suc n | false ↦ n ]

count-count_key :
    (j : String) (rs : List SystemReminder) → count j rs ≡ count_key j (map (λ r. r.key) rs)
unfolding has_key
count-count_key j [] = refl
count-count_key j (r ∷ rs) = ground (arith, count-count_key j rs)

-- No key twice, and none that was seen.
record Fresh (seen : List String) (ks : List (Option String)) : Type 0 where
  at_most_one : (j : String) → count_key j ks ≤ 1
  unseen : (j : String) → any_of (str_eq j) seen ≡ true → count_key j ks ≡ 0

rejects :
    (seen : List String) (k : String) (ks : List (Option String))
    → validate_unique_keys seen (some k ∷ ks) ≡ ok tt
    → (any_of (str_eq k) seen ≡ false) × (validate_unique_keys (k ∷ seen) ks ≡ ok tt)
unfolding validate_unique_keys
rejects seen k ks h = ground arith

accepts :
    (seen : List String) (k : String) (ks : List (Option String))
    → any_of (str_eq k) seen ≡ false
    → validate_unique_keys (k ∷ seen) ks ≡ ok tt
    → validate_unique_keys seen (some k ∷ ks) ≡ ok tt
unfolding validate_unique_keys
accepts seen k ks h rest = ground arith

same_sym : (j k : String) → str_eq j k ≡ true → str_eq k j ≡ true
same_sym j k h = (eq_iff k j).1 (sym ((eq_iff j k).0 h))

same_seen :
    (j k : String) (seen : List String)
    → str_eq k j ≡ true
    → any_of (str_eq j) seen ≡ any_of (str_eq k) seen
same_seen j k seen h = ap (λ x. any_of (str_eq x) seen) (sym ((eq_iff k j).0 h))

validate_sound :
    (seen : List String) (ks : List (Option String))
    → validate_unique_keys seen ks ≡ ok tt
    → Fresh seen ks
unfolding validate_unique_keys
validate_sound seen [] h = record { at_most_one = λ j. omega arith; unseen = λ j e. refl }
validate_sound seen (none ∷ ks) h =
    let rest = validate_sound seen ks h in
    record { at_most_one = rest.at_most_one; unseen = rest.unseen }
validate_sound seen (some k ∷ ks) h =
    let (free, later) = rejects seen k ks h in
    let rest = validate_sound (k ∷ seen) ks later in
    record {
      at_most_one = λ j. ground (arith, rest.at_most_one j, rest.unseen j, same_sym k j);
      unseen = λ j e. ground (arith, rest.unseen j, same_seen j k seen, same_sym k j);
    }

validate_complete :
    (seen : List String) (ks : List (Option String))
    → Fresh seen ks
    → validate_unique_keys seen ks ≡ ok tt
unfolding validate_unique_keys
validate_complete seen [] h = refl
validate_complete seen (none ∷ ks) h =
    validate_complete seen ks (record { at_most_one = h.at_most_one; unseen = h.unseen })
validate_complete seen (some k ∷ ks) h =
    let free : any_of (str_eq k) seen ≡ false = ground (arith, h.unseen k, eq_refl k) in
    accepts seen k ks free (
      validate_complete (k ∷ seen) ks (record {
        at_most_one = λ j. ground (arith, h.at_most_one j);
        unseen = λ j e. ground (arith, h.at_most_one j, h.unseen j, same_sym j k);
      }))

-- The compiler's check accepts a list of reminders exactly if no key stands twice in it.
pub duplicates_rejected :
    (rs : List SystemReminder)
    → (validate_unique_keys [] (map (λ r. r.key) rs) ≡ ok tt → UniqueKeys rs)
      × (UniqueKeys rs → validate_unique_keys [] (map (λ r. r.key) rs) ≡ ok tt)
duplicates_rejected rs = (
  λ h.
      let fresh = validate_sound [] (map (λ r. r.key) rs) h in
      record { at_most_one = λ j. omega (arith, count-count_key j rs, fresh.at_most_one j) },
  λ u. validate_complete [] (map (λ r. r.key) rs) (record {
    at_most_one = λ j. omega (arith, count-count_key j rs, u.at_most_one j);
    unseen = λ j e. absurd (cc);
  }),
)
