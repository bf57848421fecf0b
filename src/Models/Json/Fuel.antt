-- ===== src/Models/Json/Fuel.antt =====
-- The conversion has enough fuel: the identities on the path to a value are those of containers, and
-- none comes twice.
use purrcept_core.Base.{
  ℕ, zero, suc, ◌≤◌, ◌<◌, String, Bool, true, false, ◌≡◌, ◌≢◌, refl, sym, ap, Option, none, some,
  inl, inr, List, [], ◌∷◌, Result, ok, err, ◌>>=◌, err_same, length, arith, Bool-cases,
}
use mathlib.Core.Path.{subst}
use purrcept_core.Base.Float.{Float, is_finite}
use purrcept_core.Base.Sets.{differ, is_member, nat_equal}
use purrcept_core.Models.Messages.{Error, out_of_fuel}
use purrcept_core.Models.Json.{
  Value, null_value, string_value, bool_value, int_value, float_value, object_value, Container,
  mapping, sequence, dataclass, Store, container_at, Json, null, string, boolean, integer, array,
  object, no_items, item, no_fields, field, value_mapping, require_mapping, convert_items,
  convert_mapping, convert_fields, convert_float, convert_container, enter, convert, to_json_value,
  freeze_json_object,
}

-- How many of the identities below `n` are not active.
abbrev pub if_free : Bool → ℕ → ℕ
if_free true k = k
if_free false k = suc k

abbrev pub free : ℕ → List ℕ → ℕ
free zero active = 0
free (suc n) active = if_free (is_member n active) (free n active)

pub free_le : (n : ℕ) (active : List ℕ) → free n active ≤ n
free_le zero active = omega arith
free_le (suc n) active = elim (Bool-cases (is_member n active)) [
  | inl b ↦ rw (b, if_free) (omega (arith, free_le n active))
  | inr b ↦ rw (b, if_free) (omega (arith, free_le n active))
]

member_cons : (k i : ℕ) (active : List ℕ) → k ≢ i → is_member k (i ∷ active) ≡ is_member k active
member_cons k i active ne = elim (Bool-cases (nat_equal.same k i)) [
  | inl b ↦ absurd (ne ((nat_equal.same_iff k i).0 b))
  | inr b ↦ rw (b, is_member) refl
]

free_above : (n i : ℕ) (active : List ℕ) → n ≤ i → free n (i ∷ active) ≡ free n active
free_above zero i active h = refl
free_above (suc n) i active h =
    rw (member_cons n i active (λ e. omega arith))
      (ap (if_free (is_member n active)) (free_above n i active (omega arith)))

same_self : (n : ℕ) → nat_equal.same n n ≡ true
same_self n = (nat_equal.same_iff n n).1 refl

member_self : (n : ℕ) (active : List ℕ) → is_member n (n ∷ active) ≡ true
member_self n active = rw (same_self n, is_member) refl

free_cons-last :
    (n i : ℕ) (active : List ℕ)
    → n ≡ i
    → is_member i active ≡ false
    → suc (free (suc n) (i ∷ active)) ≡ free (suc n) active
free_cons-last n i active e new =
    subst (λ k. suc (free (suc n) (k ∷ active)) ≡ free (suc n) active) e
      (rw (member_self n active, subst (λ k. is_member k active ≡ false) (sym e) new)
        (ap suc (free_above n n active (omega arith))))

suc-if_free : (b : Bool) (j k : ℕ) → suc j ≡ k → suc (if_free b j) ≡ if_free b k
suc-if_free true j k h = h
suc-if_free false j k h = ap suc h

-- A new identity leaves one less.
pub free_cons :
    (n i : ℕ) (active : List ℕ)
    → i < n
    → is_member i active ≡ false
    → suc (free n (i ∷ active)) ≡ free n active
free_cons zero i active h new = absurd (omega arith)
free_cons (suc n) i active h new = elim (Bool-cases (nat_equal.same n i)) [
  | inl b ↦ free_cons-last n i active ((nat_equal.same_iff n i).0 b) new
  | inr b ↦
      let ne : n ≢ i = λ e. differ b ((nat_equal.same_iff n i).1 e) in
      rw (member_cons n i active ne) (
        suc-if_free (is_member n active) (free n (i ∷ active)) (free n active)
          (free_cons n i active (omega arith) new))
]

pub container_at-< :
    (store : Store) (i : ℕ) (c : Container) → container_at store i ≡ some c → i < length store
container_at-< [] i c h = absurd (cc)
container_at-< (d ∷ store) zero c h = omega arith
container_at-< (d ∷ store) (suc i) c h = omega (arith, container_at-< store i c h)

abbrev Ends : {A : Type 0} → Result Error A → Type 0
Ends r = r ≢ err out_of_fuel

bind-Ends :
    {A B : Type 0} (m : Result Error A) (f : A → Result Error B)
    → Ends m
    → ((a : A) → Ends (f a))
    → Ends (m >>= f)
bind-Ends (ok a) f h k = k a
bind-Ends (err e) f h k = λ same. h (ap err (err_same (err e) e out_of_fuel refl same))

ok-Ends : {A : Type 0} (a : A) → Ends (ok a)
ok-Ends a = λ e. cc

module _ (convert_one : Value → Result Error Json) (h : (v : Value) → Ends (convert_one v)) where
  convert_items-Ends : (vs : List Value) → Ends (convert_items convert_one vs)
  convert_items-Ends [] = ok-Ends no_items
  convert_items-Ends (v ∷ vs) = bind-Ends (convert_one v) _ (h v) (λ j.
      bind-Ends (convert_items convert_one vs) _ (convert_items-Ends vs)
        (λ js. ok-Ends (item j js)))

  convert_fields-Ends : (vs : List (String × Value)) → Ends (convert_fields convert_one vs)
  convert_fields-Ends [] = ok-Ends no_fields
  convert_fields-Ends ((key, v) ∷ vs) = bind-Ends (convert_one v) _ (h v) (λ j.
      bind-Ends (convert_fields convert_one vs) _ (convert_fields-Ends vs)
        (λ js. ok-Ends (field key j js)))

  convert_mapping-Ends : (vs : List (Option String × Value)) → Ends (convert_mapping convert_one vs)
  convert_mapping-Ends [] = ok-Ends no_fields
  convert_mapping-Ends ((none, v) ∷ vs) = λ e. cc
  convert_mapping-Ends ((some key, v) ∷ vs) = bind-Ends (convert_one v) _ (h v) (λ j.
      bind-Ends (convert_mapping convert_one vs) _ (convert_mapping-Ends vs)
        (λ js. ok-Ends (field key j js)))

  convert_container-Ends :
      (b : Bool) (o : Option Container) → Ends (convert_container b convert_one o)
  convert_container-Ends b none = λ e. cc
  convert_container-Ends b (some (mapping items)) =
      bind-Ends (convert_mapping convert_one items) _ (convert_mapping-Ends items)
        (λ fields. ok-Ends (object fields))
  convert_container-Ends b (some (sequence vs)) =
      bind-Ends (convert_items convert_one vs) _ (convert_items-Ends vs)
        (λ items. ok-Ends (array items))
  convert_container-Ends true (some (dataclass fields)) =
      bind-Ends (convert_fields convert_one fields) _ (convert_fields-Ends fields)
        (λ converted. ok-Ends (object converted))
  convert_container-Ends false (some (dataclass fields)) = λ e. cc

require_mapping-Ends : (o : Option Container) → Ends (require_mapping o)
require_mapping-Ends none = λ e. cc
require_mapping-Ends (some (mapping items)) = λ e. cc
require_mapping-Ends (some (sequence vs)) = λ e. cc
require_mapping-Ends (some (dataclass fields)) = λ e. cc

value_mapping-Ends : (store : Store) (v : Value) → Ends (value_mapping store v)
value_mapping-Ends store null_value = λ e. cc
value_mapping-Ends store (string_value s) = λ e. cc
value_mapping-Ends store (bool_value b) = λ e. cc
value_mapping-Ends store (int_value n) = λ e. cc
value_mapping-Ends store (float_value x) = λ e. cc
value_mapping-Ends store (object_value i) = require_mapping-Ends (container_at store i)

enter-Ends :
    (b : Bool) (o : Option Container) (r : Result Error Json)
    → ((c : Container) → b ≡ false → o ≡ some c → Ends r)
    → Ends (enter b o r)
enter-Ends true none r h = λ e. cc
enter-Ends false none r h = λ e. cc
enter-Ends true (some c) r h = λ e. cc
enter-Ends false (some c) r h = h c refl refl

convert_float-Ends : (b : Bool) (x : Float) → Ends (convert_float b x)
convert_float-Ends true x = λ e. cc
convert_float-Ends false x = λ e. cc

convert-Ends :
    (b : Bool) (store : Store) (fuel : ℕ) (active : List ℕ) (v : Value)
    → free (length store) active < fuel
    → Ends (convert b store fuel active v)
unfolding convert
convert-Ends b store zero active v h = absurd (omega arith)
convert-Ends b store (suc fuel) active null_value h = ok-Ends null
convert-Ends b store (suc fuel) active (string_value s) h = ok-Ends (string s)
convert-Ends b store (suc fuel) active (bool_value c) h = ok-Ends (boolean c)
convert-Ends b store (suc fuel) active (int_value n) h = ok-Ends (integer n)
convert-Ends b store (suc fuel) active (float_value x) h = convert_float-Ends (is_finite x) x
convert-Ends b store (suc fuel) active (object_value i) h =
    let inside = convert b store fuel (i ∷ active) in
    enter-Ends (is_member i active) (container_at store i)
      (convert_container b inside (container_at store i))
      (λ c new found.
        convert_container-Ends inside
          (λ v. convert-Ends b store fuel (i ∷ active) v (
            let less = free_cons (length store) i active (container_at-< store i c found) new in
            omega arith))
          b (container_at store i))

-- The conversions of a JSON object and of a tool's result end, whatever the objects hold and however
-- they refer to each other: the model's fuel is never used up.
pub conversion_ends :
    (store : Store) (v : Value)
    → (to_json_value store v ≢ err out_of_fuel) × (freeze_json_object store v ≢ err out_of_fuel)
unfolding to_json_value freeze_json_object
conversion_ends store v =
    let enough = free_le (length store) [] in
    (
      convert-Ends true store (suc (length store)) [] v (omega arith),
      bind-Ends (value_mapping store v) (λ _. convert false store (suc (length store)) [] v)
          (value_mapping-Ends store v)
          (λ _. convert-Ends false store (suc (length store)) [] v (omega arith)),
    )
