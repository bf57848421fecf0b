-- ===== src/Models/Json/Unfolding.antt =====
-- The check for cycles, against a conversion without one.
use mathlib.Core.Path.{subst}
use purrcept_core.Base.{
  ℕ, zero, suc, ◌<◌, Bool, true, false, ◌≡◌, ◌≢◌, refl, sym, ap, ◌∙◌, ◌↔◌, Option, none, some, inl,
  inr, List, [], ◌∷◌, Result, ok, err, ◌>>=◌, bind_ok, ok_same, Result-cases, length, arith,
  Bool-cases,
}
use purrcept_core.Base.Float.{is_finite}
use purrcept_core.Base.Sets.{is_member, is_member_iff, ◌∈◌, nat_equal}
use purrcept_core.Models.Messages.{Error, out_of_fuel}
use purrcept_core.Models.Json.{
  Value, null_value, string_value, bool_value, int_value, float_value, object_value, Container,
  mapping, sequence, dataclass, Store, container_at, Json, null, string, boolean, integer, array,
  object, item, field, convert_items, convert_mapping, convert_fields, convert_float,
  convert_container, enter, convert, to_json_value,
}
use purrcept_core.Models.Json.Fuel.{conversion_ends, free, free_le, free_cons, container_at-<}

-- The conversion by plain recursion, which follows references without end: what it returns with some
-- fuel, it returns with more.
unfoldable pub plain : Bool → Store → ℕ → Value → Result Error Json
plain b store zero v = err out_of_fuel
plain b store (suc n) null_value = ok null
plain b store (suc n) (string_value s) = ok (string s)
plain b store (suc n) (bool_value c) = ok (boolean c)
plain b store (suc n) (int_value k) = ok (integer k)
plain b store (suc n) (float_value x) = convert_float (is_finite x) x
plain b store (suc n) (object_value i) =
    convert_container b (plain b store n) (container_at store i)

-- Where the one returns, the other returns the same.
abbrev Refines : {A B : Type 0} → (A → Result Error B) → (A → Result Error B) → Type 0
Refines {A} {B} f g = (a : A) (c : B) → f a ≡ ok c → g a ≡ ok c

bind-Refines :
    {A B : Type 0} (m n : Result Error A) (f g : A → Result Error B) (b : B)
    → ((a : A) → m ≡ ok a → n ≡ ok a)
    → Refines f g
    → (m >>= f) ≡ ok b
    → (n >>= g) ≡ ok b
bind-Refines m n f g b h k e =
    let before = bind_ok m f b e in rw (h before.value before.first) (k before.value b before.then)

module _ (f g : Value → Result Error Json) (h : Refines f g) where
  convert_items-Refines : Refines (convert_items f) (convert_items g)
  convert_items-Refines [] c e = e
  convert_items-Refines (v ∷ vs) c e =
      bind-Refines (f v) (g v) (λ j. convert_items f vs >>= λ js. ok (item j js))
        (λ j. convert_items g vs >>= λ js. ok (item j js)) c (h v)
        (λ j d.
          bind-Refines (convert_items f vs) (convert_items g vs) (λ js. ok (item j js))
            (λ js. ok (item j js)) d (convert_items-Refines vs) (λ js x q. q))
        e

  convert_mapping-Refines : Refines (convert_mapping f) (convert_mapping g)
  convert_mapping-Refines [] c e = e
  convert_mapping-Refines ((none, v) ∷ vs) c e = absurd (cc)
  convert_mapping-Refines ((some key, v) ∷ vs) c e =
      bind-Refines (f v) (g v) (λ j. convert_mapping f vs >>= λ js. ok (field key j js))
        (λ j. convert_mapping g vs >>= λ js. ok (field key j js)) c (h v)
        (λ j d.
          bind-Refines (convert_mapping f vs) (convert_mapping g vs) (λ js. ok (field key j js))
            (λ js. ok (field key j js)) d (convert_mapping-Refines vs) (λ js x q. q))
        e

  convert_fields-Refines : Refines (convert_fields f) (convert_fields g)
  convert_fields-Refines [] c e = e
  convert_fields-Refines ((key, v) ∷ vs) c e =
      bind-Refines (f v) (g v) (λ j. convert_fields f vs >>= λ js. ok (field key j js))
        (λ j. convert_fields g vs >>= λ js. ok (field key j js)) c (h v)
        (λ j d.
          bind-Refines (convert_fields f vs) (convert_fields g vs) (λ js. ok (field key j js))
            (λ js. ok (field key j js)) d (convert_fields-Refines vs) (λ js x q. q))
        e

  convert_container-Refines : (b : Bool) → Refines (convert_container b f) (convert_container b g)
  convert_container-Refines b none c e = absurd (cc)
  convert_container-Refines b (some (mapping items)) c e =
      bind-Refines (convert_mapping f items) (convert_mapping g items) (λ js. ok (object js))
        (λ js. ok (object js)) c (convert_mapping-Refines items) (λ js x q. q) e
  convert_container-Refines b (some (sequence vs)) c e =
      bind-Refines (convert_items f vs) (convert_items g vs) (λ js. ok (array js))
        (λ js. ok (array js)) c (convert_items-Refines vs) (λ js x q. q) e
  convert_container-Refines true (some (dataclass fields)) c e =
      bind-Refines (convert_fields f fields) (convert_fields g fields) (λ js. ok (object js))
        (λ js. ok (object js)) c (convert_fields-Refines fields) (λ js x q. q) e
  convert_container-Refines false (some (dataclass fields)) c e = absurd (cc)

plain_more : (b : Bool) (store : Store) (n : ℕ) → Refines (plain b store n) (plain b store (suc n))
unfolding plain
plain_more b store zero v j e = absurd (cc)
plain_more b store (suc n) null_value j e = e
plain_more b store (suc n) (string_value s) j e = e
plain_more b store (suc n) (bool_value c) j e = e
plain_more b store (suc n) (int_value k) j e = e
plain_more b store (suc n) (float_value x) j e = e
plain_more b store (suc n) (object_value i) j e =
    convert_container-Refines (plain b store n) (plain b store (suc n)) (plain_more b store n) b
      (container_at store i) j e

enter_ok :
    (c : Bool) (o : Option Container) (r : Result Error Json) (j : Json)
    → enter c o r ≡ ok j
    → r ≡ ok j
enter_ok true none r j e = absurd (cc)
enter_ok false none r j e = absurd (cc)
enter_ok true (some d) r j e = absurd (cc)
enter_ok false (some d) r j e = e

convert-plain :
    (b : Bool) (store : Store) (fuel : ℕ) (active : List ℕ)
    → Refines (convert b store fuel active) (plain b store fuel)
unfolding convert plain
convert-plain b store zero active v j e = absurd (cc)
convert-plain b store (suc n) active null_value j e = e
convert-plain b store (suc n) active (string_value s) j e = e
convert-plain b store (suc n) active (bool_value c) j e = e
convert-plain b store (suc n) active (int_value k) j e = e
convert-plain b store (suc n) active (float_value x) j e = e
convert-plain b store (suc n) active (object_value i) j e =
    let inside = convert b store n (i ∷ active) in
    convert_container-Refines inside (plain b store n) (convert-plain b store n (i ∷ active)) b
      (container_at store i) j
      (enter_ok (is_member i active) (container_at store i)
        (convert_container b inside (container_at store i)) j e)

-- No active identity is one of an object that the plain recursion can convert.
abbrev Blocked : Bool → Store → ℕ → List ℕ → Type 0
Blocked b store n active =
    (a : ℕ) → a ∈ active → (j : Json) → plain b store n (object_value a) ≢ ok j

Blocked-less :
    (b : Bool) (store : Store) (n : ℕ) (active : List ℕ)
    → Blocked b store (suc n) active
    → Blocked b store n active
Blocked-less b store n active h a m j e = h a m j (plain_more b store n (object_value a) j e)

Blocked-cons :
    (b : Bool) (store : Store) (n i : ℕ) (active : List ℕ) (x : Error)
    → Blocked b store n active
    → plain b store n (object_value i) ≡ err x
    → Blocked b store n (i ∷ active)
Blocked-cons b store n i active x h failed a (inl same) j e =
    absurd (not_ok (sym failed ∙ subst (λ k. plain b store n (object_value k) ≡ ok j) same e))
  where
    not_ok : err x ≡ ok j → ⊥
    not_ok q = cc
Blocked-cons b store n i active x h failed a (inr later) j e = h a later j e

enter_new :
    (o : Option Container) (r : Result Error Json) (c : Container)
    → o ≡ some c
    → enter false o r ≡ r
enter_new none r c h = absurd (cc)
enter_new (some d) r c h = refl

container_known :
    (b : Bool) (f : Value → Result Error Json) (o : Option Container) (j : Json)
    → convert_container b f o ≡ ok j
    → (c : Container) × (o ≡ some c)
container_known b f none j h = absurd (cc)
container_known b f (some c) j h = (c, refl)

plain-convert :
    (b : Bool) (store : Store) (n fuel : ℕ) (active : List ℕ) (v : Value) (j : Json)
    → free (length store) active < fuel
    → Blocked b store n active
    → plain b store n v ≡ ok j
    → convert b store fuel active v ≡ ok j
unfolding convert plain
plain-convert b store zero fuel active v j h blocked e = absurd (cc)
plain-convert b store (suc n) zero active v j h blocked e = absurd (omega arith)
plain-convert b store (suc n) (suc fuel) active null_value j h blocked e = e
plain-convert b store (suc n) (suc fuel) active (string_value s) j h blocked e = e
plain-convert b store (suc n) (suc fuel) active (bool_value c) j h blocked e = e
plain-convert b store (suc n) (suc fuel) active (int_value k) j h blocked e = e
plain-convert b store (suc n) (suc fuel) active (float_value x) j h blocked e = e
plain-convert b store (suc n) (suc fuel) active (object_value i) j h blocked e =
    let less = Blocked-less b store n active blocked in
    elim (Result-cases (plain b store n (object_value i))) [
      | inl (k, sooner) ↦
          plain-convert b store n (suc fuel) active (object_value i) k h less sooner
          ∙ ap ok (
              ok_same (plain b store (suc n) (object_value i)) j k
                (plain_more b store n (object_value i) k sooner) e)
      | inr (x, failed) ↦ elim (Bool-cases (is_member i active)) [
        | inl old ↦ absurd (blocked i ((is_member_iff i active).0 old) j e)
        | inr new ↦
            let (c, known) = container_known b (plain b store n) (container_at store i) j e in
            let inside = convert b store fuel (i ∷ active) in
            let fewer = free_cons (length store) i active (container_at-< store i c known) new in
            ap
              (λ (old : Bool).
                enter old (container_at store i)
                  (convert_container b inside (container_at store i)))
              new
            ∙ enter_new (container_at store i) (convert_container b inside (container_at store i)) c
                known
            ∙ convert_container-Refines (plain b store n) inside
                (λ w k.
                  plain-convert b store n fuel (i ∷ active) w k (omega arith)
                    (Blocked-cons b store n i active x less failed))
                b (container_at store i) j e
      ]
    ]

-- The conversion of a tool's result ends, and it returns a JSON value exactly where the plain
-- recursion over the object, without a check for cycles, comes to an end with that value: only what
-- refers to itself is rejected as a cycle, and what is referred to more than once is not.
pub cycles_rejected :
    (store : Store) (v : Value) (j : Json)
    → ((to_json_value store v ≡ ok j) ↔ ((n : ℕ) × (plain true store n v ≡ ok j)))
      × (to_json_value store v ≢ err out_of_fuel)
unfolding to_json_value
cycles_rejected store v j = (
  (
    λ h. (suc (length store), convert-plain true store (suc (length store)) [] v j h),
    λ (n, h).
        let enough = free_le (length store) [] in
        plain-convert true store n (suc (length store)) [] v j (omega arith) (λ a m k e. absurd m)
          h,
  ),
  (conversion_ends store v).0,
)
