-- ===== src/Base/Results.antt =====
-- A computation that returns or raises: the result type and its chaining.
use mathlib.Core.Path.{◌≡◌, refl, sym, ap, ◌∙◌, subst}
use mathlib.Core.Logic.{◌⊎◌, inl, inr}
use mathlib.Core.Bool.{Bool, true, false}

pub data Result {ℓ κ} (E : Type ℓ) (A : Type κ) : Type (ℓ ⊔ κ) where
  ok : A → Result E A
  err : E → Result E A

-- What a Python function returns that returns `None`.
abbrev pub ⊤ : Type 0
⊤ = Unit

infixl 5 ◌>>=◌ ◌>>◌
abbrev pub ◌>>=◌ {ℓ κ μ} :
    {E : Type ℓ} {A : Type κ} {B : Type μ} → Result E A → (A → Result E B) → Result E B
ok a >>= f = f a
err e >>= f = err e

abbrev pub ◌>>◌ {ℓ μ} : {E : Type ℓ} {B : Type μ} → Result E ⊤ → Result E B → Result E B
m >> k = m >>= λ _. k

-- `if b: raise e`
abbrev pub raise_if {ℓ} : {E : Type ℓ} → Bool → E → Result E ⊤
raise_if true e = err e
raise_if false e = ok tt

-- What came before a result.
pub record Before {ℓ κ μ} {E : Type ℓ} {A : Type κ} {B : Type μ} (m : Result E A)
    (f : A → Result E B) (b : B) : Type (ℓ ⊔ κ ⊔ μ) where
  pub value : A
  pub first : m ≡ ok value
  pub then : f value ≡ ok b

pub bind_ok {ℓ κ μ} :
    {E : Type ℓ} {A : Type κ} {B : Type μ} (m : Result E A) (f : A → Result E B) (b : B)
    → (m >>= f) ≡ ok b
    → Before m f b
bind_ok (ok a) f b h = record { value = a; first = refl; then = h }
bind_ok (err e) f b h = absurd (cc)

pub raise_if-ok {ℓ} : {E : Type ℓ} (b : Bool) (e : E) → raise_if b e ≡ ok tt → b ≡ false
raise_if-ok true e h = absurd (cc)
raise_if-ok false e h = refl

abbrev value_or {ℓ κ} : {E : Type ℓ} {A : Type κ} → A → Result E A → A
value_or a (ok b) = b
value_or a (err e) = a

-- Two values of one result.
pub ok_same {ℓ κ} :
    {E : Type ℓ} {A : Type κ} (r : Result E A) (a b : A) → r ≡ ok b → r ≡ ok a → b ≡ a
ok_same (ok c) a b h k = ap (value_or b) (sym h ∙ k)
ok_same (err e) a b h k = absurd (cc)

-- What holds of the value that is returned holds of the value that it is.
pub ok_with {ℓ κ μ} :
    {E : Type ℓ} {A : Type κ} (P : A → Type μ) (a b : A) (r : Result E A)
    → r ≡ ok a
    → r ≡ ok b
    → P a
    → P b
ok_with P a b r h k p = subst P (ok_same r b a h k) p

pub Result-cases {ℓ κ} :
    {E : Type ℓ} {A : Type κ} (r : Result E A) → ((a : A) × (r ≡ ok a)) ⊎ ((e : E) × (r ≡ err e))
Result-cases (ok a) = inl (a, refl)
Result-cases (err e) = inr (e, refl)

abbrev error_or {ℓ κ} : {E : Type ℓ} {A : Type κ} → E → Result E A → E
error_or d (ok a) = d
error_or d (err e) = e

-- Two errors of one result.
pub err_same {ℓ κ} :
    {E : Type ℓ} {A : Type κ} (r : Result E A) (x e : E) → r ≡ err x → r ≡ err e → x ≡ e
err_same (ok a) x e h k = absurd (cc)
err_same (err y) x e h k = ap (error_or x) (sym h ∙ k)
