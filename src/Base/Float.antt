-- ===== src/Base/Float.antt =====
-- Python's numbers where the program checks their range: an int or a finite float is n / 2 ^ k.
use Prim.Native.Nat.{ℕ, zero, suc, ◌-◌, ◌*◌, ◌^◌}
use mathlib.Core.Bool.{Bool, true, false}
use purrcept_core.Base.Int.{ℤ, pos, negsuc, ltb_ℤ}

-- `infinite true` is the negative infinity.
pub data Float : Type 0 where
  finite : ℤ → ℕ → Float
  infinite : Bool → Float
  nan : Float

-- `math.isfinite`
abbrev pub is_finite : Float → Bool
is_finite (finite n k) = true
is_finite _ = false

-- `x < 0`
abbrev pub is_negative : Float → Bool
is_negative (finite (pos n) k) = false
is_negative (finite (negsuc n) k) = true
is_negative (infinite negative) = negative
is_negative nan = false

-- `n * 2 ^ k`
abbrev pub scale : ℤ → ℕ → ℤ
scale (pos n) k = pos (n * 2 ^ k)
scale (negsuc n) k = negsuc (suc n * 2 ^ k - 1)

-- `x > upper`
abbrev pub is_above : ℤ → Float → Bool
is_above upper (finite n k) = ltb_ℤ (scale upper k) n
is_above upper (infinite true) = false
is_above upper (infinite false) = true
is_above upper nan = false

-- `bool(x)`
abbrev pub is_nonzero : Float → Bool
is_nonzero (finite (pos zero) k) = false
is_nonzero _ = true
