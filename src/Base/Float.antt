-- ===== src/Base/Float.antt =====
-- Python's floats, as the quotients that they are near to.
pub mod Order
use Prim.Native.Nat.{ℕ, zero, suc, ◌+◌, ◌-◌, ◌*◌, ◌/◌}
use mathlib.Core.Bool.{Bool, true, false, not}
use nagios_plugins.Base.Int.{ℤ, pos, negsuc, ◌-ℤ◌, ◌*ℤ◌, ltb_ℤ}

-- `ratio n d` is n / (d + 1).
pub data Float : Type 0 where
  nan inf neg_inf : Float
  ratio : ℤ → ℕ → Float

-- n * (d + 1)
unfoldable pub scale : ℤ → ℕ → ℤ
scale (pos n) d = pos (n * (d + 1))
scale (negsuc n) d = negsuc (n * (d + 1) + d)

-- `z < x`, for an int
unfoldable pub int_lt : ℤ → Float → Bool
int_lt z nan = false
int_lt z inf = true
int_lt z neg_inf = false
int_lt z (ratio n d) = ltb_ℤ (scale z d) n

-- `x <= y`
unfoldable pub float_le : Float → Float → Bool
float_le nan y = false
float_le x nan = false
float_le neg_inf y = true
float_le x inf = true
float_le inf y = false
float_le x neg_inf = false
float_le (ratio n d) (ratio m e) = not (ltb_ℤ (scale m d) (scale n e))

-- `x * k`, for an int above zero
abbrev pub times : Float → ℕ → Float
times (ratio n d) zero = ratio (pos 0) 0
times (ratio n d) (suc k) = ratio (scale n k) d
times x _ = x

-- `x - y`
abbrev pub minus : Float → Float → Float
minus (ratio n d) (ratio m e) = ratio (scale n e -ℤ scale m d) ((d + 1) * (e + 1) - 1)
minus nan y = nan
minus x nan = nan
minus (ratio n d) inf = neg_inf
minus (ratio n d) neg_inf = inf
minus inf inf = nan
minus neg_inf neg_inf = nan
minus inf _ = inf
minus neg_inf _ = neg_inf

-- z * x, for an int above zero and an `x` that is finite or no number
abbrev pub product : ℤ → Float → Float
product z (ratio n d) = ratio (z *ℤ n) d
product z x = x

-- `x / k`, for a `k` of `j + 1`
abbrev pub over : Float → ℕ → Float
over (ratio n d) j = ratio n ((d + 1) * (j + 1) - 1)
over x j = x

-- `int(z / k)`, which cuts towards zero
unfoldable pub cut : ℤ → ℕ → ℤ
cut (pos n) k = pos (n / k)
cut (negsuc n) k = pos 0 -ℤ pos ((n + 1) / k)
