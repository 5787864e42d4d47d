-- ===== src/Base/Float/Order.antt =====
-- An int below a float is below every greater one.
use Prim.Native.Nat.{ℕ, suc, ◌+◌, ◌*◌, ◌<◌}
use mathlib.Core.Path.{◌≡◌, refl}
use mathlib.Core.Bool.{Bool, true, false}
use native.Mathlib.Omega.{arith}
use native.Mathlib.Nat.{mul-le-mul_right, lt_of_mul-lt-mul_right}
use nagios_plugins.Base.Int.{ℤ, pos, negsuc, pos_part, neg_part, ltb_ℤ}
use nagios_plugins.Base.Tests.{ltb→lt}
use nagios_plugins.Base.Float.{Float, nan, inf, neg_inf, ratio, scale, int_lt, float_le}

cancelled :
    (a b p n q m d e : ℕ)
    → a * suc d + n < p + b * suc d
    → p * suc e + m * suc d < q * suc d + n * suc e
    → a * suc e + m < q + b * suc e
cancelled a b p n q m d e h k =
    let wide = mul-le-mul_right (suc e) h in lt_of_mul-lt-mul_right (suc d) (omega (arith, wide, k))

scale-parts :
    (z : ℤ) (d : ℕ)
    → (pos_part (scale z d) ≡ pos_part z * suc d) × (neg_part (scale z d) ≡ neg_part z * suc d)
unfolding scale
scale-parts (pos n) d = omega arith
scale-parts (negsuc n) d = omega arith

abbrev pub is_nan : Float → Bool
is_nan nan = true
is_nan _ = false

ltb_ℤ-lt : (a b : ℤ) → ltb_ℤ a b ≡ true → pos_part a + neg_part b < pos_part b + neg_part a
ltb_ℤ-lt a b h = ltb→lt _ _ h

lt-ltb_ℤ : (a b : ℤ) → pos_part a + neg_part b < pos_part b + neg_part a → ltb_ℤ a b ≡ true
lt-ltb_ℤ a b h = ground arith

ratio_lt :
    (z n : ℤ) (d : ℕ) (m : ℤ) (e : ℕ)
    → int_lt z (ratio n d) ≡ true
    → float_le (ratio m e) (ratio n d) ≡ false
    → int_lt z (ratio m e) ≡ true
unfolding int_lt float_le
ratio_lt z n d m e h k =
    let above : ltb_ℤ (scale n e) (scale m d) ≡ true = ground (arith, k) in
    let low = ltb_ℤ-lt (scale z d) n h in
    let high = ltb_ℤ-lt (scale n e) (scale m d) above in
    let (zd, zd') = scale-parts z d in
    let (ze, ze') = scale-parts z e in
    let (ne, ne') = scale-parts n e in
    let (md, md') = scale-parts m d in
    let crossed =
      cancelled (pos_part z) (neg_part z) (pos_part n) (neg_part n) (pos_part m) (neg_part m) d e
        (omega (arith, low, zd, zd')) (omega (arith, high, ne, ne', md, md')) in
    lt-ltb_ℤ (scale z e) m (omega (arith, crossed, ze, ze'))

-- An int below a float `x` is below every number `y` that is not at most `x`.
pub int_lt_trans :
    (z : ℤ) (x y : Float)
    → int_lt z x ≡ true
    → float_le y x ≡ false
    → is_nan y ≡ false
    → int_lt z y ≡ true
int_lt_trans z x nan h k number = absurd (cc)
int_lt_trans z x inf h k number = unfold int_lt in refl
int_lt_trans z nan neg_inf h k number = unfold int_lt in absurd (cc)
int_lt_trans z inf neg_inf h k number = unfold float_le in absurd (cc)
int_lt_trans z neg_inf neg_inf h k number = unfold float_le in absurd (cc)
int_lt_trans z (ratio n d) neg_inf h k number = unfold float_le in absurd (cc)
int_lt_trans z nan (ratio m e) h k number = unfold int_lt in absurd (cc)
int_lt_trans z inf (ratio m e) h k number = unfold float_le in absurd (cc)
int_lt_trans z neg_inf (ratio m e) h k number = unfold int_lt in absurd (cc)
int_lt_trans z (ratio n d) (ratio m e) h k number = ratio_lt z n d m e h k
