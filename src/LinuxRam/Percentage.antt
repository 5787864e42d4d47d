-- ===== src/LinuxRam/Percentage.antt =====
-- How near the percentage of check_linux_ram.py is to the free part of the memory.
use nagios_plugins.Base.{ℕ, zero, suc, ◌+◌, ◌*◌, ◌-◌, ◌/◌, ◌≤◌, ◌≡◌, refl, ap, ap₂, ◌∙◌, arith}
use nagios_plugins.Base.Int.{ℤ, pos}
use nagios_plugins.Base.Float.{scale, cut}
use nagios_plugins.Nagios.{Outcome, returned, ◌>>=◌}
use nagios_plugins.LinuxRam.Memory.{World, divided, hundredfold, whole_part, percentage_free}
use native.Mathlib.Nat.{div-mul-le_self, lt-div-mul-add, mul-le-mul_right, le_of_mul-le-mul_right}

-- m / (e + 1) and n / (d + 1) differ by at most a thousandth.
abbrev pub IsNear : (n d m e : ℕ) → Type 0
IsNear n d m e =
    (1000 * (m * (d + 1)) ≤ 1000 * (n * (e + 1)) + (d + 1) * (e + 1))
    × (1000 * (n * (e + 1)) ≤ 1000 * (m * (d + 1)) + (d + 1) * (e + 1))

-- What the arithmetic of binary64 floats guarantees, by far: ints up to 2 ^ 53 are floats, and from
-- 0 to 101 the nearest float is within a thousandth.
pub record IsRounding (rounded : ℤ → ℕ → ℤ × ℕ) : Type 0 where
  pub whole : (n : ℕ) → n ≤ 9007199254740992 → rounded (pos n) 0 ≡ (pos n, 0)
  pub near :
      (n d : ℕ) → n ≤ 101 * (d + 1) → (m e : ℕ) × (rounded (pos n) d ≡ (pos m, e)) × IsNear n d m e

-- `p` is the percentage that `part` is of `total`, cut to a whole number, with an error of at most
-- 0.101 before the cut.
abbrev pub IsPercentage : (part total p : ℕ) → Type 0
IsPercentage part total p =
    (1000 * (p * total) ≤ 100000 * part + 101 * total)
    × (100000 * part ≤ 1000 * ((p + 1) * total) + 101 * total)

share_le : (f t m e : ℕ) → f ≤ suc t → IsNear f t m e → m * 100 ≤ 101 * (e + 1)
share_le f t m e below near =
    let wide = mul-le-mul_right (e + 1) below in
    let scaled : 1000 * m * suc t ≤ 1001 * (e + 1) * suc t = omega (arith, near.0, wide) in
    omega (arith, le_of_mul-le-mul_right scaled (omega arith))

module _ (f t m e k g : ℕ) (first : IsNear f t m e) (second : IsNear (m * 100) e k g) where
  percentage_upper : 1000 * (k / (g + 1) * suc t) ≤ 100000 * f + 101 * suc t
  percentage_upper =
      let p = k / (g + 1) in
      let cut_below = mul-le-mul_right (e + 1) (div-mul-le_self k ((g + 1))) in
      let without_g : 1000 * (p * suc e) ≤ 100000 * m + suc e =
        le_of_mul-le-mul_right {k = g + 1} (omega (arith, cut_below, second.0)) (omega arith) in
      let with_t = mul-le-mul_right (suc t) without_g in
      le_of_mul-le-mul_right {k = suc e} (omega (arith, with_t, first.0)) (omega arith)

  percentage_lower : 100000 * f ≤ 1000 * ((k / (g + 1) + 1) * suc t) + 101 * suc t
  percentage_lower =
      let p = k / (g + 1) in
      let cut_above = mul-le-mul_right (e + 1) (lt-div-mul-add {a = k} {b = g + 1} (omega arith)) in
      let without_g : 100000 * m ≤ 1000 * ((p + 1) * suc e) + suc e =
        le_of_mul-le-mul_right {k = g + 1} (omega (arith, cut_above, second.1)) (omega arith) in
      let with_t = mul-le-mul_right (suc t) without_g in
      le_of_mul-le-mul_right {k = suc e} (omega (arith, with_t, first.1)) (omega arith)

divided_whole : (part t : ℕ) → divided (pos part, 0) (pos (suc t), 0) ≡ returned (pos part, t)
unfolding divided scale
divided_whole part t =
    let over_one : part * 1 ≡ part = omega arith in
    let below : 1 * (t + 1) - 1 ≡ t = omega arith in rw (over_one, below) refl

-- behind the division
abbrev rest_of : World → ℤ × ℕ → Outcome ℤ
rest_of w (n, d) = returned (whole_part (hundredfold w (w.rounded n d)))

pub percentage_free-IsPercentage :
    (w : World) (part total : ℕ)
    → IsRounding w.rounded
    → 1 ≤ total
    → total ≤ 9007199254740992
    → part ≤ total
    → (p : ℕ) × (percentage_free w (pos part) (pos total) ≡ returned (pos p))
      × IsPercentage part total p
unfolding percentage_free scale cut
percentage_free-IsPercentage w part zero rounds some_memory small below =
    absurd (omega (arith, some_memory))
percentage_free-IsPercentage w part (suc t) rounds some_memory small below =
    let exact = rounds.whole (suc t) small in
    let exact_part = rounds.whole part (omega (arith, small, below)) in
    let (m, e, shared, first) = rounds.near part t (omega (arith, below)) in
    let (k, g, hundred, second) = rounds.near (m * 100) e (share_le part t m e below first) in
    (
      k / (g + 1),
      ap₂ (λ a b. divided a b >>= rest_of w) exact_part exact
          ∙ ap (λ q. q >>= rest_of w) (divided_whole part t)
          ∙ ap (λ q. returned (whole_part (hundredfold w q))) shared
          ∙ ap (λ q. returned (whole_part q)) hundred,
      (percentage_upper part t m e k g first second, percentage_lower part t m e k g first second),
    )
