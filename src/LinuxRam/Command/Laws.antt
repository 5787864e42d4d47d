-- ===== src/LinuxRam/Command/Laws.antt =====
-- The status that check_linux_ram.py gives, from the thresholds that it accepts.
use nagios_plugins.Base.{
  ℕ, ◌+◌, ◌≤◌, String, Bool, true, false, Option, some, List, ◌≡◌, ◌↔◌, refl, sym, ap, subst, ◌∙◌,
  arith, if◌then◌else◌, Bool-cases, inl, inr,
}
use nagios_plugins.Base.Int.{ℤ, pos, ◌+ℤ◌}
use nagios_plugins.Base.Float.{Float, float_le, int_lt}
use nagios_plugins.Base.Float.Order.{is_nan, int_lt_trans}
use nagios_plugins.Text.{◌&◌}
use nagios_plugins.Nagios.{◌>>=◌, Outcome, returned, exited, IsOrdered, at_least-returned}
use nagios_plugins.LinuxRam.Memory.{
  World, read_lines, unset, verdict, free_of, judge, check_ram, stats_of, percentage_free,
}
use nagios_plugins.LinuxRam.Command.{check_thresholds}
use nagios_plugins.LinuxRam.Percentage.{IsRounding, IsPercentage, percentage_free-IsPercentage}

-- what is free: without the cache if the user leaves it out
abbrev pub available : (nocache : Bool) → (memfree memcached : ℕ) → ℕ
available nocache memfree memcached = if nocache then memfree else memfree + memcached

-- what the thresholds are compared with
abbrev pub IsMeasured : (percent : Bool) → (part total : ℕ) → (free : ℤ) → Type 0
IsMeasured false part total free = free ≡ pos part
IsMeasured true part total free = (p : ℕ) × (free ≡ pos p) × IsPercentage part total p

free_of-available :
    (nocache : Bool) (memfree memcached : ℕ)
    → free_of nocache (pos memfree) (pos memcached) ≡ pos (available nocache memfree memcached)
unfolding ◌+ℤ◌
free_of-available true memfree memcached = refl
free_of-available false memfree memcached = ground arith

measure_lem :
    (percent : Bool) (part total p : ℕ)
    → IsPercentage part total p
    → IsMeasured percent part total (if percent then pos p else pos part)
measure_lem true part total p h = (p, refl, h)
measure_lem false part total p h = refl

check_thresholds-lt :
    (warning critical : Float) (p q : Bool) (percent : Bool)
    → check_thresholds (warning, p) (critical, q) ≡ returned percent
    → float_le warning critical ≡ false
unfolding check_thresholds
check_thresholds-lt warning critical true true percent h = ground (arith, h)
check_thresholds-lt warning critical false false percent h = ground (arith, h)
check_thresholds-lt warning critical true false percent h = absurd (cc)
check_thresholds-lt warning critical false true percent h = absurd (cc)

-- the three statuses by where the number stands between the thresholds
abbrev pub Grades : (free : ℤ) → (warning critical : Float) → Outcome (Unit {0}) → Type 0
Grades free warning critical m =
    (n : ℕ) × (message : String) × (m ≡ exited n message)
    × (n ≤ 2)
    × ((n ≡ 2) ↔ (int_lt free critical ≡ true))
    × ((n ≡ 0) ↔ (int_lt free warning ≡ false))

verdict-Grades :
    (free : ℤ) (warning critical : Float) (stats : String)
    → float_le warning critical ≡ false
    → is_nan warning ≡ false
    → Grades free warning critical (verdict free warning critical stats)
unfolding verdict
verdict-Grades free warning critical stats apart number = elim (Bool-cases (int_lt free critical)) [
  | inl low ↦
      let lower = int_lt_trans free critical warning low apart number in
      (
        2,
        "RAM CRITICAL: " & stats,
        rw low refl,
        omega arith,
        (λ e. low, λ e. refl),
        (λ e. absurd (omega (arith, e)), λ e. cc),
      )
  | inr enough ↦ elim (Bool-cases (int_lt free warning)) [
    | inl low ↦ (
      1,
      "RAM WARNING: " & stats,
      rw (enough, low) refl,
      omega arith,
      (λ e. absurd (omega (arith, e)), λ e. cc),
      (λ e. absurd (omega (arith, e)), λ e. cc),
    )
    | inr ample ↦ (
      0,
      "RAM OK: " & stats,
      rw (enough, ample) refl,
      omega arith,
      (λ e. absurd (omega (arith, e)), λ e. cc),
      (λ e. ample, λ e. refl),
    )
  ]
]

module _ (w : World) (warning critical : Float) (percent nocache : Bool) where
  check_ram-judge :
      (verbosity : Option ℕ) (lines : List String) (memtotal memfree memcached : ℤ)
      → IsOrdered w.orders_none verbosity
      → w.meminfo ≡ inr lines
      → read_lines lines unset
        ≡ returned (record {
          memtotal = some memtotal;
          memfree = some memfree;
          memcached = some memcached;
        })
      → check_ram w warning critical percent verbosity nocache
        ≡ judge w warning critical percent nocache memtotal memfree memcached
  unfolding check_ram judge percentage_free stats_of
  check_ram-judge verbosity lines memtotal memfree memcached ordered opened read =
      rw (at_least-returned w.orders_none verbosity 3 ordered, opened, read) refl

  -- behind the computation of the percentage
  abbrev graded : (memtotal total_free percentage : ℤ) → Outcome (Unit {0})
  graded memtotal total_free percentage =
      verdict (if percent then percentage else total_free) warning critical
        (stats_of w percent warning critical memtotal total_free percentage)

  judge-graded :
      (memtotal memfree memcached share : ℕ)
      → percentage_free w (pos (available nocache memfree memcached)) (pos memtotal)
        ≡ returned (pos share)
      → judge w warning critical percent nocache (pos memtotal) (pos memfree) (pos memcached)
        ≡ graded (pos memtotal) (pos (available nocache memfree memcached)) (pos share)
  unfolding judge
  judge-graded memtotal memfree memcached share computed =
      let part = pos (available nocache memfree memcached) in
      ap (λ f. percentage_free w f (pos memtotal) >>= graded (pos memtotal) f)
        (free_of-available nocache memfree memcached)
      ∙ ap (λ r. r >>= graded (pos memtotal) part) computed

-- Where the thresholds are accepted and the warning threshold is a number, /proc/meminfo can be
-- read and gives the three amounts, and what is free is at most the total, which is neither zero
-- nor above 2 ^ 53, the check exits: CRITICAL (2) exactly if the measure of what is free is below
-- the critical threshold, OK (0) exactly if it is not below the warning threshold, and WARNING (1)
-- otherwise. What is free includes the cache unless the user leaves it out; its measure is the
-- amount, or, if the thresholds are percentages, a whole number p for which the exact percentage
-- of the total is at least p - 0.101 and at most p + 1.101.
pub check_ram_lem :
    (w : World) (warning critical : Float) (p q percent : Bool) (verbosity : Option ℕ)
    (nocache : Bool) (lines : List String) (memtotal memfree memcached : ℕ)
    → IsRounding w.rounded
    → check_thresholds (warning, p) (critical, q) ≡ returned percent
    → is_nan warning ≡ false
    → IsOrdered w.orders_none verbosity
    → w.meminfo ≡ inr lines
    → read_lines lines unset
      ≡ returned (record {
        memtotal = some (pos memtotal);
        memfree = some (pos memfree);
        memcached = some (pos memcached);
      })
    → 1 ≤ memtotal
    → memtotal ≤ 9007199254740992
    → available nocache memfree memcached ≤ memtotal
    → (free : ℤ) × IsMeasured percent (available nocache memfree memcached) memtotal free
      × Grades free warning critical (check_ram w warning critical percent verbosity nocache)
check_ram_lem w warning critical p q percent verbosity nocache lines memtotal memfree memcached
      rounds accepted number ordered opened read some_memory small below =
    let part = available nocache memfree memcached in
    let apart = check_thresholds-lt warning critical p q percent accepted in
    let (share, computed, near) =
      percentage_free-IsPercentage w part memtotal rounds some_memory small below in
    let free = if percent then pos share else pos part in
    (
      free,
      measure_lem percent part memtotal share near,
      subst (Grades free warning critical)
          (sym (
            check_ram-judge w warning critical percent nocache verbosity lines (pos memtotal)
              (pos memfree) (pos memcached) ordered opened read
            ∙ judge-graded w warning critical percent nocache memtotal memfree memcached share
                computed))
          (verdict-Grades free warning critical _ apart number),
    )
