-- ===== src/Text/Decimal/Plain.antt =====
-- What is printed of a number has digits only.
use nagios_plugins.Base.{
  ℕ, zero, suc, ◌+◌, ◌/◌, ◌%◌, String, Bool, true, false, ◌==◌, if◌then◌else◌, refl, arith, ltb,
  Bool-cases, inl, inr,
}
use nagios_plugins.Text.{◌&◌, is_space}
use nagios_plugins.Text.Decimal.{digit, show, show_from}
use nagios_plugins.Text.Occurrences.{Lacks, occurrences-append}

either-Lacks :
    (b : Bool) (s t : String)
    → Lacks is_space s
    → Lacks is_space t
    → Lacks is_space (if b then s else t)
either-Lacks true s t h k = h
either-Lacks false s t h k = k

digit-Lacks : (n : ℕ) → Lacks is_space (digit n)
unfolding is_space
digit-Lacks n = either-Lacks (n == 0) "0" _ refl (
    either-Lacks (n == 1) "1" _ refl (
      either-Lacks (n == 2) "2" _ refl (
        either-Lacks (n == 3) "3" _ refl (
          either-Lacks (n == 4) "4" _ refl (
            either-Lacks (n == 5) "5" _ refl (
              either-Lacks (n == 6) "6" _ refl
                (either-Lacks (n == 7) "7" _ refl (either-Lacks (n == 8) "8" "9" refl refl))))))))

digit_front-Lacks : (n : ℕ) (out : String) → Lacks is_space out → Lacks is_space (digit n & out)
digit_front-Lacks n out h =
    omega (arith, occurrences-append is_space (digit n) out, digit-Lacks n, h)

show_from-Lacks : (f n : ℕ) (out : String) → Lacks is_space out → Lacks is_space (show_from f n out)
unfolding show_from
show_from-Lacks zero n out h = h
show_from-Lacks (suc f) n out h = elim (Bool-cases (ltb n 10)) [
  | inl small ↦ rw small (digit_front-Lacks n out h)
  | inr large ↦
      rw large
        (show_from-Lacks f (n / 10) (digit (n % 10) & out) (digit_front-Lacks (n % 10) out h))
]

pub show-Lacks : (n : ℕ) → Lacks is_space (show n)
unfolding show
show-Lacks n = show_from-Lacks (n + 1) n "" refl
