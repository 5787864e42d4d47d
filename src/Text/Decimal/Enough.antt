-- ===== src/Text/Decimal/Enough.antt =====
-- The fuel of `show` is enough: the digits that it prints read as the number.
use Prim.Native.String.{[], ◌∷◌}
use Prim.Native.String.append.{nil, cons}
use nagios_plugins.Base.{
  ℕ, zero, suc, ◌+◌, ◌-◌, ◌*◌, ◌/◌, ◌%◌, ◌<◌, Char, code, String, true, some, ◌≡◌, refl, ap, ◌∙◌,
  arith, ltb, Bool-cases, inl, inr,
}
use nagios_plugins.Text.{◌&◌}
use nagios_plugins.Text.Decimal.{is_digit, digit, show, show_from, read_digits}

read_digits-char :
    (acc : ℕ) (c : Char) (out : String)
    → is_digit (code c) ≡ true
    → read_digits acc ((c ∷ []) & out) ≡ read_digits (acc * 10 + (code c - b'0')) out
unfolding read_digits
read_digits-char acc c out h =
    ap (read_digits acc) (cons c [] out)
    ∙ (rw h (ap (read_digits (acc * 10 + (code c - b'0'))) (nil out)))

read_digits-digit :
    (acc n : ℕ) (out : String)
    → n < 10
    → read_digits acc (digit n & out) ≡ read_digits (acc * 10 + n) out
unfolding is_digit
read_digits-digit acc zero out h = read_digits-char acc "0" out refl
read_digits-digit acc (suc zero) out h = read_digits-char acc "1" out refl
read_digits-digit acc (suc (suc zero)) out h = read_digits-char acc "2" out refl
read_digits-digit acc (suc (suc (suc zero))) out h = read_digits-char acc "3" out refl
read_digits-digit acc (suc (suc (suc (suc zero)))) out h = read_digits-char acc "4" out refl
read_digits-digit acc (suc (suc (suc (suc (suc zero))))) out h = read_digits-char acc "5" out refl
read_digits-digit acc (suc (suc (suc (suc (suc (suc zero)))))) out h =
    read_digits-char acc "6" out refl
read_digits-digit acc (suc (suc (suc (suc (suc (suc (suc zero))))))) out h =
    read_digits-char acc "7" out refl
read_digits-digit acc (suc (suc (suc (suc (suc (suc (suc (suc zero)))))))) out h =
    read_digits-char acc "8" out refl
read_digits-digit acc (suc (suc (suc (suc (suc (suc (suc (suc (suc zero))))))))) out h =
    read_digits-char acc "9" out refl
read_digits-digit acc (suc (suc (suc (suc (suc (suc (suc (suc (suc (suc n)))))))))) out h =
    absurd (omega (arith, h))

-- With more fuel than the number, the digits in front of a text read as the number.
show_from-read :
    (f n : ℕ) (out : String) → n < f → read_digits 0 (show_from f n out) ≡ read_digits n out
unfolding show_from
show_from-read zero n out h = absurd (omega (arith, h))
show_from-read (suc f) n out h = elim (Bool-cases (ltb n 10)) [
  | inl small ↦
      let itself : 0 * 10 + n ≡ n = omega arith in
      rw small (read_digits-digit 0 n out (ground arith) ∙ ap (λ k. read_digits k out) itself)
  | inr large ↦
      let shorter : n / 10 < f = ground arith in
      let more = show_from-read f (n / 10) (digit (n % 10) & out) shorter in
      let last = read_digits-digit (n / 10) (n % 10) out (omega arith) in
      let whole : n / 10 * 10 + n % 10 ≡ n = omega arith in
      rw large (more ∙ last ∙ ap (λ k. read_digits k out) whole)
]

-- The digits of a number read as that number: `show` prints all of them.
show-read_digits : (n : ℕ) → read_digits 0 (show n) ≡ some n
unfolding show read_digits
show-read_digits n = show_from-read (n + 1) n "" (omega arith)
