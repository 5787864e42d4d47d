-- ===== src/Text/Decimal.antt =====
-- `str(n)` and `int(s)` for decimal numbers. The underscores that Python 3.6 admits between digits
-- are left out.
pub mod Enough
pub mod Plain
use Prim.Native.String.{[], ◌∷◌}
use nagios_plugins.Base.{
  ℕ, zero, suc, ◌+◌, ◌-◌, ◌*◌, ◌/◌, ◌%◌, code, String, Bool, ◌&&◌, Option, none, some, [], ◌∷◌, ◌≡◌,
  refl, leb, ltb, ◌==◌, if◌then◌else◌,
}
use nagios_plugins.Base.Int.{ℤ, pos, negsuc}
use nagios_plugins.Text.{◌&◌, strip}

unfoldable pub is_digit : ℕ → Bool
is_digit c = leb b'0' c && leb c b'9'

abbrev pub digit : ℕ → String
digit n =
    if n == 0
    then "0"
    else if n == 1
    then "1"
    else if n == 2
    then "2"
    else if n == 3
    then "3"
    else if n == 4
    then "4"
    else if n == 5
    then "5"
    else if n == 6
    then "6"
    else if n == 7
    then "7"
    else if n == 8
    then "8"
    else "9"

-- The number of digits is at most the number plus one, which is the fuel.
show_from : ℕ → ℕ → String → String
show_from zero n out = out
show_from (suc f) n out =
    let more = show_from f (n / 10) (digit (n % 10) & out) in
    if ltb n 10 then digit n & out else more

-- `str(n)`
unfoldable pub show : ℕ → String
unfolding show_from
show n = show_from (n + 1) n ""

-- `str(z)`
unfoldable pub show_ℤ : ℤ → String
unfolding show
show_ℤ (pos n) = show n
show_ℤ (negsuc n) = "-" & show (n + 1)

read_digits : ℕ → String → Option ℕ
unfolding is_digit
read_digits acc [] = some acc
read_digits acc (c ∷ s) =
    let rest = read_digits (acc * 10 + (code c - b'0')) s in
    if is_digit (code c) then rest else none

-- digits, at least one
unfoldable pub read_nat : String → Option ℕ
unfolding read_digits
read_nat [] = none
read_nat (c ∷ s) = read_digits 0 (c ∷ s)

abbrev pub negated : Option ℕ → Option ℤ
negated none = none
negated (some zero) = some (pos 0)
negated (some (suc n)) = some (negsuc n)

abbrev pub positive : Option ℕ → Option ℤ
positive none = none
positive (some n) = some (pos n)

signed : String → Option ℤ
unfolding read_nat
signed [] = none
signed (c ∷ s) =
    if code c == b'-'
    then negated (read_nat s)
    else if code c == b'+'
    then positive (read_nat s)
    else positive (read_nat (c ∷ s))

-- `int(s)`; `none` is the ValueError
unfoldable pub parse_int : String → Option ℤ
unfolding signed strip
parse_int s = signed (strip s)

show_1234567 : show 1234567 ≡ "1234567"
unfolding show
show_1234567 = refl

parse_int_padded : parse_int " -42\n" ≡ some (negsuc 41)
unfolding parse_int
parse_int_padded = refl

parse_int_word : parse_int "4x" ≡ none
unfolding parse_int
parse_int_word = refl
