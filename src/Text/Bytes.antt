-- ===== src/Text/Bytes.antt =====
-- `str(b)` of a bytes object in Python 3. A text of characters below 256 stands for the bytes.
use Prim.Native.String.{[], ◌∷◌}
use nagios_plugins.Base.{
  ℕ, ◌/◌, ◌%◌, Char, code, String, false, not, ◌&&◌, ◌||◌, [], ◌∷◌, ◌==◌, ltb, leb, if◌then◌else◌,
  ◌≡◌, Bool-cases, inl, inr, refl,
}
use nagios_plugins.Text.{◌&◌, contains, is_empty}
use nagios_plugins.Text.Decimal.{digit}
use nagios_plugins.Text.Words.{is_empty-front}

abbrev hex_digit : ℕ → String
hex_digit n =
    if ltb n 10
    then digit n
    else if n == 10
    then "a"
    else if n == 11
    then "b"
    else if n == 12
    then "c"
    else if n == 13
    then "d"
    else if n == 14
    then "e"
    else "f"

-- how a byte is written between quotes of the code `quote`
unfoldable pub escaped : (quote : ℕ) → Char → String
escaped quote c =
    let n = code c in
    if n == 92 || n == quote
    then "\\" & (c ∷ [])
    else if n == 9
    then "\\t"
    else if n == 10
    then "\\n"
    else if n == 13
    then "\\r"
    else if ltb n 32 || leb 127 n
    then "\\x" & hex_digit (n / 16) & hex_digit (n % 16)
    else c ∷ []

unfoldable pub escaped_all : (quote : ℕ) → String → String
escaped_all quote [] = ""
escaped_all quote (c ∷ s) = escaped quote c & escaped_all quote s

-- Double quotes stand around bytes that have a single quote and no double one.
unfoldable pub str_bytes : String → String
unfolding contains
str_bytes s =
    if contains "'" s && not (contains "\"" s)
    then "b\"" & escaped_all 34 s & "\""
    else "b'" & escaped_all 39 s & "'"

pub is_empty-str_bytes : (s : String) → is_empty (str_bytes s) ≡ false
unfolding str_bytes
is_empty-str_bytes s = elim (Bool-cases (contains "'" s && not (contains "\"" s))) [
  | inl single ↦ rw single (is_empty-front "b\"" (escaped_all 34 s & "\"") refl)
  | inr other ↦ rw other (is_empty-front "b'" (escaped_all 39 s & "'") refl)
]
