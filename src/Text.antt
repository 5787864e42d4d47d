-- ===== src/Text.antt =====
-- Python's `str` methods that the plugins call, over the native `String`.
-- White space is that of the ASCII range, with 0x1c to 0x1f, as `str.split()` and `\s` have it.
pub mod Laws
pub mod Decimal
pub mod Sort
pub mod Occurrences
pub mod Distinct
pub mod Words
pub mod Bytes
use Prim.Native.String
use Prim.Native.String.{[], ◌∷◌}
use nagios_plugins.Base.{
  ℕ, zero, suc, ◌-◌, Char, code, String, Bool, true, false, not, ◌&&◌, ◌||◌, Option, none, some,
  List, [], ◌∷◌, leb, ◌==◌, if◌then◌else◌,
}

-- `s + t`
infixr 65 ◌&◌
abbrev pub ◌&◌ : String → String → String
s & t = String.◌++◌ s t

unfoldable pub is_space : ℕ → Bool
is_space c = (leb 9 c && leb c 13) || (leb 28 c && leb c 32)

abbrev pub is_empty : String → Bool
is_empty [] = true
is_empty (c ∷ s) = false

-- `not s`, for a string that may be `None`
abbrev pub is_falsy : Option String → Bool
is_falsy none = true
is_falsy (some s) = is_empty s

-- `s`, or the empty text for `None`
abbrev pub or_empty : Option String → String
or_empty none = ""
or_empty (some s) = s

-- `s.startswith(t)`
unfoldable pub starts_with : String → String → Bool
starts_with s [] = true
starts_with [] (d ∷ t) = false
starts_with (c ∷ s) (d ∷ t) = code c == code d && starts_with s t

-- `t in s`
unfoldable pub contains : String → String → Bool
unfolding starts_with
contains t [] = is_empty t
contains t (c ∷ s) = starts_with (c ∷ s) t || contains t s

-- `c` in front of the first part
abbrev pub lead : Char → List String → List String
lead c [] = (c ∷ []) ∷ []
lead c (w ∷ ws) = (c ∷ w) ∷ ws

-- `s.split(sep)`, for a separator of one character; the result is never empty
unfoldable pub split_on : ℕ → String → List String
split_on sep [] = "" ∷ []
split_on sep (c ∷ s) =
    let parts = split_on sep s in if code c == sep then "" ∷ parts else lead c parts

-- the parts that are not empty
abbrev pub nonempty : List String → List String
nonempty [] = []
nonempty (w ∷ ws) = if is_empty w then nonempty ws else w ∷ nonempty ws

-- the parts between any two white-space characters
unfoldable pub split_spaces : String → List String
unfolding is_space
split_spaces [] = "" ∷ []
split_spaces (c ∷ s) =
    let parts = split_spaces s in if is_space (code c) then "" ∷ parts else lead c parts

-- `s.split()`
unfoldable pub split : String → List String
unfolding split_spaces
split s = nonempty (split_spaces s)

-- `s.lstrip(...)`, for the characters of which `p` holds
unfoldable pub lstrip : (ℕ → Bool) → String → String
lstrip p [] = []
lstrip p (c ∷ s) = let rest = lstrip p s in if p (code c) then rest else c ∷ s

abbrev pub cons_kept : Bool → Char → String → String
cons_kept true c [] = []
cons_kept _ c r = c ∷ r

-- `s.rstrip(...)`, for the characters of which `p` holds
unfoldable pub rstrip : (ℕ → Bool) → String → String
rstrip p [] = []
rstrip p (c ∷ s) = cons_kept (p (code c)) c (rstrip p s)

-- `s.strip()`
unfoldable pub strip : String → String
unfolding lstrip rstrip is_space
strip s = rstrip is_space (lstrip is_space s)

-- `sep.join(ws)`
unfoldable pub join : String → List String → String
join sep [] = ""
join sep (w ∷ []) = w
join sep (w ∷ v ∷ ws) = w & sep & join sep (v ∷ ws)

-- `s[n:]`
unfoldable pub tail_from : ℕ → String → String
tail_from zero s = s
tail_from (suc n) [] = []
tail_from (suc n) (c ∷ s) = tail_from n s

-- `s[:-1]`
unfoldable pub init : String → String
init [] = []
init (c ∷ []) = []
init (c ∷ d ∷ s) = c ∷ init (d ∷ s)

-- `s[0]`, as a code point
unfoldable pub first? : String → Option ℕ
first? [] = none
first? (c ∷ s) = some (code c)

-- `s.replace(old, new)`, for an `old` of one character
unfoldable pub replace : ℕ → String → String → String
replace old new [] = []
replace old new (c ∷ s) = if code c == old then new & replace old new s else c ∷ replace old new s

-- `s.endswith(c)`, for one character
unfoldable pub ends_with : ℕ → String → Bool
ends_with sep [] = false
ends_with sep (c ∷ []) = code c == sep
ends_with sep (c ∷ d ∷ s) = ends_with sep (d ∷ s)

translate : String → String → Char → Char
translate (a ∷ froms) (b ∷ tos) c = if code c == code a then b else translate froms tos c
translate _ _ c = c

translate_all : String → String → String → String
unfolding translate
translate_all froms tos [] = []
translate_all froms tos (c ∷ s) = translate froms tos c ∷ translate_all froms tos s

abbrev lowers : String
lowers = "abcdefghijklmnopqrstuvwxyz"

abbrev uppers : String
uppers = "ABCDEFGHIJKLMNOPQRSTUVWXYZ"

-- `s.lower()` and `s.upper()`, on ASCII letters
unfoldable pub lower : String → String
unfolding translate_all
lower s = translate_all uppers lowers s

unfoldable pub upper : String → String
unfolding translate_all
upper s = translate_all lowers uppers s

-- the order of `sorted` on strings, by code points
unfoldable pub str_leb : String → String → Bool
str_leb [] t = true
str_leb (c ∷ s) [] = false
str_leb (c ∷ s) (d ∷ t) = if code c == code d then str_leb s t else leb (code c) (code d)

-- `s[:n]`
unfoldable pub head_to : ℕ → String → String
head_to zero s = []
head_to (suc n) [] = []
head_to (suc n) (c ∷ s) = c ∷ head_to n s

-- `s[-n:]`
unfoldable pub last_chars : ℕ → String → String
unfolding tail_from
last_chars n s = tail_from (String.count s - n) s

-- `s.split(t)[0]`, for a `t` that is not empty
unfoldable pub before : String → String → String
unfolding starts_with
before t [] = []
before t (c ∷ s) = let rest = before t s in if starts_with (c ∷ s) t then [] else c ∷ rest

-- For tests: what names this on its `unfolding` line computes with all of the above.
unfoldable pub text_functions : Unit {0}
unfolding contains starts_with split strip join tail_from init first? replace ends_with lower upper
    str_leb split_on head_to last_chars before
text_functions = tt
