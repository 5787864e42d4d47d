-- ===== src/Regex.antt =====
-- Python's `re`, as far as the plugins use it: a backtracking matcher in continuation style, which
-- tries the alternatives in Python's order and returns the captured groups. Character classes are
-- those of the ASCII range. A repeated group is bounded by a count that the subject cannot exceed.
mod Tests
pub mod Groups
pub mod Missing
pub mod Whole
use Prim.Native.String
use Prim.Native.String.{[], ◌∷◌, count}
use nagios_plugins.Base.{
  ℕ, zero, suc, ◌-◌, ◌+◌, code, String, Bool, true, false, not, ◌&&◌, ◌||◌, Option, none, some,
  List, [], ◌∷◌, ◌++◌, leb, ◌==◌, if◌then◌else◌,
}

pub data Re : Type 0 where
  eps bol eol : Re
  lit : String → Re
  one star lazy : (ℕ → Bool) → Re
  seq alt : Re → Re → Re
  group : Re → Re

-- The groups that a re_match captured, and the text behind it.
pub record Match : Type 0 where
  pub groups : List String
  pub rest : String

-- What follows in the pattern; the Boolean says that the subject's start is here.
abbrev pub Cont : Type 0
Cont = List String → Bool → String → Option Match

abbrev prefix : ℕ → String → String
prefix zero s = []
prefix (suc n) [] = []
prefix (suc n) (c ∷ s) = c ∷ prefix n s

run_lit : String → Cont → Cont
run_lit [] k gs b s = k gs b s
run_lit (d ∷ t) k gs b [] = none
run_lit (d ∷ t) k gs b (c ∷ s) = elim (code d == code c) [
  | true ↦ run_lit t k gs false s
  | false ↦ none
]

run_one : (ℕ → Bool) → Cont → Cont
run_one p k gs b [] = none
run_one p k gs b (c ∷ s) = elim (p (code c)) [ true ↦ k gs false s | false ↦ none ]

run_star : (ℕ → Bool) → Cont → List String → Bool → String → Option Match
run_star p k gs b [] = k gs b []
run_star p k gs b (c ∷ s) = elim (p (code c)) [
  | true ↦ elim (run_star p k gs false s) [ some m ↦ some m | none ↦ k gs b (c ∷ s) ]
  | false ↦ k gs b (c ∷ s)
]

run_lazy : (ℕ → Bool) → Cont → List String → Bool → String → Option Match
run_lazy p k gs b [] = k gs b []
run_lazy p k gs b (c ∷ s) = elim (k gs b (c ∷ s)) [
  | some m ↦ some m
  | none ↦ elim (p (code c)) [ true ↦ run_lazy p k gs false s | false ↦ none ]
]

-- `$` holds at the end, and before a newline that ends the subject.
abbrev at_end : String → Bool
at_end [] = true
at_end (c ∷ []) = code c == 10
at_end _ = false

run : Re → Cont → Cont
unfolding run_lit run_one run_star run_lazy
run eps k gs b s = k gs b s
run bol k gs b s = elim b [ true ↦ k gs true s | false ↦ none ]
run eol k gs b s = elim (at_end s) [ true ↦ k gs b s | false ↦ none ]
run (lit t) k gs b s = run_lit t k gs b s
run (one p) k gs b s = run_one p k gs b s
run (star p) k gs b s = run_star p k gs b s
run (lazy p) k gs b s = run_lazy p k gs b s
run (seq q r) k gs b s = run q (run r k) gs b s
run (alt q r) k gs b s = elim (run q k gs b s) [ some m ↦ some m | none ↦ run r k gs b s ]
run (group r) k gs b s =
    run r (λ hs b' s'. k (hs ++ prefix (count s - count s') s ∷ []) b' s') gs b s

abbrev stop : Cont
stop gs b s = some (record { groups = gs; rest = s })

-- `re.match(r, s)`
unfoldable pub re_match : Re → String → Option Match
unfolding run
re_match r s = run r stop [] true s

search_from : Re → Bool → String → Option Match
unfolding run
search_from r b [] = run r stop [] b []
search_from r b (c ∷ s) = elim (run r stop [] b (c ∷ s)) [
  | some m ↦ some m
  | none ↦ search_from r false s
]

-- `re.search(r, s)`
unfoldable pub re_search : Re → String → Option Match
unfolding search_from
re_search r s = search_from r true s

-- `re.sub(r, '', s, 1)`
unfoldable pub sub_first : Re → String → String
unfolding run
sub_first r [] = elim (run r stop [] false []) [ some m ↦ m.rest | none ↦ [] ]
sub_first r (c ∷ s) = elim (run r stop [] false (c ∷ s)) [
  | some m ↦ m.rest
  | none ↦ c ∷ sub_first r s
]

abbrev pub found : Option Match → Bool
found none = false
found (some m) = true

-- `.`
abbrev pub any : ℕ → Bool
any c = not (c == 10)

-- `\w`
unfoldable pub is_word : ℕ → Bool
is_word c =
    (leb b'0' c && leb c b'9')
    || (leb b'A' c && leb c b'Z')
    || (leb b'a' c && leb c b'z')
    || c == b'_'

-- `r+` for a class, and `r?`
abbrev pub plus : (ℕ → Bool) → Re
plus p = seq (one p) (star p)

abbrev pub optional : Re → Re
optional r = alt r eps

-- `r{0,n}`
unfoldable pub repeat : ℕ → Re → Re
repeat zero r = eps
repeat (suc n) r = optional (seq r (repeat n r))

-- several in a row, and several alternatives
abbrev pub all_of : List Re → Re
all_of [] = eps
all_of (r ∷ []) = r
all_of (r ∷ q ∷ rs) = seq r (all_of (q ∷ rs))

abbrev pub any_of : List Re → Re
any_of [] = eps
any_of (r ∷ []) = r
any_of (r ∷ q ∷ rs) = alt r (any_of (q ∷ rs))

-- A literal in capitals, for any case.
abbrev pub any_case : String → Re
any_case [] = eps
any_case (c ∷ s) = seq (one (λ d. d == code c || d == code c + 32)) (any_case s)

-- `r{n}`
abbrev pub times : ℕ → Re → Re
times zero r = eps
times (suc n) r = seq r (times n r)
