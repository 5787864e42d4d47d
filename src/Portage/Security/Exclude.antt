-- ===== src/Portage/Security/Exclude.antt =====
-- Which security updates the exclusions of older/check_gentoo_portage.py leave.
use nagios_plugins.Base.{
  String, Bool, true, false, not, List, [], ◌∷◌, ◌≡◌, refl, sym, ap, ◌∙◌, arith, str_eq, eq_iff,
  map, All, if◌then◌else◌, Bool-cases, inl, inr, length, Option, none, some,
}
use nagios_plugins.Text.{split, strip}
use nagios_plugins.Text.Distinct.{mem, IsDistinct}
use nagios_plugins.Nagios.{returned}
use nagios_plugins.Portage.Security.{
  is_security_package, is_applied_package, lines_with, security_lines, pop_id, exclude,
  process_security_package_output, process_security_updates,
}
use nagios_plugins.Portage.Security.Laws.{HasWord}

first_word : List String → String
first_word [] = ""
first_word (word ∷ words) = word

-- the id at the front of a line
unfoldable pub id_of : String → String
unfolding first_word
id_of line = strip (first_word (split line))

-- `pop_id`, on lines that have words
abbrev pub popped : String → List String → List String
popped exclusion [] = []
popped exclusion (line ∷ lines) =
    if str_eq (id_of line) exclusion then lines else line ∷ popped exclusion lines

pop_id-popped :
    (exclusion : String) (lines : List String)
    → All HasWord lines
    → pop_id exclusion lines ≡ returned (popped exclusion lines)
unfolding pop_id id_of first_word
pop_id-popped exclusion [] h = refl
pop_id-popped exclusion (line ∷ lines) h =
    let rest = pop_id-popped exclusion lines h.1 in let word = h.0 in ground arith

abbrev pub excluded : List String → List String → List String
excluded [] lines = lines
excluded (exclusion ∷ exclusions) lines = excluded exclusions (popped exclusion lines)

popped-All :
    (P : String → Type 0) (exclusion : String) (lines : List String)
    → All P lines
    → All P (popped exclusion lines)
popped-All P exclusion [] h = tt
popped-All P exclusion (line ∷ lines) h = elim (Bool-cases (str_eq (id_of line) exclusion)) [
  | inl same ↦ rw same h.1
  | inr other ↦ rw other (h.0, popped-All P exclusion lines h.1)
]

exclude-excluded :
    (es security applied : List String)
    → All HasWord security
    → All HasWord applied
    → exclude es security applied ≡ returned (excluded es security, excluded es applied)
unfolding exclude
exclude-excluded [] security applied h k = refl
exclude-excluded (e ∷ es) security applied h k =
    rw (pop_id-popped e security h, pop_id-popped e applied k)
      (exclude-excluded es (popped e security) (popped e applied) (popped-All HasWord e security h)
        (popped-All HasWord e applied k))

-- a line whose id is among the exclusions
abbrev pub IsExcluded : List String → String → Type 0
IsExcluded es line = mem (id_of line) es ≡ true

All-popped :
    (exclusion : String) (es lines : List String)
    → All (IsExcluded es) (popped exclusion lines)
    → All (IsExcluded (exclusion ∷ es)) lines
All-popped exclusion es [] h = tt
All-popped exclusion es (line ∷ lines) h = elim (Bool-cases (str_eq (id_of line) exclusion)) [
  | inl same ↦ (rw same refl, weakened lines (rw same at h))
  | inr other ↦ let kept = rw other at h in (rw other kept.0, All-popped exclusion es lines kept.1)
]
  where
    weakened :
        (rest : List String) → All (IsExcluded es) rest → All (IsExcluded (exclusion ∷ es)) rest
    weakened [] k = tt
    weakened (l ∷ rest) k = (rw k.0 (ground arith), weakened rest k.1)

-- Where the exclusions leave nothing, every line is excluded.
pub excluded-nil : (es lines : List String) → excluded es lines ≡ [] → All (IsExcluded es) lines
excluded-nil [] lines h = rw h tt
excluded-nil (e ∷ es) lines h = All-popped e es lines (excluded-nil es (popped e lines) h)

abbrev differs : String → String → Bool
differs exclusion line = not (str_eq (id_of line) exclusion)

abbrev pub is_left : List String → String → Bool
is_left es line = not (mem (id_of line) es)

lines_with-all :
    (e : String) (lines : List String)
    → mem e (map id_of lines) ≡ false
    → lines_with (differs e) lines ≡ lines
lines_with-all e [] h = refl
lines_with-all e (line ∷ lines) h = elim (Bool-cases (str_eq (id_of line) e)) [
  | inl same ↦ absurd (ground (arith, (eq_iff (id_of line) e).0 same, (eq_iff e (id_of line)).1, h))
  | inr other ↦ let rest = lines_with-all e lines in ground arith
]

popped-lines_with :
    (e : String) (lines : List String)
    → IsDistinct (map id_of lines)
    → popped e lines ≡ lines_with (differs e) lines
popped-lines_with e [] h = refl
popped-lines_with e (line ∷ lines) h = elim (Bool-cases (str_eq (id_of line) e)) [
  | inl same ↦ rw same (sym (lines_with-all e lines (rw ((eq_iff (id_of line) e).0 same) at h.0)))
  | inr other ↦ rw (other, popped-lines_with e lines h.1) refl
]

mem-lines_with :
    (s : String) (test : String → Bool) (lines : List String)
    → mem s (map id_of lines) ≡ false
    → mem s (map id_of (lines_with test lines)) ≡ false
mem-lines_with s test [] h = refl
mem-lines_with s test (line ∷ lines) h = let rest = mem-lines_with s test lines in ground arith

lines_with-IsDistinct :
    (test : String → Bool) (lines : List String)
    → IsDistinct (map id_of lines)
    → IsDistinct (map id_of (lines_with test lines))
lines_with-IsDistinct test [] h = tt
lines_with-IsDistinct test (line ∷ lines) h = elim (Bool-cases (test line)) [
  | inl listed ↦
      rw listed (mem-lines_with (id_of line) test lines h.0, lines_with-IsDistinct test lines h.1)
  | inr other ↦ rw other (lines_with-IsDistinct test lines h.1)
]

lines_with-lines_with :
    (e : String) (es lines : List String)
    → lines_with (is_left es) (lines_with (differs e) lines) ≡ lines_with (is_left (e ∷ es)) lines
lines_with-lines_with e es [] = refl
lines_with-lines_with e es (line ∷ lines) =
    let rest = lines_with-lines_with e es lines in ground arith

lines_with-none : (lines : List String) → lines_with (is_left []) lines ≡ lines
lines_with-none [] = refl
lines_with-none (line ∷ lines) = ap (λ rest. line ∷ rest) (lines_with-none lines)

-- Where the ids of the lines differ, the exclusions leave the lines whose id is not among them.
pub excluded-lines_with :
    (es lines : List String)
    → IsDistinct (map id_of lines)
    → excluded es lines ≡ lines_with (is_left es) lines
excluded-lines_with [] lines h = sym (lines_with-none lines)
excluded-lines_with (e ∷ es) lines h = rw (popped-lines_with e lines h) (
    excluded-lines_with es (lines_with (differs e) lines)
      (lines_with-IsDistinct (differs e) lines h)
    ∙ lines_with-lines_with e es lines)

-- the exclusions, of which there are none without the option
abbrev pub ids_of : Option (List String) → List String
ids_of none = []
ids_of (some ids) = ids

pub process_security_updates-excluded :
    (no_warn : Bool) (ids : Option (List String)) (security applied : List String)
    → All HasWord security
    → All HasWord applied
    → process_security_updates no_warn ids security applied
      ≡ returned (
          process_security_package_output no_warn
            (length (excluded (ids_of ids) security))
            (length (excluded (ids_of ids) applied)))
unfolding process_security_updates
process_security_updates-excluded no_warn none security applied h k = refl
process_security_updates-excluded no_warn (some ids) security applied h k =
    rw (exclude-excluded ids security applied h k) refl

-- what `security_lines` returns, where it does
pub security_lines-returned :
    (output : List String) (found : List String × List String)
    → security_lines output ≡ returned found
    → security_lines output
      ≡ returned (lines_with is_security_package output, lines_with is_applied_package output)
unfolding security_lines
security_lines-returned output found h = ground (arith, h)
