-- ===== src/Portage/Exclusions.antt =====
-- `end` and `validate_exclusions` of older/check_gentoo_portage.py.
pub mod Laws
use nagios_plugins.Base.{
  ℕ, String, Bool, true, false, not, ◌||◌, Option, none, some, List, [], ◌∷◌, ◌==◌, ltb, str_eq,
  if◌then◌else◌, any, map,
}
use nagios_plugins.Text.{◌&◌, split_on, strip, tail_from, head_to, last_chars, str_leb}
use nagios_plugins.Text.Decimal.{is_digit, read_nat}
use nagios_plugins.Text.Sort.{sort}
use nagios_plugins.Text.Distinct.{mem}
use nagios_plugins.Regex.{Re, bol, eol, one, lit, times, all_of, re_match, found}
use nagios_plugins.Nagios.{
  ok_status, warning_status, critical_status, unknown_status, Outcome, returned, exited, raised,
  Exception, or_raise, when, ◌>>=◌, ◌>>◌,
}

unfoldable pub end {ℓ} : {A : Type ℓ} → ℕ → String → Outcome A
end status message =
    if status == ok_status
    then exited ok_status ("Portage OK: " & message)
    else if status == warning_status
    then exited warning_status ("Portage WARNING: " & message)
    else if status == critical_status
    then exited critical_status ("Portage CRITICAL: " & message)
    else exited unknown_status ("UNKNOWN: " & message)

-- ^\d{6}-\d{2}$
unfoldable pub is_glsa : String → Bool
is_glsa s = found (
    re_match (all_of (bol ∷ times 6 (one is_digit) ∷ lit "-" ∷ times 2 (one is_digit) ∷ eol ∷ []))
      s)

-- `int(s)`, for a part of an id, which is made of digits
abbrev int_of : String → Outcome ℕ
int_of s = or_raise Exception.value_error (read_nat s)

abbrev pub first_glsa : String
first_glsa = "200310-03"

abbrev invalid : String → Outcome (Unit {0})
invalid exclusion =
    end unknown_status
      ("GLSA exclusion '" & exclusion & "' is not a valid GLSA id. See --help for details")

-- one round of the loop; `this_month` is `int(time.strftime("%Y%m"))`
unfoldable pub check_exclusion : (this_month : ℕ) → String → Outcome (Unit {0})
check_exclusion this_month exclusion = do
  when (not (is_glsa exclusion)) (invalid exclusion)
  month ← int_of (tail_from 4 (head_to 6 exclusion))
  when (ltb month 1 || ltb 12 month) (invalid exclusion)
  number ← int_of (last_chars 2 exclusion)
  when (number == 0) (invalid exclusion)
  issued ← int_of (head_to 6 exclusion)
  when (ltb this_month issued) (
      end unknown_status (
        "GLSA id '" & exclusion
        & "' is in the future and therefore cannot be valid (or system clock is wrong)"))
  when (not (str_leb first_glsa exclusion)) (
      end unknown_status (
        "GLSA id '" & exclusion
        & "' predates the first ever GLSA issued. Please correct the GLSA id exclusions you have provided. See --help for more details"))
  returned tt

unfoldable pub check_exclusions : (this_month : ℕ) → List String → Outcome (Unit {0})
check_exclusions this_month [] = returned tt
check_exclusions this_month (exclusion ∷ exclusions) = do
  check_exclusion this_month exclusion
  check_exclusions this_month exclusions

-- `list(set(exclusions))`, in an order that the sort behind it forgets
unfoldable pub as_set : List String → List String
as_set [] = []
as_set (s ∷ ss) = let rest = as_set ss in if mem s rest then rest else s ∷ rest

-- the ids that the option gives
unfoldable pub parts : String → List String
parts glsa_ids = map strip (split_on b',' glsa_ids)

-- `verbosity >= 3`, of which only the TypeError for `None` is kept
abbrev compared : Option ℕ → Outcome (Unit {0})
compared none = raised Exception.type_error
compared (some v) = returned tt

-- `verbosity` is what the option parser counts, `None` without `-v`.
unfoldable pub validate_exclusions :
    (this_month : ℕ)
    → (verbosity : Option ℕ) → (glsa_ids : Option String) → Outcome (Option (List String))
validate_exclusions this_month verbosity none = returned none
validate_exclusions this_month verbosity (some glsa_ids) = do
  check_exclusions this_month (parts glsa_ids)
  compared verbosity
  returned (some (sort (as_set (parts glsa_ids))))
