-- ===== src/Portage/Command.antt =====
-- `validate_all_variables`, `get_security_status`, `test_for_updates` and `main` of
-- older/check_gentoo_portage.py.
pub mod Status
use nagios_plugins.Base.{
  ℕ, String, Bool, true, false, not, ◌&&◌, ◌||◌, Option, none, some, List, [], ◌∷◌, ◌==◌, ltb, leb,
  if◌then◌else◌, length, or_zero,
}
use nagios_plugins.Base.Int.{ℤ, pos, negsuc, ◌-ℤ◌}
use nagios_plugins.Text.{◌&◌, before, is_space, text_functions}
use nagios_plugins.Text.Decimal.{parse_int, is_digit, read_nat, show, show_ℤ}
use nagios_plugins.Text.Sort.{sort}
use nagios_plugins.Regex.{re_match, re_search, repeat}
use nagios_plugins.Nagios.{
  ok_status, warning_status, unknown_status, Outcome, returned, exited, ◌>>=◌, ◌>>◌,
}
use nagios_plugins.Portage.Exclusions.{
  end, is_glsa, check_exclusion, check_exclusions, as_set, parts, validate_exclusions,
}
use nagios_plugins.Portage.Security.{
  is_security_package, is_applied_package, security_lines, pop_id, exclude,
  process_security_package_output, process_security_updates,
}
use nagios_plugins.Portage.Timestamp.{
  Float, validate_portage_tree_age, consider, newest, get_portage_timestamp, test_portage_current,
}
use nagios_plugins.Portage.Updates.{
  Host, glsa_check, check_utilities, run, info_of, upgrade_info, get_all_updates,
}

-- `PortageTester`, as `main` fills it; a flag of `None` is false.
pub record Tester : Type 0 where
  pub all_updates : Bool
  pub dependencies : Bool
  pub glsa_ids : Option String
  pub max_portage_tree_age : Option String
  pub newuse : Bool
  pub no_warn_applied : Bool
  pub timeout : Option String
  pub verbosity : Option ℕ
  pub warn_any_package : Bool

abbrev bad_timeout : Outcome ℕ
bad_timeout = end unknown_status "Timeout must be a number between 1 and 3600 seconds"

abbrev in_range : ℤ → Outcome ℕ
in_range (negsuc n) = bad_timeout
in_range (pos n) = if ltb n 1 || ltb 3600 n then bad_timeout else returned n

unfoldable pub validate_timeout : Option String → Outcome ℕ
validate_timeout none = returned 20
validate_timeout (some s) = elim (parse_int s) [
  | none ↦ end unknown_status "Timeout must be an whole number, representing the timeout in seconds"
  | some n ↦ in_range n
]

-- the variables that the tests use, once they are valid
pub record Valid : Type 0 where
  pub all_updates : Bool
  pub glsa_ids : Option (List String)
  pub max_age : Float
  pub verbosity : ℕ

unfoldable pub validate_all_variables :
    (float : String → Option Float) → Host → Tester → Outcome Valid
validate_all_variables float h t = do
  glsa_ids ← validate_exclusions h.clock.this_month t.verbosity t.glsa_ids
  max_age ← validate_portage_tree_age float t.max_portage_tree_age
  timeout ← validate_timeout t.timeout
  returned (record {
    all_updates = t.warn_any_package || t.all_updates;
    glsa_ids = glsa_ids;
    max_age = max_age;
    verbosity = or_zero t.verbosity;
  })

unfoldable pub get_security_status :
    Host → (no_warn_applied : Bool) → Option (List String) → Outcome (ℕ × String)
get_security_status h no_warn_applied glsa_ids = do
  output ← run h (glsa_check & " --nocolor --list affected")
  (security_updates, applied_updates) ← security_lines output
  process_security_updates no_warn_applied glsa_ids security_updates applied_updates

-- the status and the message, with what `get_all_updates` returned
abbrev pub add_packages :
    (warn_any : Bool) → (verbosity : ℕ) → ℕ × String → Bool × String → ℕ × String
add_packages warn_any verbosity (status, message) (true, upgrade_info) = (
  if warn_any && status == ok_status then warning_status else status,
  message
      & ". Package Changes Available: "
      & (if leb 1 verbosity then upgrade_info else before "(" upgrade_info),
)
add_packages warn_any verbosity (status, message) (false, upgrade_info) =
    (status, message & ". No General Package Updates Available")

unfoldable pub package_status : Host → Tester → Valid → ℕ × String → Outcome (ℕ × String)
package_status h t v security = do
  packages ← get_all_updates h t.dependencies t.newuse
  returned (add_packages t.warn_any_package v.verbosity security packages)

abbrev pub add_age : (verbosity : ℕ) → (hours : String) → ℕ × String → ℕ × String
add_age verbosity hours (status, message) = (
  status,
  if leb 1 verbosity
      then message & ". Portage last synchronized " & hours & " hours ago"
      else message,
)

unfoldable pub test_for_updates :
    (float : String → Option Float) → Host → Tester → Outcome (ℕ × String)
test_for_updates float h t = do
  v ← validate_all_variables float h t
  portage_age ← test_portage_current h.files h.clock v.max_age
  security ← get_security_status h t.no_warn_applied v.glsa_ids
  result ← (if v.all_updates then package_status h t v security else returned security)
  returned (add_age v.verbosity (h.clock.hours portage_age) result)

-- `help` is the parser's help text.
unfoldable pub main :
    (help : String)
    → (float : String → Option Float) → Host
    → Tester
    → (args : List String) → (version : Bool) → Outcome (Unit {0})
main help float h t args version = do
  check_utilities h
  (if ltb 0 (length args)
      then exited unknown_status help
      else if version
      then exited ok_status "Nagios Plugin for Gentoo Portage Version 0.9.1"
      else (do (result, output) ← test_for_updates float h t; end result output))

-- For tests: computes with the whole script.
unfoldable pub script : Unit {0}
unfolding main test_for_updates package_status get_security_status validate_all_variables
    validate_timeout get_all_updates upgrade_info info_of run check_utilities test_portage_current
    get_portage_timestamp newest consider validate_portage_tree_age process_security_updates
    process_security_package_output exclude pop_id security_lines is_applied_package
    is_security_package validate_exclusions parts as_set check_exclusions check_exclusion is_glsa
    end sort re_search re_match repeat is_digit is_space parse_int read_nat show show_ℤ ◌-ℤ◌
    text_functions
script = tt
