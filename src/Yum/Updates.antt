-- ===== src/Yum/Updates.antt =====
-- `test_yum_updates`, its two tests, `get_updates` and `main` of check_yum.py.
pub mod Laws
use nagios_plugins.Base.{
  ℕ, suc, String, Bool, true, false, not, ◌&&◌, ◌||◌, List, [], ◌∷◌, ◌==◌, ltb, Option,
  if◌then◌else◌, length,
}
use nagios_plugins.Base.Int.{ℤ, pos, negsuc, ◌+ℤ◌, is_zero}
use nagios_plugins.Text.{◌&◌, is_falsy, is_space, text_functions}
use nagios_plugins.Regex.{re_match, re_search, is_word}
use nagios_plugins.Text.Decimal.{show, show_ℤ, read_nat, parse_int, is_digit}
use nagios_plugins.Nagios.{
  ok_status, warning_status, critical_status, unknown_status, Outcome, returned, exited, Setting,
  number, ◌>>=◌, ◌>>◌,
}
use nagios_plugins.Yum.Returncode.{end, check_returncode, strip_output, locked, unexpected}
use nagios_plugins.Yum.Command.{
  Tester, Host, check_yum_usable, validate_all_variables, with_options, check_lines, run,
}
use nagios_plugins.Yum.All.{
  split_sections, known_signature, check_signature, is_package, packages_in, is_kernel_security,
  is_kernel_running, is_package_format, verify, get_all_updates,
}
use nagios_plugins.Yum.Security.{summary_of, count_notices, yum_updateinfo}
use nagios_plugins.Yum.Security.Counts.{
  is_excluded, first_words, without_summary, counts_of, account, get_security_updates,
}

-- the plural that the messages take
abbrev some_updates : String → ℕ → String
some_updates what n =
    if n == 1 then "1 " & what & "Update Available" else show n & " " & what & "Updates Available"

unfoldable pub test_all_updates : Tester → Host → Outcome (ℕ × String)
test_all_updates t h = do
  n ← get_all_updates t h
  let status = if n == 0 then ok_status else critical_status
  returned (status, some_updates "" n & " | total_updates_available=" & show n)

abbrev others : ℤ → String
others (pos n) =
    if n == 1
    then ". 1 Non-Security Update Available"
    else ". " & show n & " Non-Security Updates Available"
others (negsuc n) = ". " & show_ℤ (negsuc n) & " Non-Security Updates Available"

-- the status that the two numbers give
abbrev pub security_status : (warn_on_any_update : Bool) → ℕ → ℤ → ℕ
security_status warn n other =
    if not (n == 0)
    then critical_status
    else if not (is_zero other) && warn
    then warning_status
    else ok_status

unfoldable pub test_security_updates : Tester → Host → Outcome (ℕ × String)
test_security_updates t h = do
  (n, other) ← get_security_updates t h
  returned (
    security_status t.warn_on_any_update n other,
    some_updates "Security " n
        & others other
        & " | security_updates_available="
        & show n
        & " non_security_updates_available="
        & show_ℤ other
        & " total_updates_available="
        & show_ℤ (pos n +ℤ other),
  )

unfoldable pub test_yum_updates : Tester → Host → Outcome (ℕ × String)
test_yum_updates t h = do
  check_yum_usable h
  validated ← validate_all_variables t
  (if validated.all_updates
      then test_all_updates validated h
      else test_security_updates validated h)

-- What the option parser leaves for `main`: the settings it copies into the tester, the arguments,
-- the two other switches, and the variable DEBUG of the environment.
pub record Options : Type 0 where
  pub settings : Tester
  pub args : List String
  pub debug : Bool
  pub version : Bool
  pub debug_variable : Option String

-- `help` is the parser's help text.
unfoldable pub main : (help : String) → Options → Host → Outcome (Unit {0})
main help o h =
    let t =
      if o.debug || not (is_falsy o.debug_variable)
      then record o.settings { verbosity = number (pos 3) }
      else o.settings in
    let tested = test_yum_updates t h >>= λ r. end r.0 r.1 in
    if ltb 0 (length o.args)
    then exited unknown_status help
    else if o.version
    then exited ok_status
        "Nagios Plugin for Yum updates on RedHat/CentOS systems - Version 0.12.8\nAuthor: Hari Sekhon\n"
    else tested

-- For tests: computes with the whole script.
unfoldable pub script : Unit {0}
unfolding main test_yum_updates test_all_updates test_security_updates get_all_updates
    get_security_updates account counts_of without_summary first_words is_excluded yum_updateinfo
    count_notices summary_of verify is_package_format is_kernel_running is_kernel_security
    packages_in is_package check_signature known_signature split_sections run check_lines
    with_options check_returncode unexpected locked strip_output end validate_all_variables
    check_yum_usable re_match re_search is_word is_space is_digit read_nat parse_int show show_ℤ
    ◌+ℤ◌ text_functions
script = tt
