-- ===== src/Yum/Security.antt =====
-- `get_security_updates` and `yum_updateinfo` of check_yum.py.
pub mod Counts
pub mod Notices
pub mod Account
use nagios_plugins.Base.{
  ℕ, suc, ◌+◌, String, Bool, true, false, not, ◌&&◌, ◌||◌, Option, none, some, List, [], ◌∷◌, ◌≢◌,
  str_eq, ltb, if◌then◌else◌, length, get_elem?, any,
}
use nagios_plugins.Base.Int.{ℤ, sub_ℕ}
use nagios_plugins.Text.{◌&◌, contains, starts_with, split, join, is_space, is_empty}
use nagios_plugins.Text.Decimal.{show, read_nat, is_digit}
use nagios_plugins.Regex as Regex
use nagios_plugins.Regex.{
  Re, Match, bol, eol, lit, one, star, group, plus, alt, optional, all_of, any_of, is_word,
  re_match, re_search, found,
}
use nagios_plugins.Nagios.{
  warning_status, critical_status, Outcome, returned, Exception, value_error, or_raise, item, when,
  ◌>>=◌, ◌>>◌,
}
use nagios_plugins.Yum.Returncode.{end}
use nagios_plugins.Yum.Command.{Tester, Host, yum, run}

-- (\d+)
abbrev number_group : Re
number_group = group (plus is_digit)

-- Needed (\d+) of (\d+) packages, for security
abbrev re_security_summary : Re
re_security_summary =
    all_of (
      lit "Needed " ∷ number_group ∷ lit " of " ∷ number_group ∷ lit " packages, for security" ∷ [])

-- (\d+) package\(s\) needed for security, out of (\d+) available
abbrev re_summary_rhel6 : Re
re_summary_rhel6 = all_of (
    number_group
    ∷ lit " package(s) needed for security, out of "
    ∷ number_group
    ∷ lit " available"
    ∷ [])

-- No packages needed,? for security[;,] (\d+) (?:packages )?available
abbrev re_no_sec_updates : Re
re_no_sec_updates = all_of (
    lit "No packages needed"
    ∷ optional (lit ",")
    ∷ lit " for security"
    ∷ alt (lit ";") (lit ",")
    ∷ lit " "
    ∷ number_group
    ∷ lit " "
    ∷ optional (lit "packages ")
    ∷ lit "available"
    ∷ [])

-- No security updates needed, but (\d+) updates available
abbrev re_no_sec_updates_dnf : Re
re_no_sec_updates_dnf =
    all_of (lit "No security updates needed, but " ∷ number_group ∷ lit " updates available" ∷ [])

-- `int(m.group(i))`, for a group of digits
abbrev pub int_group : ℕ → Match → Outcome ℕ
int_group i m = do s ← item i m.groups; or_raise value_error (read_nat s)

-- the two numbers of a summary line, as text
abbrev both_groups : Match → Outcome (String × String)
both_groups m = do security ← item 0 m.groups; total ← item 1 m.groups; returned (security, total)

abbrev total_group : Match → Outcome (String × String)
total_group m = do total ← item 0 m.groups; returned ("0", total)

-- The four patterns on one line, in the loop's order.
unfoldable pub summary_of : String → Option (Outcome (String × String))
summary_of line = elim (re_match re_summary_rhel6 line) [
  | some m ↦ some (both_groups m)
  | none ↦ elim (re_match re_no_sec_updates line) [
    | some m ↦ some (total_group m)
    | none ↦ elim (re_match re_no_sec_updates_dnf line) [
      | some m ↦ some (total_group m)
      | none ↦ elim (re_match re_security_summary line) [
        | some m ↦ some (both_groups m)
        | none ↦ none
      ]
    ]
  ]
]

-- the loop that stops at the first summary line
abbrev pub find_summary : List String → Option (Outcome (String × String))
find_summary [] = none
find_summary (line ∷ lines) = elim (summary_of line) [ some s ↦ some s | none ↦ find_summary lines ]

-- ^\s*(\d+)\s+Security notice
abbrev pub re_security_notices : Re
re_security_notices =
    all_of (bol ∷ star is_space ∷ number_group ∷ plus is_space ∷ lit "Security notice" ∷ [])

-- ^\s*(\d+)\s+Bugfix notice
abbrev pub re_bugfix_notices : Re
re_bugfix_notices =
    all_of (bol ∷ star is_space ∷ number_group ∷ plus is_space ∷ lit "Bugfix notice" ∷ [])

-- what the two assignments of the loop leave in a counter
abbrev pub or_keep : (ℕ → ℕ) → ℕ → Option Match → Outcome ℕ
or_keep f n none = returned n
or_keep f n (some m) = do k ← int_group 0 m; returned (f k)

unfoldable pub count_notices : (security total : ℕ) → List String → Outcome (ℕ × ℕ)
count_notices security total [] = returned (security, total)
count_notices security total (line ∷ lines) = do
  security' ← or_keep (λ k. k) security (re_match re_security_notices line)
  total' ← or_keep (λ k. total + k) total (re_match re_bugfix_notices line)
  count_notices security' total' lines

-- The number of security updates and the total.
unfoldable pub yum_updateinfo : Tester → Host → Outcome (ℕ × ℕ)
yum_updateinfo t h = do output ← run t h "yum updateinfo"; count_notices 0 0 output
