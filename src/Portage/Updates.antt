-- ===== src/Portage/Updates.antt =====
-- The check for the two utilities, `run` and `get_all_updates` of older/check_gentoo_portage.py.
use nagios_plugins.Base.{
  String, Bool, false, not, Option, none, some, List, [], ◌∷◌, str_eq, leb, if◌then◌else◌,
  get_last_or, ◌⊎◌, inl, inr,
}
use nagios_plugins.Base.Int.{ℤ, pos, negsuc, is_zero}
use nagios_plugins.Text.{◌&◌, split, split_on, strip, head_to, before, is_empty}
use nagios_plugins.Text.Decimal.{is_digit, parse_int, show_ℤ}
use nagios_plugins.Regex as Regex
use nagios_plugins.Regex.{Re, lit, plus, optional, group, all_of, re_search}
use nagios_plugins.Nagios.{
  critical_status, unknown_status, Outcome, returned, Process, when, item, ◌>>=◌, ◌>>◌,
}
use nagios_plugins.Portage.Exclusions.{end}
use nagios_plugins.Portage.Timestamp.{Files, Clock}

-- `bytes` is `str` of the bytes that a text is encoded to; `float` is Python's.
pub record Host : Type 0 where
  pub files : Files
  pub clock : Clock
  pub executable : String → Bool
  pub popen : List String → String ⊎ Process
  pub bytes : String → String

abbrev pub glsa_check : String
glsa_check = "/usr/bin/glsa-check"

abbrev pub emerge : String
emerge = "/usr/bin/emerge"

-- one round of the loop over the utilities
abbrev check_utility : Host → String → Outcome (Unit {0})
check_utility h utility = do
  when (not (h.files.exists utility)) (
      if not (h.files.exists "/etc/gentoo-release")
      then end unknown_status
          ("Utility '" & utility & "' cannot be found and system does not appear to be Gentoo")
      else if str_eq utility glsa_check
      then end unknown_status
          ("Utility '" & utility & "' cannot be found. You may need to 'emerge gentoolkit' first")
      else end unknown_status ("Utility '" & utility & "' cannot be found, cannot run check"))
  when (not (h.executable utility))
      (end unknown_status ("Utility '" & utility & "' is not set executable, cannot run check"))

unfoldable pub check_utilities : Host → Outcome (Unit {0})
check_utilities h = do check_utility h glsa_check; check_utility h emerge

abbrev spawned : String → String ⊎ Process → Outcome Process
spawned utility (inr p) = returned p
spawned utility (inl error) =
    if str_eq error "No such file or directory"
    then end unknown_status ("Cannot find utility '" & utility & "'")
    else end unknown_status ("Error trying to run utility '" & utility & "' - " & error)

-- The output is bytes, which never equal the empty string that the code compares them with.
unfoldable pub run : Host → String → Outcome (List String)
run h cmd = do
  when (is_empty cmd)
      (end unknown_status "Internal python error - no cmd supplied for run function")
  utility ← item 0 (split cmd)
  p ← spawned utility (h.popen (split cmd))
  when (not (is_zero p.returncode)) (
      end unknown_status (
        "'"
        & utility
        & "' utility returned an exit code of '"
        & show_ℤ p.returncode
        & "' - '"
        & h.bytes p.stdout
        & "'"))
  returned (split_on b'\n' p.stdout)

-- \d+ packages{0,1} \(.+\)
abbrev re_upgrade_info : Re
re_upgrade_info = group (
    all_of (
      plus is_digit
      ∷ lit " package"
      ∷ optional (lit "s")
      ∷ lit " ("
      ∷ plus Regex.any
      ∷ lit ")"
      ∷ []))

-- what the first line of totals says
unfoldable pub info_of : String → String
info_of line = elim (re_search re_upgrade_info line) [
  | some m ↦ get_last_or "" m.groups
  | none ↦ if str_eq (head_to 17 line) "Total: 0 packages" then "0 packages to upgrade" else ""
]

unfoldable pub upgrade_info : List String → String
upgrade_info [] = ""
upgrade_info (line ∷ lines) =
    let rest = upgrade_info lines in
    if str_eq (head_to 7 line) "Total: " then info_of line else rest

-- `num_package_changes >= 1`
abbrev pub is_positive : ℤ → Bool
is_positive (pos n) = leb 1 n
is_positive (negsuc n) = false

abbrev changes : Option ℤ → Outcome Bool
changes none =
    end unknown_status
      "Error parsing number of changed packages, possible change in format of portage output. Please upgrade this plugin and portage ('emerge portage'). If problem persists, contact the author"
changes (some n) = returned (is_positive n)

unfoldable pub get_all_updates : Host → (dependencies newuse : Bool) → Outcome (Bool × String)
get_all_updates h dependencies newuse = do
  output ← run h (
      emerge
      & " --update --pretend --verbose --color n world"
      & (if dependencies then " --deep" else "")
      & (if newuse then " --newuse" else ""))
  let info = upgrade_info output
  when (is_empty info) (
      end critical_status
        "No upgrade information could be parsed, portage version may have changed or be too old. Try upgrading both this plugin and portage ('emerge portage'). If the problem persists, contact the author")
  package_changes_available ← changes (parse_int (strip (before "package" info)))
  returned (package_changes_available, info)
