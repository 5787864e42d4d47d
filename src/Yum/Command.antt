-- ===== src/Yum/Command.antt =====
-- `end`, `check_yum_usable`, `validate_all_variables` and `run` of check_yum.py.
pub mod Laws
use nagios_plugins.Base.{
  ℕ, String, Bool, true, false, not, ◌||◌, Option, none, some, List, [], ◌∷◌, ◌==◌, str_eq, ltb,
  leb, if◌then◌else◌, ◌⊎◌, inl, inr,
}
use nagios_plugins.Base.Int.{ℤ, pos, negsuc}
use nagios_plugins.Text.{◌&◌, contains, split, split_on, is_empty, is_falsy}
use nagios_plugins.Text.Decimal.{parse_int}
use nagios_plugins.Nagios.{
  ok_status, warning_status, critical_status, unknown_status, Outcome, returned, exited, Setting,
  missing, number, text, Process, when, item, ◌>>=◌, ◌>>◌,
}
use nagios_plugins.Yum.Returncode.{end, check_returncode}

pub record Tester : Type 0 where
  pub all_updates : Bool
  pub no_cache_update : Bool
  pub no_warn_on_lock : Bool
  pub enable_repo : Option String
  pub disable_repo : Option String
  pub disable_plugin : Option String
  pub yum_config : Option String
  pub timeout : Setting
  pub verbosity : Setting
  pub warn_on_any_update : Bool

pub record Host : Type 0 where
  pub yum_exists : Bool
  pub yum_is_file : Bool
  pub yum_executable : Bool
  pub dnf_exists : Bool
  pub popen : List String → String ⊎ Process

abbrev pub yum : String
yum = "/usr/bin/yum"

abbrev pub default_timeout : ℕ
default_timeout = 30

unfoldable pub check_yum_usable : Host → Outcome (Unit {0})
check_yum_usable h =
    if not h.yum_exists
    then end unknown_status (yum & " cannot be found")
    else if not h.yum_is_file
    then end unknown_status (yum & " is not a file")
    else if not h.yum_executable
    then end unknown_status (yum & " is not executable")
    else returned tt

-- `int(value)`, with the default for `None`; `none` is the ValueError
abbrev pub as_int : ℕ → Setting → Option ℤ
as_int default missing = some (pos default)
as_int default (number n) = some n
as_int default (text s) = parse_int s

abbrev pub in_range : Option ℤ → Outcome ℕ
in_range none =
    end unknown_status "Timeout must be an whole number, representing the timeout in seconds"
in_range (some (negsuc n)) =
    end unknown_status "Timeout must be a number between 1 and 3600 seconds"
in_range (some (pos n)) =
    if ltb n 1 || ltb 3600 n
    then end unknown_status "Timeout must be a number between 1 and 3600 seconds"
    else returned n

abbrev pub not_negative : Option ℤ → Outcome ℕ
not_negative none = end unknown_status "Invalid verbosity type, must be positive numeric integer"
not_negative (some (negsuc n)) =
    end unknown_status "Invalid verbosity type, must be positive numeric integer"
not_negative (some (pos n)) = returned n

unfoldable pub validate_all_variables : Tester → Outcome Tester
validate_all_variables t = do
  timeout ← in_range (as_int default_timeout t.timeout)
  verbosity ← not_negative (as_int 0 t.verbosity)
  returned (record t { timeout = number (pos timeout); verbosity = number (pos verbosity) })

-- one option for every part of a list that is separated by commas
abbrev each_option : String → List String → String
each_option flag [] = ""
each_option flag (repo ∷ repos) = flag & repo & each_option flag repos

abbrev options_for : String → Option String → String
options_for flag none = ""
options_for flag (some s) = if is_empty s then "" else each_option flag (split_on b',' s)

abbrev option_for : String → Option String → String
option_for flag none = ""
option_for flag (some s) = if is_empty s then "" else flag & s

-- the command with the options that the settings add to it
unfoldable pub with_options : Tester → String → String
with_options t cmd =
    if contains "updateinfo" cmd
    then cmd
    else cmd
      & (if t.no_cache_update then " -C" else "")
      & options_for " --enablerepo=" t.enable_repo
      & options_for " --disablerepo=" t.disable_repo
      & option_for " --disableplugin=" t.disable_plugin
      & options_for " --config=" t.yum_config

abbrev pub spawned : String → String ⊎ Process → Outcome Process
spawned cmd (inr p) = returned p
spawned cmd (inl error) = do
  utility ← item 0 (split cmd)
  (if str_eq error "No such file or directory"
      then end unknown_status ("Cannot find utility '" & utility & "'")
      else end unknown_status ("Error trying to run utility '" & utility & "' - " & error))

-- the loop over the output
unfoldable pub check_lines : List String → Outcome (Unit {0})
check_lines [] = returned tt
check_lines (line ∷ lines) =
    let rest = check_lines lines in
    if contains "Permission denied" line
    then end unknown_status line
    else if contains "Skipping unreadable repository" line
    then end unknown_status line
    else rest

unfoldable pub run : Tester → Host → String → Outcome (List String)
run t h cmd = do
  when (is_empty cmd)
      (end unknown_status "Internal python error - no cmd supplied for run function")
  let full = with_options t cmd
  p ← spawned full (h.popen (split full))
  when (is_empty p.stdout) (do
    utility ← item 0 (split full)
    end unknown_status ("No output from utility '" & utility & "'"))
  let output = split_on b'\n' p.stdout
  check_lines output
  check_returncode t.no_warn_on_lock h.dnf_exists p.returncode output
  returned output
