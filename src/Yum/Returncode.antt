-- ===== src/Yum/Returncode.antt =====
-- `end`, `check_returncode` and `strip_output` of check_yum.py.
pub mod Laws
use nagios_plugins.Base.{
  ℕ, String, Bool, true, false, not, ◌&&◌, ◌||◌, Option, none, some, List, [], ◌∷◌, ◌==◌, str_eq,
  if◌then◌else◌, reverse, any, map,
}
use nagios_plugins.Base.Int.{ℤ, pos, negsuc}
use nagios_plugins.Text.{◌&◌, contains, strip, join}
use nagios_plugins.Text.Decimal.{show_ℤ}
use nagios_plugins.Regex as Regex
use nagios_plugins.Regex.{Re, Match, bol, eol, lit, plus, all_of, re_match}
use nagios_plugins.Nagios.{
  ok_status, warning_status, critical_status, unknown_status, Outcome, returned, exited, item, when,
  ◌>>=◌,
}

unfoldable pub end {ℓ} : {A : Type ℓ} → ℕ → String → Outcome A
end status message =
    if status == ok_status
    then exited ok_status ("YUM OK: " & message)
    else if status == warning_status
    then exited warning_status ("YUM WARNING: " & message)
    else if status == critical_status
    then exited critical_status ("YUM CRITICAL: " & message)
    else exited unknown_status ("UNKNOWN: " & message)

-- ^Loading .+ plugin$
abbrev re_loading_plugin : Re
re_loading_plugin = all_of (bol ∷ lit "Loading " ∷ plus Regex.any ∷ lit " plugin" ∷ eol ∷ [])

abbrev without_match : Option Match → String → String
without_match none line = line
without_match (some m) line = m.rest

unfoldable pub strip_output : List String → String
strip_output output =
    strip (join " " (map (λ line. without_match (re_match re_loading_plugin line) line) output))

-- `line in output`, where `output` is a list of lines
abbrev is_line : String → List String → Bool
is_line line output = any (λ l. str_eq l line) output

abbrev equals : ℤ → ℕ → Bool
equals (pos n) m = n == m
equals (negsuc n) m = false

unfoldable pub locked : Bool → List String → Outcome (Unit {0})
locked no_warn_on_lock output = do
  line ← item 1 (reverse output)
  (if contains "lock" line || contains "another copy is running" line
      then end (if no_warn_on_lock then ok_status else warning_status)
          "Cannot check for updates, another instance of yum is running"
      else end unknown_status (strip_output output))

unfoldable pub unexpected : Bool → ℤ → List String → Outcome (Unit {0})
unexpected dnf_exists returncode output =
    if is_line "No more mirrors to try" output
    then end unknown_status
        "connectivity issue to repos: 'No more mirrors to try'. You could also try running --cache-only and scheduling a separate 'yum makecache' via cron or similar"
    else if is_line "Command line error: no such option: --security" output
        || (not (
              is_line "Loading \"security\" plugin" output
              || is_line "Loaded plugins:.*security" output)
            && not dnf_exists)
    then end unknown_status
        "Security plugin for yum is required. Try to 'yum install yum-security' (RHEL5) or 'yum install yum-plugin-security' (RHEL6) and then re-run this plugin. Alternatively, to just alert on any update which does not require the security plugin, try --all-updates"
    else end unknown_status ("exit code: " & show_ℤ returncode & ", output: " & strip_output output)

unfoldable pub check_returncode :
    (no_warn_on_lock dnf_exists : Bool) → ℤ → List String → Outcome (Unit {0})
check_returncode no_warn_on_lock dnf_exists returncode output =
    if equals returncode 0
    then when (any (contains "You must run this command as root") output)
        (end unknown_status "You must run this plugin as root")
    else if equals returncode 100
    then returned tt
    else if equals returncode 200
    then locked no_warn_on_lock output
    else unexpected dnf_exists returncode output
