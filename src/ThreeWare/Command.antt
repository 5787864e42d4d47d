-- ===== src/ThreeWare/Command.antt =====
-- `test_all` and `main` of older/check_3ware_raid.py. The parser of the options is the library's;
-- its result is the record `Options`. The lines of help are left out of what is printed.

pub mod Laws
use nagios_plugins.Base.{
  ℕ, String, Bool, true, false, not, ◌&&◌, Option, none, some, List, [], ◌∷◌, ◌==◌, ltb,
  if◌then◌else◌,
}
use nagios_plugins.Text.{◌&◌}
use nagios_plugins.Nagios.{ok_status, unknown_status, Outcome, returned, exited, ◌>>=◌}
use nagios_plugins.ThreeWare.Utility.{Attempt, end, set_twcli_binary, run, answer}
use nagios_plugins.Text.Decimal.{parse_int, show_ℤ}
use nagios_plugins.Regex.{re_match}
use nagios_plugins.ThreeWare.Report.{reports}
use nagios_plugins.ThreeWare.Arrays.{
  test_arrays, test_controllers, test_units, test_unit, transient_unit, failed_unit, is_transient,
  controllers_of,
}
use nagios_plugins.ThreeWare.Drives.{
  test_drives, test_ports, test_drive_lines, test_drive, failed_drive, is_passed, first_words,
}

-- The part of `test_all` behind its two calls.
unfoldable pub combine : Bool → ℕ × String → ℕ × String → ℕ × String
combine show_drives (array_result, array_message) (drive_result, drive_message) =
    if not (array_result == ok_status) && drive_result == ok_status && not show_drives
    then (array_result, array_message)
    else (
      if ltb array_result drive_result then drive_result else array_result,
      if not (drive_result == ok_status)
          then (if array_result == ok_status
              then "Arrays OK but... " & drive_message
              else array_message & ", " & drive_message)
          else if show_drives
          then array_message & ", " & drive_message
          else array_message,
    )

unfoldable pub test_all :
    String → (String → Attempt) → (warn_true no_summary show_drives : Bool) → Outcome (ℕ × String)
test_all bin tw_cli warn_true no_summary show_drives = do
  arrays ← test_arrays bin tw_cli warn_true no_summary
  drives ← test_drives bin tw_cli warn_true no_summary
  returned (combine show_drives arrays drives)

pub record Options : Type 0 where
  pub has_args : Bool
  pub arrays_only : Bool
  pub binary : Option String
  pub drives_only : Bool
  pub no_summary : Bool
  pub show_drives : Bool
  pub warn_true : Bool
  pub version : Bool

-- The host: the script's folder, the architecture, the files, and the utility.
pub record Host : Type 0 where
  pub is_root : Bool
  pub srcdir : String
  pub arch : String
  pub exists : String → Bool
  pub executable : String → Bool
  pub tw_cli : String → Attempt

-- the run of the tests that the options ask for
unfoldable pub dispatch : Options → Host → Outcome (Unit {0})
dispatch o h = do
  bin ← set_twcli_binary h.srcdir h.arch h.exists h.executable o.binary
  (if o.arrays_only
      then (do
        (result, output) ← test_arrays bin h.tw_cli o.warn_true o.no_summary
        end false result output)
      else if o.drives_only
      then (do
        (result, output) ← test_drives bin h.tw_cli o.warn_true o.no_summary
        end true result output)
      else (do
        (result, output) ← test_all bin h.tw_cli o.warn_true o.no_summary o.show_drives
        end false result output))

unfoldable pub main : String → Options → Host → Outcome (Unit {0})
main script_version o h =
    if not h.is_root
    then end false unknown_status "You must be root to run this plugin"
    else if o.has_args
    then exited unknown_status ""
    else if o.version
    then exited ok_status script_version
    else if o.arrays_only && o.drives_only
    then exited unknown_status
        "You cannot use the -a and -d switches together, they are mutually exclusive\n"
    else if o.arrays_only && o.show_drives
    then exited unknown_status "No drive information can be printed if you only check arrays\n"
    else if o.drives_only && o.warn_true
    then exited unknown_status "Array warning states are invalid when testing only drives\n"
    else dispatch o h

-- For tests: computes with the whole script.
unfoldable pub script : Unit {0}
unfolding main dispatch test_all combine test_arrays test_controllers test_units test_unit
    transient_unit failed_unit is_transient controllers_of test_drives test_ports test_drive_lines
    test_drive failed_drive is_passed first_words set_twcli_binary run end answer reports re_match
    parse_int show_ℤ
script = tt
