-- ===== src/ThreeWare/Tests.antt =====
-- Runs of older/check_3ware_raid.py on a machine with one controller, and the theorems there.
use nagios_plugins.Base.{
  max, String, Bool, true, false, none, List, [], ◌∷◌, ◌≡◌, refl, str_eq, if◌then◌else◌, All,
  length, max_of, sum_of,
}
use nagios_plugins.Base.Int.{pos}
use nagios_plugins.Text.{◌&◌}
use nagios_plugins.Nagios.{returned, exited}
use nagios_plugins.ThreeWare.Utility.{Attempt, ended, run}
use nagios_plugins.ThreeWare.Report.{Tally, conclude}
use nagios_plugins.ThreeWare.Arrays.{test_arrays, controllers_of}
use nagios_plugins.ThreeWare.Arrays.Status
use nagios_plugins.ThreeWare.Arrays.Status.{IsUnitLine, test_arrays_total}
use nagios_plugins.ThreeWare.Drives.{test_drives, first_words}
use nagios_plugins.ThreeWare.Drives.Status as DriveStatus
use nagios_plugins.ThreeWare.Drives.Status.{IsDriveLine, test_drives_total}
use nagios_plugins.ThreeWare.Command.{Options, Host, main, test_all, script}
use nagios_plugins.ThreeWare.Command.Laws.{test_all_lem}

abbrev unit_line : String
unit_line = "u0 RAID-5 VERIFYING - 42 64K"

abbrev drive_line : String
drive_line = "p0 VERIFYING u0 931GB"

abbrev framed : String → Attempt
framed line = ended false (pos 0) ("\nhead\n----\n" & line & "\n\n")

abbrev card : String → Attempt
card command =
    if str_eq command "show"
    then framed "c0 9650SE-4LPML 4 4 1"
    else if str_eq command "/c0 show unitstatus"
    then framed unit_line
    else framed drive_line

abbrev host : Host
host = record {
  is_root = true;
  srcdir = "/opt";
  arch = "x86_64";
  exists = λ p. str_eq p "/opt/tw_cli_64";
  executable = λ p. true;
  tw_cli = card;
}

abbrev options : Bool → Options
options warn_true = record {
  has_args = false;
  arrays_only = false;
  binary = none;
  drives_only = false;
  no_summary = false;
  show_drives = false;
  warn_true = warn_true;
  version = false;
}

quiet_by_default :
    main "1" (options false) host
    ≡ exited 0
        "RAID OK: All arrays OK - Array 0 status is 'VERIFYING'(RAID-5 on adapter 0) - Verify Status: 42% complete [1 array checked on 1 controller]"
unfolding script
quiet_by_default = refl

critical_under_warn :
    main "1" (options true) host
    ≡ exited 2
        "RAID CRITICAL: 1 array not OK - Array 0 status is 'VERIFYING'(RAID-5 on adapter 0) - Verify Status: 42% complete [1 array checked on 1 controller], 1 drive not OK - Status of drive in port p0 is 'VERIFYING'(Array 0 on adapter 0) [1 drive checked on 1 controller]"
unfolding script
critical_under_warn = refl

abbrev shown : List String
shown = "c0 9650SE-4LPML 4 4 1" ∷ []

show-card : run "/opt/tw_cli_64" card "show" ≡ returned shown
unfolding script
show-card = refl

controllers-card : controllers_of shown ≡ returned ("c0" ∷ [])
unfolding script
controllers-card = refl

first_words-card : first_words shown ≡ "c0" ∷ []
unfolding script
first_words-card = refl

unit_line-IsUnitLine : IsUnitLine unit_line
unfolding script
unit_line-IsUnitLine = record {
  name = "u0";
  raid = "RAID-5";
  state = "VERIFYING";
  rebuilt = "-";
  verified = "42";
  more = "64K" ∷ [];
  words = refl;
  unit = pos 0;
  unit_number = refl;
}

drive_line-IsDriveLine : IsDriveLine drive_line
unfolding script
drive_line-IsDriveLine = record {
  port = "p0";
  state = "VERIFYING";
  unit = "u0";
  more = "931GB" ∷ [];
  words = refl;
  port_some = refl;
  unit_some = refl;
}

abbrev units : String → List String
units c = unit_line ∷ []

abbrev drives : String → List String
drives c = drive_line ∷ []

units-Lists : All (Status.Lists true "/opt/tw_cli_64" card units) ("c0" ∷ [])
unfolding script
units-Lists = ((refl, (unit_line-IsUnitLine, tt)), tt)

drives-Lists : All (DriveStatus.Lists true "/opt/tw_cli_64" card drives) (first_words shown)
unfolding script
drives-Lists = ((refl, (drive_line-IsDriveLine, tt)), tt)

test_arrays_total_example :
    let found = Status.all_units true "/opt/tw_cli_64" card units ("c0" ∷ []) in
    (t : Tally) × (test_arrays "/opt/tw_cli_64" card true false
      ≡ returned (conclude false "arrays" 1 t))
    × (t.status ≡ max_of (λ l. Status.severity true (Status.state_of l)) found)
    × (t.not_ok ≡ sum_of (λ l. Status.reported true (Status.state_of l)) found)
    × (t.number ≡ length found)
test_arrays_total_example =
    test_arrays_total "/opt/tw_cli_64" card units true false shown ("c0" ∷ []) show-card
      controllers-card units-Lists

test_drives_total_example :
    let found = DriveStatus.all_drives true "/opt/tw_cli_64" card drives (first_words shown) in
    (t : Tally) × (test_drives "/opt/tw_cli_64" card true false
      ≡ returned (conclude false "drives" (length (first_words shown)) t))
    × (t.status ≡ max_of (λ l. DriveStatus.severity true (DriveStatus.state_of l)) found)
    × (t.not_ok ≡ sum_of (λ l. DriveStatus.reported true (DriveStatus.state_of l)) found)
    × (t.number ≡ length found)
test_drives_total_example =
    test_drives_total "/opt/tw_cli_64" card drives true false shown show-card drives-Lists

abbrev arrays_message : String
arrays_message =
    "All arrays OK - Array 0 status is 'VERIFYING'(RAID-5 on adapter 0) - Verify Status: 42% complete"

arrays-card : test_arrays "/opt/tw_cli_64" card false true ≡ returned (0, arrays_message)
unfolding script
arrays-card = refl

drives-card : test_drives "/opt/tw_cli_64" card false true ≡ returned (0, "All drives OK")
unfolding script
drives-card = refl

test_all_lem_example :
    test_all "/opt/tw_cli_64" card false true true
    ≡ returned (max 0 0, arrays_message & ", " & "All drives OK")
test_all_lem_example =
    test_all_lem "/opt/tw_cli_64" card false true true 0 0 arrays_message "All drives OK"
      arrays-card drives-card
