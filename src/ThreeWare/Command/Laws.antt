-- ===== src/ThreeWare/Command/Laws.antt =====
-- How `test_all` and `main` of older/check_3ware_raid.py put the two tests together.
use nagios_plugins.Base.{ℕ, max, String, Bool, ◌&&◌, not, ◌≡◌, arith, ◌==◌, if◌then◌else◌}
use nagios_plugins.Text.{◌&◌}
use nagios_plugins.Nagios.{returned}
use nagios_plugins.ThreeWare.Utility.{Attempt}
use nagios_plugins.ThreeWare.Arrays.{test_arrays}
use nagios_plugins.ThreeWare.Drives.{test_drives}
use nagios_plugins.ThreeWare.Command.{combine, test_all}

-- When both tests return, so does `test_all`: the status is the worse of the two, and the message
-- is that of the arrays alone exactly if the drives are OK and -s was not given.
pub test_all_lem :
    (bin : String) (tw_cli : String → Attempt) (warn_true no_summary show_drives : Bool) (a d : ℕ)
    (array_message drive_message : String)
    → test_arrays bin tw_cli warn_true no_summary ≡ returned (a, array_message)
    → test_drives bin tw_cli warn_true no_summary ≡ returned (d, drive_message)
    → test_all bin tw_cli warn_true no_summary show_drives
      ≡ returned (
        max a d,
        if d == 0 && not show_drives
            then array_message
            else if a == 0 && not (d == 0)
            then "Arrays OK but... " & drive_message
            else array_message & ", " & drive_message,
      )
unfolding test_all combine
test_all_lem bin tw_cli warn_true no_summary show_drives a d array_message drive_message arrays
      drives =
    rw (arrays, drives) (ground arith)
