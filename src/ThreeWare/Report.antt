-- ===== src/ThreeWare/Report.antt =====
-- The summaries that `test_arrays` and `test_drives` of older/check_3ware_raid.py share, and the
-- counts that their loops keep.
use nagios_plugins.Base.{ℕ, String, Bool, ◌||◌, ◌==◌, str_eq, if◌then◌else◌}
use nagios_plugins.Text.{◌&◌, text_functions, rstrip}
use nagios_plugins.Text.Decimal.{show}
use nagios_plugins.Nagios.{ok_status}

unfoldable pub add_status_summary : ℕ → String → ℕ → String → String
add_status_summary status message number_failed device =
    let name =
      if str_eq device "arrays"
      then (if number_failed == 1 then "array" else device)
      else if str_eq device "drives"
      then (if number_failed == 1 then "drive" else device)
      else "[unknown devices, please check code]" in
    if status == ok_status
    then (if str_eq message ""
        then "All " & name & " OK" & message
        else "All " & name & " OK - " & message)
    else show number_failed & " " & name & " not OK - " & message

unfoldable pub add_checked_summary : String → ℕ → ℕ → String → String
add_checked_summary message number_devices number_controllers device =
    let name =
      if str_eq device "arrays"
      then (if number_devices == 1 then "array" else device)
      else if str_eq device "drives"
      then (if number_devices == 1 then "drive" else device)
      else "[unknown devices, please check code]" in
    let controller = if number_controllers == 1 then "controller" else "controllers" in
    message
    & " ["
    & show number_devices
    & " "
    & name
    & " checked on "
    & show number_controllers
    & " "
    & controller
    & "]"

-- What the loops gather: `number` counts the devices, `not_ok` those that are reported as failed.
pub record Tally : Type 0 where
  pub status : ℕ
  pub message : String
  pub number : ℕ
  pub not_ok : ℕ

abbrev pub start : Tally
start = record { status = ok_status; message = ""; number = 0; not_ok = 0 }

abbrev comma_or_space : ℕ → Bool
comma_or_space c = c == b',' || c == b' '

-- The lines behind the loops of `test_arrays` and `test_drives`.
unfoldable pub conclude : Bool → String → ℕ → Tally → ℕ × String
conclude no_summary device number_controllers t =
    let message = add_status_summary t.status (rstrip comma_or_space t.message) t.not_ok device in
    (
      t.status,
      if no_summary
          then message
          else add_checked_summary message t.number number_controllers device,
    )

-- For tests: computes with the functions of this file and its child `Utility`.
unfoldable pub reports : Unit {0}
unfolding add_status_summary add_checked_summary conclude show text_functions
reports = tt
