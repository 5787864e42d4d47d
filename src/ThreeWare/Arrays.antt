-- ===== src/ThreeWare/Arrays.antt =====
-- `test_arrays` of older/check_3ware_raid.py.
pub mod Status
use nagios_plugins.Base.{
  ℕ, ◌+◌, String, Bool, true, false, ◌&&◌, ◌||◌, Option, none, some, List, [], ◌∷◌, ◌==◌, str_eq,
  length, if◌then◌else◌,
}
use nagios_plugins.Base.Int.{ℤ}
use nagios_plugins.Text.{◌&◌, split, tail_from, starts_with}
use nagios_plugins.Text.Decimal.{show_ℤ, parse_int}
use nagios_plugins.Nagios.{
  ok_status, warning_status, critical_status, Outcome, returned, item, or_raise, value_error, ◌>>=◌,
}
use nagios_plugins.ThreeWare.Utility.{Attempt, run}
use nagios_plugins.ThreeWare.Report.{Tally, start, conclude}

-- the list comprehension `controllers`
unfoldable pub controllers_of : List String → Outcome (List String)
controllers_of [] = returned []
controllers_of (line ∷ lines) =
    let rest = controllers_of lines in
    if starts_with line "c"
    then (do name ← item 0 (split line); names ← rest; returned (name ∷ names))
    else rest

-- a state in which the unit works, and is being rebuilt, verified or initialised
unfoldable pub is_transient : String → Bool
is_transient state =
    str_eq state "REBUILDING"
    || str_eq state "VERIFY-PAUSED"
    || str_eq state "VERIFYING"
    || str_eq state "INITIALIZING"

abbrev activity : String → String
activity state =
    if str_eq state "REBUILDING"
    then "Rebuild "
    else if str_eq state "VERIFY-PAUSED" || str_eq state "VERIFYING"
    then "Verify "
    else if str_eq state "INITIALIZING"
    then "Initializing "
    else ""

-- the column that holds the progress
abbrev percent_column : String → ℕ
percent_column state =
    if str_eq state "VERIFY-PAUSED" || str_eq state "VERIFYING" || str_eq state "INITIALIZING"
    then 4
    else 3

abbrev described : String → String → ℤ → String → String → String
described message controller unit state raid =
    message
    & "Array "
    & show_ℤ unit
    & " status is '"
    & state
    & "'("
    & raid
    & " on adapter "
    & tail_from 1 controller
    & ")"

-- the number of a unit: `int(unit_line[0][1:])`
abbrev unit_of : List String → Outcome ℤ
unit_of words = do name ← item 0 words; or_raise value_error (parse_int (tail_from 1 name))

-- a unit that is being worked on
unfoldable pub transient_unit : Bool → String → List String → String → Tally → Outcome Tally
transient_unit warn_true controller words state t = do
  unit ← unit_of words
  raid ← item 1 words
  percent ← item (percent_column state) words
  let message =
      described t.message controller unit state raid
      & " - "
      & activity state
      & "Status: "
      & percent
      & "% complete, "
  returned (
      if warn_true
      then record t {
        message = message;
        not_ok = t.not_ok + 1;
        status = if t.status == ok_status then warning_status else t.status;
      }
      else record t { message = message })

unfoldable pub failed_unit : String → List String → String → Tally → Outcome Tally
failed_unit controller words state t = do
  unit ← unit_of words
  raid ← item 1 words
  returned (record t {
    message = described t.message controller unit state raid & ", ";
    not_ok = t.not_ok + 1;
    status = critical_status;
  })

-- One round of the inner loop.
unfoldable pub test_unit : Bool → String → String → Tally → Outcome Tally
test_unit warn_true controller unit_line tally = do
  let t = record tally { number = tally.number + 1 }
  let words = split unit_line
  state ← item 2 words
  (if str_eq state "OK"
      then returned t
      else if is_transient state
      then transient_unit warn_true controller words state t
      else failed_unit controller words state t)

unfoldable pub test_units : Bool → String → List String → Tally → Outcome Tally
test_units warn_true controller [] t = returned t
test_units warn_true controller (line ∷ lines) t = do
  t' ← test_unit warn_true controller line t
  test_units warn_true controller lines t'

module _ (bin : String) (tw_cli : String → Attempt) where
  unfoldable pub test_controllers : Bool → List String → Tally → Outcome Tally
  test_controllers warn_true [] t = returned t
  test_controllers warn_true (controller ∷ controllers) t = do
    unit_lines ← run bin tw_cli ("/" & controller & " show unitstatus")
    t' ← test_units warn_true controller unit_lines t
    test_controllers warn_true controllers t'

  unfoldable pub test_arrays : (warn_true no_summary : Bool) → Outcome (ℕ × String)
  test_arrays warn_true no_summary = do
    lines ← run bin tw_cli "show"
    controllers ← controllers_of lines
    t ← test_controllers warn_true controllers start
    returned (conclude no_summary "arrays" (length controllers) t)
