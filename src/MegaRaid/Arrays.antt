-- ===== src/MegaRaid/Arrays.antt =====
-- `test_raid` and the summaries of older/check_lsi_megaraid.py.
use nagios_plugins.Base.{
  ℕ, ◌+◌, String, Bool, Option, none, some, List, [], ◌∷◌, ◌++◌, ◌==◌, str_eq, if◌then◌else◌,
  length, get_last_or,
}
use nagios_plugins.Base.Int.{ℤ, pos, ◌+ℤ◌}
use nagios_plugins.Base.Dict.{Dict, lookup, insert, keys}
use nagios_plugins.Text.{◌&◌, contains, split, split_on, tail_from, init, rstrip, text_functions}
use nagios_plugins.Text.Decimal.{show, show_ℤ, parse_int}
use nagios_plugins.Text.Sort.{sort}
use nagios_plugins.Nagios.{
  ok_status, warning_status, critical_status, Outcome, returned, raised, item, or_raise,
  value_error, key_error, unbound_local, at_least, ◌>>=◌,
}
use nagios_plugins.MegaRaid.Utility.{run, get_controllers, end, numbers_of, failed}

-- The lists in `array_details`: the state, and the RAID levels that were appended to it.
pub record Drive : Type 0 where
  pub state : String
  pub levels : List String

abbrev pub Details : Type 0
Details = Dict Drive

-- `array_details[logical_drive].append(raid_level)`; the variable may not have been set yet
abbrev append_level : Option String → String → Details → Outcome Details
append_level none level d = raised unbound_local
append_level (some name) level d = do
  drive ← or_raise key_error (lookup name d)
  returned (insert name (record drive { levels = drive.levels ++ level ∷ [] }) d)

-- What a line does to the variable `logical_drive` and to `array_details`, by its two tests.
unfoldable pub read_status : String → Option String × Details → Outcome (Option String × Details)
read_status line (current, d) =
    if contains "Status:" line
    then (do
      let state = init (tail_from 1 (get_last_or "" (split_on b':' line)))
      word ← item 3 (split line)
      let name = init word
      returned (some name, insert name (record { state = state; levels = [] }) d))
    else returned (current, d)

unfoldable pub read_level : String → Option String × Details → Outcome (Option String × Details)
read_level line (current, d) =
    if contains "RaidLevel:" line
    then (do level ← item 3 (split line); d' ← append_level current level d; returned (current, d'))
    else returned (current, d)

unfoldable pub read_details :
    List String → Option String × Details → Outcome (Option String × Details)
read_details [] s = returned s
read_details (line ∷ lines) s = do
  s' ← read_status line s
  s'' ← read_level line s'
  read_details lines s''

pub record Tally : Type 0 where
  pub status : ℕ
  pub message : String
  pub number_arrays : ℕ
  pub non_optimal : ℕ

abbrev pub start : Tally
start = record { status = ok_status; message = ""; number_arrays = 0; non_optimal = 0 }

-- One round of the loop over the arrays of a controller.
unfoldable pub test_drive : ℤ → Details → String → Tally → Outcome Tally
test_drive controller d name t = do
  drive ← or_raise key_error (lookup name d)
  (if str_eq drive.state "OPTIMAL" then returned t else (do
    level ← item 0 drive.levels
    number ← or_raise value_error (parse_int name)
    returned (record t {
      non_optimal = t.non_optimal + 1;
      message =
          t.message
          & "Array "
          & show_ℤ (number +ℤ pos 1)
          & " status is \""
          & drive.state
          & "\"(Raid-"
          & level
          & " on adapter "
          & show_ℤ controller
          & "), ";
      status = critical_status;
    })))

unfoldable pub test_drives : ℤ → Details → List String → Tally → Outcome Tally
test_drives controller d [] t = returned t
test_drives controller d (name ∷ names) t = do
  t' ← test_drive controller d name t
  test_drives controller d names t'

-- What the details of one controller do to the tally.
unfoldable pub test_controller : ℤ → Details → Tally → Outcome Tally
test_controller controller [] t = returned (record t {
  message = t.message & "No arrays found on controller " & show_ℤ controller & ". ";
  status = if t.status == ok_status then warning_status else t.status;
})
test_controller controller (entry ∷ entries) t =
    let names = sort (keys (entry ∷ entries)) in
    test_drives controller (entry ∷ entries) names
      (record t { number_arrays = t.number_arrays + length names })

unfoldable pub add_status_summary : ℕ → String → ℕ → String
add_status_summary status message non_optimal =
    if status == ok_status
    then message & "All arrays OK"
    else if non_optimal == 1
    then show non_optimal & " array not OK - " & message
    else show non_optimal & " arrays not OK - " & message

unfoldable pub add_checked_summary : String → ℕ → ℕ → String
add_checked_summary message number_arrays number_controllers =
    message
    & " ["
    & show number_arrays
    & " array"
    & (if number_arrays == 1 then "" else "s")
    & " checked on "
    & show number_controllers
    & " controller"
    & (if number_controllers == 1 then "]" else "s]")

-- The lines behind the loops of `test_raid`.
unfoldable pub conclude : Bool → ℕ → Tally → ℕ × String
conclude no_summary number_controllers t =
    let summed = add_status_summary t.status t.message t.non_optimal in
    let message = rstrip (λ c. c == b',') (rstrip (λ c. c == b' ') summed) in
    (
      t.status,
      if no_summary
          then message
          else add_checked_summary message t.number_arrays number_controllers,
    )

module _ (bin : String) (shell : String → ℤ × String) (orders_none : Bool)
    (verbosity : Option ℕ) where
  -- The loop over the controllers; `logical_drive` keeps its value from one to the next.
  unfoldable pub test_each : Option String → List ℤ → Tally → Outcome Tally
  test_each current [] t = returned t
  test_each current (controller ∷ controllers) t = do
    lines ← run bin shell ("-dispCfg -a" & show_ℤ controller)
    loud ← at_least orders_none verbosity 3
    (current', d) ← read_details lines (current, [])
    t' ← test_controller controller d t
    test_each current' controllers t'

  unfoldable pub test_raid : (no_summary : Bool) → Outcome (ℕ × String)
  test_raid no_summary = do
    controllers ← get_controllers bin shell orders_none verbosity
    t ← test_each none controllers start
    returned (conclude no_summary (length controllers) t)

-- For tests: computes with the whole script.
unfoldable pub script : Unit {0}
unfolding test_raid test_each test_controller test_drives test_drive read_details read_status
    read_level conclude add_status_summary add_checked_summary get_controllers numbers_of run failed
    end show show_ℤ parse_int sort ◌+ℤ◌ text_functions
script = tt
