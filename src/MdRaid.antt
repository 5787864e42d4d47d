-- ===== src/MdRaid.antt =====
-- older/check_md_raid.py: the check of the Linux software RAID arrays.
-- The utility's answers are the parameter `popen`, from a command to the lines of its output with
-- their newlines; it is one function, so the machine does not change during a run. The lines that
-- are printed for debugging at a higher verbosity are left out.
pub mod Status
pub mod Devices
mod Tests
use nagios_plugins.Base.{
  ℕ, zero, suc, ◌+◌, String, Bool, true, false, not, Option, none, some, List, [], ◌∷◌, ◌++◌, ◌==◌,
  str_eq, length, get_last_or, if◌then◌else◌,
}
use nagios_plugins.Text.{
  ◌&◌, text_functions, contains, split, split_on, is_falsy, upper, tail_from, init, rstrip,
  is_space,
}
use nagios_plugins.Text.Decimal.{show}
use nagios_plugins.Text.Sort.{sort}
use nagios_plugins.Regex.{Re, bol, eol, lit, optional, all_of, any_of, re_match, found}
use nagios_plugins.Nagios.{
  ok_status, warning_status, critical_status, unknown_status, Outcome, returned, exited, raised,
  index_error, item, or_raise, ◌>>=◌,
}

unfoldable pub end {ℓ} : {A : Type ℓ} → ℕ → String → Outcome A
end status message =
    if status == ok_status
    then exited ok_status ("RAID OK: " & message)
    else if status == warning_status
    then exited warning_status ("RAID WARNING: " & message)
    else if status == critical_status
    then exited critical_status ("RAID CRITICAL: " & message)
    else exited unknown_status ("UNKNOWN: " & message)

-- The statements at the top of the script: the utility's path, with `sudo` for a plain user.
unfoldable pub raid_utility : (exists executable is_root : Bool) → Outcome String
raid_utility exists executable is_root =
    if not exists
    then end unknown_status "Raid utility '/sbin/mdadm' cannot be found"
    else if not executable
    then end unknown_status "Raid utility '/sbin/mdadm' is not executable"
    else returned (if is_root then "/sbin/mdadm" else "sudo -n /sbin/mdadm")

-- `xs[-1]`
abbrev pub last_item {ℓ} : {A : Type ℓ} → List A → Outcome A
last_item [] = raised index_error
last_item (x ∷ xs) = returned (get_last_or x xs)

-- the loop of `find_arrays`
unfoldable pub scan : List String → List String → Outcome (List String)
scan found_devices [] = returned found_devices
scan found_devices (line ∷ lines) =
    let next = (do
      raid_device ← item 1 (split line)
      scan (found_devices ++ raid_device ∷ []) lines) in
    let skip = scan found_devices lines in
    if contains "sudo: a password is required" line
    then end unknown_status "You must be root, or have passwordless sudo to run this plugin"
    else if contains "mdadm: must be super-user to perform this action" line
    then end unknown_status "You must be root, or have working sudo to run this plugin"
    else if contains "ARRAY" line
    then next
    else skip

abbrev sorted_or_end : List String → Outcome (List String)
sorted_or_end [] = end unknown_status "no MD raid devices found on this machine"
sorted_or_end (d ∷ ds) = returned (sort (d ∷ ds))

unfoldable pub find_arrays : String → (String → List String) → Outcome (List String)
find_arrays bin popen = do
  raid_devices ← scan [] (popen (bin & " --detail --scan 2>&1"))
  sorted_or_end raid_devices

-- the state that the last "State :" line of an array's details gives
unfoldable pub state_from : String → List String → String
state_from state [] = state
state_from state (line ∷ lines) =
    state_from
      (if contains "State :" line
        then rstrip is_space (init (tail_from 1 (get_last_or "" (split_on b':' line))))
        else state)
      lines

-- `^clean(, no-errors)?$|^active$`
abbrev re_clean : Re
re_clean = any_of (
    all_of (bol ∷ lit "clean" ∷ optional (lit ", no-errors") ∷ eol ∷ [])
    ∷ all_of (bol ∷ lit "active" ∷ eol ∷ [])
    ∷ [])

unfoldable pub is_clean : String → Bool
is_clean state = found (re_match re_clean state)

unfoldable pub rebuild_status : Option String → List String → Option String
rebuild_status info [] = info
rebuild_status info (line ∷ lines) =
    rebuild_status (if contains "Rebuild Status" line then some (rstrip is_space line) else info)
      lines

pub record Tally : Type 0 where
  pub status : ℕ
  pub message : String
  pub arrays_not_ok : ℕ

-- `s == n` for a string and a number is False in Python.
abbrev str_eq_int : String → ℕ → Bool
str_eq_int s n = false

abbrev detail_of : String → String → Option String → String
detail_of state raidlevel none = "\"" & state & "\" (" & raidlevel & ")"
detail_of state raidlevel (some extra) =
    if is_falsy (some extra)
    then "\"" & state & "\" (" & raidlevel & ")"
    else "\"" & state & "\" (" & raidlevel & ") - " & extra

-- What one array that is not clean does to the status and the message.
unfoldable pub report : String → String → String → List String → Tally → Tally
report state raidlevel shortname output t =
    if str_eq state "dirty"
    then t
    else if contains "recovering" state
    then record t {
      message =
          t.message
          & "Array \""
          & shortname
          & "\" is in state "
          & detail_of state raidlevel (rebuild_status none output)
          & ", ";
      status = if t.status == ok_status then warning_status else t.status;
    }
    else if str_eq state "unknown"
    then record t {
      message = t.message & "State of Raid Array \"" & shortname & "\" is unknown, ";
      status = if str_eq_int state ok_status then unknown_status else t.status;
    }
    else record t {
      message =
          t.message & "Array " & shortname & " is in state \"" & state & "\" (" & raidlevel & "), ";
      status = critical_status;
    }

-- One round of the loop over the arrays.
unfoldable pub test_array : String → List String → Tally → Outcome Tally
test_array array output t =
    let state = state_from "unknown" output in
    if is_clean state then returned t else (do
      raid_line ← item 3 output
      raidlevel ← last_item (split raid_line)
      let shortname = upper (get_last_or "" (split_on b'/' array))
      returned (
          report state raidlevel shortname output
            (record t { arrays_not_ok = t.arrays_not_ok + 1 })))

unfoldable pub test_each : String → (String → List String) → List String → Tally → Outcome Tally
test_each bin popen [] t = returned t
test_each bin popen (array ∷ arrays) t = do
  t' ← test_array array (popen (bin & " --detail " & array & " 2>&1")) t
  test_each bin popen arrays t'

abbrev comma_or_space : ℕ → Bool
comma_or_space c = if c == b',' then true else c == b' '

abbrev with_number : Tally → String → String
with_number t message =
    if t.status == ok_status
    then message & "All arrays OK"
    else if t.arrays_not_ok == 1
    then "1 array not ok - " & message
    else show t.arrays_not_ok & " arrays not ok - " & message

abbrev with_checked : ℕ → String → String
with_checked n message =
    if n == 1 then message & " [1 array checked]" else message & " [" & show n & " arrays checked]"

-- the status and the message, from what the loop has gathered
unfoldable pub summary : ℕ → Tally → ℕ × String
summary number_arrays t =
    (t.status, with_checked number_arrays (with_number t (rstrip comma_or_space t.message)))

abbrev pub start : Tally
start = record { status = ok_status; message = ""; arrays_not_ok = 0 }

unfoldable pub test_raid : String → (String → List String) → Outcome (ℕ × String)
test_raid bin popen = do
  raid_devices ← find_arrays bin popen
  t ← test_each bin popen raid_devices start
  returned (summary (length raid_devices) t)

-- `main` without the version switch
unfoldable pub main :
    (exists executable is_root : Bool) → (String → List String) → Outcome (Unit {0})
main exists executable is_root popen = do
  bin ← raid_utility exists executable is_root
  (result, message) ← test_raid bin popen
  end result message

-- For tests: computes with the whole script.
unfoldable pub script : Unit {0}
unfolding main test_raid raid_utility end find_arrays scan sort test_each test_array state_from
    is_clean re_match report rebuild_status summary show text_functions
script = tt
