-- ===== src/ThreeWare/Drives.antt =====
-- `test_drives` of older/check_3ware_raid.py.
pub mod Status
use nagios_plugins.Base.{
  ℕ, ◌+◌, String, Bool, true, false, not, ◌&&◌, ◌||◌, List, [], ◌∷◌, ◌==◌, str_eq, length,
  if◌then◌else◌,
}
use nagios_plugins.Text.{◌&◌, split, tail_from, starts_with, is_empty}
use nagios_plugins.Nagios.{critical_status, Outcome, returned, raised, index_error, item, ◌>>=◌}
use nagios_plugins.ThreeWare.Utility.{Attempt, run}
use nagios_plugins.ThreeWare.Report.{Tally, start, conclude}

abbrev lead_word : List String → List String → List String
lead_word [] names = names
lead_word (name ∷ _) names = name ∷ names

-- the first loop: the first word of every line that has one
unfoldable pub first_words : List String → List String
first_words [] = []
first_words (line ∷ lines) = lead_word (split line) (first_words lines)

-- `word[1:]` if `word[0]` is the letter; an empty word has no `word[0]`
abbrev without : String → String → Outcome String
without letter word =
    if is_empty word
    then raised index_error
    else returned (if starts_with word letter then tail_from 1 word else word)

-- the states in which a drive counts as sound, by the option -w
unfoldable pub is_passed : Bool → String → Bool
is_passed warn_true state =
    str_eq state "OK"
    || str_eq state "NOT-PRESENT"
    || (not warn_true
        && (str_eq state "VERIFYING" || str_eq state "REBUILDING" || str_eq state "INITIALIZING"))

unfoldable pub failed_drive : String → List String → String → Tally → Outcome Tally
failed_drive controller words state t = do
  port ← item 0 words
  drive ← without "d" port
  unit ← item 2 words
  array ← without "u" unit
  returned (record t {
    message =
        t.message
        & "Status of drive in port "
        & drive
        & " is '"
        & state
        & "'(Array "
        & array
        & " on adapter "
        & tail_from 1 controller
        & "), ";
    not_ok = t.not_ok + 1;
    status = critical_status;
  })

-- One round of the inner loop.
unfoldable pub test_drive : Bool → String → String → Tally → Outcome Tally
test_drive warn_true controller drive_line t = do
  let words = split drive_line
  state ← item 1 words
  (if is_passed warn_true state then returned t else failed_drive controller words state t)

unfoldable pub test_drive_lines : Bool → String → List String → Tally → Outcome Tally
test_drive_lines warn_true controller [] t = returned t
test_drive_lines warn_true controller (line ∷ lines) t = do
  t' ← test_drive warn_true controller line t
  test_drive_lines warn_true controller lines t'

module _ (bin : String) (tw_cli : String → Attempt) where
  unfoldable pub test_ports : Bool → List String → Tally → Outcome Tally
  test_ports warn_true [] t = returned t
  test_ports warn_true (controller ∷ controllers) t = do
    drive_lines ← run bin tw_cli ("/" & controller & " show drivestatus")
    t' ←
        test_drive_lines warn_true controller drive_lines
          (record t { number = t.number + length drive_lines })
    test_ports warn_true controllers t'

  unfoldable pub test_drives : (warn_true no_summary : Bool) → Outcome (ℕ × String)
  test_drives warn_true no_summary = do
    lines ← run bin tw_cli "show"
    let controllers = first_words lines
    t ← test_ports warn_true controllers start
    returned (conclude no_summary "drives" (length controllers) t)
