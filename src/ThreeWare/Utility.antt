-- ===== src/ThreeWare/Utility.antt =====
-- `end`, `_set_twcli_binary` and `run` of older/check_3ware_raid.py.
use nagios_plugins.Base.{
  ℕ, String, Bool, false, not, Option, none, some, List, [], ◌∷◌, ◌==◌, str_eq, if◌then◌else◌, drop,
  take, length, ◌-◌, ◌&&◌, leb,
}
use nagios_plugins.Base.Int.{ℤ, is_zero}
use nagios_plugins.Text.{◌&◌, split_on, is_empty, replace}
use nagios_plugins.Text.Decimal.{show_ℤ}
use nagios_plugins.Regex.{Re, lit, one, all_of, re_match, found}
use nagios_plugins.Nagios.{
  ok_status, warning_status, critical_status, unknown_status, Outcome, returned, exited, when, item,
  ◌>>=◌, ◌>>◌,
}

unfoldable pub end {ℓ} : {A : Type ℓ} → Bool → ℕ → String → Outcome A
end disks status message =
    let check = if disks then "DISKS" else "RAID" in
    if status == ok_status
    then exited ok_status (check & " OK: " & message)
    else if status == warning_status
    then exited warning_status (check & " WARNING: " & message)
    else if status == critical_status
    then exited critical_status (check & " CRITICAL: " & message)
    else exited unknown_status ("UNKNOWN: " & message)

-- i[3456]86
abbrev re_i386 : Re
re_i386 = all_of (lit "i" ∷ one (λ c. leb b'3' c && leb c b'6') ∷ lit "86" ∷ [])

abbrev usable : (String → Bool) → (String → Bool) → String → Outcome String
usable exists executable bin =
    if not (exists bin)
    then end false unknown_status
        ("3ware utility for this architecture '" & bin & "' cannot be found")
    else if not (executable bin)
    then end false unknown_status ("3ware utility '" & bin & "' is not executable")
    else returned bin

-- The binary that the global BIN is set to; `path` is the -b option.
unfoldable pub set_twcli_binary :
    (srcdir arch : String) → (exists executable : String → Bool) → Option String → Outcome String
set_twcli_binary srcdir arch exists executable (some path) =
    if not (is_empty path)
    then usable exists executable path
    else if found (re_match re_i386 arch)
    then usable exists executable (srcdir & "/tw_cli")
    else if str_eq arch "x86_64"
    then usable exists executable (srcdir & "/tw_cli_64")
    else end false unknown_status "architecture is not x86 or x86_64, cannot run 3ware utility"
set_twcli_binary srcdir arch exists executable none =
    if found (re_match re_i386 arch)
    then usable exists executable (srcdir & "/tw_cli")
    else if str_eq arch "x86_64"
    then usable exists executable (srcdir & "/tw_cli_64")
    else end false unknown_status "architecture is not x86 or x86_64, cannot run 3ware utility"

-- What became of the process: an OSError on the way, or its end, with `poll` before the command was
-- sent, the return code and what it printed.
pub data Attempt : Type 0 where
  cannot_start cannot_talk : String → Attempt
  ended : (polled : Bool) → (returncode : ℤ) → (stdout : String) → Attempt

-- `output[3:-2]`
abbrev pub body : List String → List String
body output = drop 3 (take (length output - 2) output)

unfoldable pub answer : Attempt → String → Outcome (List String)
answer (cannot_start error) bin =
    if str_eq error "No such file or directory"
    then end false unknown_status ("Cannot find 3ware utility '" & bin & "'")
    else end false unknown_status ("error trying to run 3ware utility - " & error)
answer (cannot_talk error) bin =
    end false unknown_status ("unable to communicate with 3ware utility - " & error)
answer (ended polled returncode stdout) bin = do
  when polled (end false unknown_status "3ware utility process ended prematurely")
  when (is_empty stdout) (end false unknown_status "No output from 3ware utility")
  second ← item 1 (split_on b'\n' stdout)
  when (str_eq second "No controller found.")
      (end false unknown_status "No 3ware controllers were found on this machine")
  (if is_zero returncode
      then returned (body (split_on b'\n' stdout))
      else end false unknown_status (
          "3ware utility returned an exit code of "
          & show_ℤ returncode
          & " - "
          & replace b'\n' " " stdout))

unfoldable pub run : String → (String → Attempt) → String → Outcome (List String)
unfolding end answer
run bin tw_cli cmd = do
  when (is_empty cmd)
      (end false unknown_status "internal python error - no cmd supplied for 3ware utility")
  answer (tw_cli cmd) bin
