-- ===== src/Adapter/Result.antt =====
-- `AdapterCSV` of adapter_csv.py, up to the message: `status`, `cmd` and `process_message`.
--
-- pylib is another repository's: its table ERRORS is a parameter, as an association list.
use Prim.Native.String.{[], ◌∷◌}
use nagios_plugins.Base.{
  ℕ, code, String, Bool, true, false, ◌&&◌, ◌||◌, Option, none, some, [], ◌∷◌, ◌%◌, ◌==◌, ltb,
  if◌then◌else◌, ◌⊎◌, inl, inr,
}
use nagios_plugins.Base.Int.{ℤ, pos, negsuc}
use nagios_plugins.Base.Dict.{Dict, lookup}
use nagios_plugins.Text.{◌&◌, starts_with, replace, rstrip, is_space, is_empty}
use nagios_plugins.Text.Decimal.{parse_int}
use nagios_plugins.Regex.{
  Re, one, star, lazy, optional, all_of, any_of, any_case, is_word, sub_first,
}
use nagios_plugins.Nagios.{Outcome, returned, key_error, Process, or_raise, ◌>>=◌}

-- ERRORS: the exit codes of the statuses.
abbrev pub Errors : Type 0
Errors = Dict ℤ

abbrev pub equals : ℤ → ℤ → Bool
equals (pos m) (pos n) = m == n
equals (negsuc m) (negsuc n) = m == n
equals _ _ = false

abbrev pub or_name : Option String → Bool → String → Option String
or_name (some later) b name = some later
or_name none b name = if b then some name else none

-- `returncodes`, the table turned around; a later name for a code replaces an earlier one
unfoldable pub name_of : ℤ → Errors → Option String
name_of z [] = none
name_of z ((name, n) ∷ errors) = or_name (name_of z errors) (equals z n) name

-- What the setter of `status` takes: an exit code, or text.
pub data Code : Type 0 where
  number : ℤ → Code
  text : String → Code

abbrev pub from_int : Errors → Option ℤ → Option String
from_int errors none = none
from_int errors (some z) = name_of z errors

abbrev pub as_number : Code → Option ℤ
as_number (number z) = some z
as_number (text s) = parse_int s

-- a text that is no number may still be a key of ERRORS
abbrev pub if_key : Option ℤ → String → String
if_key none s = "UNKNOWN"
if_key (some z) s = s

abbrev pub named : Errors → Code → String
named errors (number z) = "UNKNOWN"
named errors (text s) = if_key (lookup s errors) s

-- the three branches: a code that has a name, another number, and a text
abbrev pub chosen : Option String → Option ℤ → String → String
chosen (some name) z other = name
chosen none (some z) other = "UNKNOWN"
chosen none none other = other

-- the setter of `status`
unfoldable pub status_of : Errors → Code → String
status_of errors returncode =
    chosen (from_int errors (as_number returncode)) (as_number returncode) (named errors returncode)

abbrev pub wrapped : ℤ → ℤ
wrapped (pos n) = pos (if ltb 255 n then n % 256 else n)
wrapped (negsuc n) = negsuc n

-- `ERRORS['UNKNOWN']` for a shell's "command not found", and otherwise the code itself
abbrev pub exit_code : Errors → (shell : Bool) → ℤ → Outcome ℤ
exit_code errors shell code =
    if shell && equals code (pos 127)
    then or_raise key_error (lookup "UNKNOWN" errors)
    else returned code

abbrev pub ended : Errors → (shell : Bool) → String → String ⊎ Process → Outcome (String × String)
ended errors shell cmdline (inl error) =
    returned
      (status_of errors (text "UNKNOWN"), "OSError: '" & error & "' when running '" & cmdline & "'")
ended errors shell cmdline (inr p) = do
  returncode ← exit_code errors shell (wrapped p.returncode)
  returned
      (status_of errors (number returncode), if is_empty p.stdout then "<no output>" else p.stdout)

-- `cmd`: the status and the message. `popen` runs the command line, through a shell or split at
-- white space, and gives the text of an OSError or the process that has ended.
unfoldable pub cmd :
    Errors
    → (shell : Bool) → (popen : Bool → String → String ⊎ Process) → String
    → Outcome (String × String)
cmd errors shell popen cmdline = ended errors shell cmdline (popen shell cmdline)

abbrev is_word_or_space : ℕ → Bool
is_word_or_space c = is_word c || is_space c

-- \s*(?:[\w\s]+?\s)?(?:OK|WARNING|CRITICAL|UNKNOWN)(?:\s[\w\s]+?)?\s*:\s*
abbrev re_prefix : Re
re_prefix = all_of (
    star is_space
    ∷ optional (all_of (one is_word_or_space ∷ lazy is_word_or_space ∷ one is_space ∷ []))
    ∷ any_of (any_case "OK" ∷ any_case "WARNING" ∷ any_case "CRITICAL" ∷ any_case "UNKNOWN" ∷ [])
    ∷ optional (all_of (one is_space ∷ one is_word_or_space ∷ lazy is_word_or_space ∷ []))
    ∷ star is_space
    ∷ Re.lit ":"
    ∷ star is_space
    ∷ [])

-- the text from the first line that begins with "usage:", or the whole text
unfoldable pub from_usage : (at_line_start : Bool) → String → Option String
from_usage b [] = none
from_usage b (c ∷ s) =
    let later = from_usage (code c == 10) s in
    if b && starts_with (c ∷ s) "usage:" then some (c ∷ s) else later

abbrev without_description : String → String
without_description s =
    if starts_with s "Hari Sekhon"
    then elim (from_usage true s) [ some usage ↦ usage | none ↦ s ]
    else s

-- re.sub(r',\s*', '... ', s); the Boolean says that a comma has just been replaced
unfoldable pub replace_commas : Bool → String → String
replace_commas b [] = []
replace_commas b (c ∷ s) =
    let skipped = replace_commas true s in
    let kept = replace_commas false s in
    if b && is_space (code c)
    then skipped
    else if code c == b','
    then "... " & skipped
    else c ∷ kept

unfoldable pub process_message : String → String
process_message message =
    let stripped = without_description (sub_first re_prefix message) in
    let one_line = replace b'\n' " \\n " (replace b'\r' "" (rstrip (λ c. c == 10) stripped)) in
    replace_commas false one_line
