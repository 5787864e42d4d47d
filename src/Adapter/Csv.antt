-- ===== src/Adapter/Csv.antt =====
-- `AdapterCSV` of adapter_csv.py: `process_perfdata`, `output` and `run`.
use Prim.Native.String.{[], ◌∷◌}
use nagios_plugins.Base.{
  ℕ, code, String, Bool, true, false, ◌||◌, ◌&&◌, Option, none, some, List, [], ◌∷◌, ◌==◌, leb,
  if◌then◌else◌, ◌⊎◌, get_elem?,
}
use nagios_plugins.Text.{◌&◌, replace, rstrip, lstrip, strip, split, join, upper, is_empty}
use nagios_plugins.Text.Decimal.{is_digit}
use nagios_plugins.Regex.{Re, Match, one, lit, plus, alt, group, optional, all_of, re_search}
use nagios_plugins.Nagios.{Outcome, returned, Process, ◌>>=◌}
use nagios_plugins.Adapter.Result.{Errors, status_of, Code, cmd, process_message}

-- `s.split(sep, 1)`, where `sep` occurs in `s`
unfoldable pub cut : ℕ → String → Option (String × String)
cut sep [] = none
cut sep (c ∷ s) = elim (code c == sep) [
  | true ↦ some ([], s)
  | false ↦ elim (cut sep s) [ some (a, b) ↦ some (c ∷ a, b) | none ↦ none ]
]

-- `s.split(sep)[0]`
unfoldable pub before : ℕ → String → String
before sep [] = []
before sep (c ∷ s) = let rest = before sep s in if code c == sep then [] else c ∷ rest

abbrev is_letter : ℕ → Bool
is_letter c = (leb b'A' c && leb c b'Z') || (leb b'a' c && leb c b'z')

-- (\d+(?:\.\d+)?)([A-Za-z]{1,2}|%)?
abbrev pub perfdata_regex : Re
perfdata_regex = all_of (
    group (all_of (plus is_digit ∷ optional (all_of (lit "." ∷ plus is_digit ∷ [])) ∷ []))
    ∷ optional (group (alt (all_of (one is_letter ∷ optional (one is_letter) ∷ [])) (lit "%")))
    ∷ [])

abbrev with_units : String → Option String → String
with_units header none = header
with_units header (some units) = header & " (" & units & ")"

abbrev unquoted : ℕ → String → String
unquoted quote s = rstrip (λ c. c == quote) (lstrip (λ c. c == quote) s)

-- the column that an item of perfdata adds: its header and its value
unfoldable pub header_of : String → Option String → String
header_of header units =
    upper (replace b',' "_" (unquoted b'\'' (unquoted b'"' (with_units header units))))

abbrev pub column_of : String → List String → Option (String × String)
column_of header [] = none
column_of header (val ∷ groups) = some (header_of header (get_elem? groups 0), val)

abbrev pub matched : String → Option Match → Option (String × String)
matched header none = none
matched header (some m) = column_of header m.groups

abbrev pub read_item : Option (String × String) → Option (String × String)
read_item none = none
read_item (some (header, raw)) = matched header (re_search perfdata_regex (before b';' raw))

abbrev pub add_column : Option (String × String) → List (String × String) → List (String × String)
add_column none columns = columns
add_column (some column) columns = column ∷ columns

-- The loop over the items: the columns that it adds.
unfoldable pub columns_of : List String → List (String × String)
columns_of [] = []
columns_of (item ∷ items) = add_column (read_item (cut b'=' item)) (columns_of items)

-- the message without perfdata, and the columns
abbrev pub perfdata_of : String → Option (String × String) → String × List (String × String)
perfdata_of message none = (strip message, [])
perfdata_of message (some (text, raw)) = (strip text, columns_of (split raw))

unfoldable pub process_perfdata : String → String × List (String × String)
process_perfdata message = perfdata_of message (cut b'|' message)

abbrev pub headers_of : List (String × String) → List String
headers_of [] = []
headers_of ((header, val) ∷ columns) = header ∷ headers_of columns

abbrev pub values_of : List (String × String) → String
values_of [] = ""
values_of ((header, val) ∷ columns) = "," & val & values_of columns

abbrev pub header_row : List (String × String) → String
header_row columns = join "," ("STATUS" ∷ "MESSAGE" ∷ headers_of columns)

-- The lines that `output` prints.
unfoldable pub output : (no_header : Bool) → String → String → List (String × String) → List String
output no_header status message columns =
    let row = status & "," & message & values_of columns in
    if no_header then row ∷ [] else header_row columns ∷ row ∷ []

-- The status and the message before they are processed.
unfoldable pub result_of :
    Errors
    → (result : Option String) → (shell : Bool) → (popen : Bool → String → String ⊎ Process)
    → String
    → Outcome (String × String)
result_of errors (some code) shell popen argstr =
    returned (status_of errors (Code.text code), argstr)
result_of errors none shell popen argstr = cmd errors shell popen argstr

-- `run`, which gives the lines that it prints; `usage` is the method of pylib's CLI.
unfoldable pub run :
    Errors
    → (usage : String → Outcome (List String)) → (result : Option String) → (no_header shell : Bool)
    → (popen : Bool → String → String ⊎ Process) → (args : List String) → Outcome (List String)
run errors usage result no_header shell popen args =
    let argstr = join " " args in
    if is_empty argstr
    then usage "missing required args for either nagios plugin command to execute or result data"
    else (do
      (status, message) ← result_of errors result shell popen argstr
      let (text, columns) = process_perfdata (process_message message)
      returned (output no_header status text columns))
