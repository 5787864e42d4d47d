-- ===== src/Adapter/CheckMk.antt =====
-- `AdapterCheckMK` of adapter_check_mk.py.
use Prim.Native.String.{[], ◌∷◌}
use nagios_plugins.Base.{
  code, String, Bool, true, false, not, ◌&&◌, Option, none, some, List, [], ◌∷◌, ◌==◌,
  if◌then◌else◌, ◌⊎◌, any,
}
use nagios_plugins.Base.Dict.{lookup}
use nagios_plugins.Base.Int.{ℤ}
use nagios_plugins.Text.{
  ◌&◌, starts_with, rstrip, is_space, is_empty, is_falsy, lstrip, join, text_functions,
}
use nagios_plugins.Text.Decimal.{show_ℤ, parse_int, is_digit}
use nagios_plugins.Regex.{sub_first, re_search, is_word}
use nagios_plugins.Nagios.{Outcome, returned, key_error, or_raise, Process, ◌>>=◌}
use nagios_plugins.Adapter.Result.{
  Errors, process_message, replace_commas, from_usage, cmd, status_of, name_of,
}
use nagios_plugins.Adapter.Csv as Csv
use nagios_plugins.Adapter.Csv.{process_perfdata, result_of}

-- `space_regex.sub('_', s)`; the Boolean says that white space has just been replaced
unfoldable pub squeeze : Bool → String → String
squeeze b [] = []
squeeze b (c ∷ s) =
    let spaced = squeeze true s in
    let kept = squeeze false s in
    if is_space (code c) then (if b then spaced else "_" & spaced) else c ∷ kept

abbrev or_else : Option String → String → String
or_else none s = s
or_else (some t) s = t

abbrev after_slash : String → Option String
after_slash [] = none
after_slash (c ∷ s) = elim (after_slash s) [
  | some t ↦ some t
  | none ↦ if code c == b'/' then some s else none
]

-- `os.path.basename(s)`
unfoldable pub basename : String → String
basename s = or_else (after_slash s) s

unfoldable pub is_interpreter : String → Bool
is_interpreter arg = any (starts_with arg) ("perl" ∷ "python" ∷ "ruby" ∷ "groovy" ∷ "jython" ∷ [])

abbrev is_some : Option ℤ → Bool
is_some none = false
is_some (some z) = true

-- whether an argument may name the check; `is_float` is pylib's
unfoldable pub is_name : Errors → (is_float : String → Bool) → String → Bool
is_name errors is_float arg =
    not (is_empty arg)
    && not (starts_with arg "-")
    && not (is_interpreter arg)
    && not (is_some (lookup arg errors))
    && not (is_float arg)

abbrev pub first_name : Errors → (String → Bool) → List String → Option String
first_name errors is_float [] = none
first_name errors is_float (arg ∷ args) =
    if is_name errors is_float (basename arg)
    then some (basename arg)
    else first_name errors is_float args

-- `process_options`: the name of the check; `usage` is the method of pylib's CLI.
unfoldable pub process_options :
    Errors
    → (is_float : String → Bool) → (usage : String → Outcome String) → (name : Option String)
    → (args : List String) → Outcome String
process_options errors is_float usage name args =
    elim (if is_falsy name then first_name errors is_float args else name) [
      | some chosen ↦ returned (squeeze false chosen)
      | none ↦ usage "--name not defined"
    ]

abbrev pub fields_of : List (String × String) → String
fields_of [] = ""
fields_of ((key, val) ∷ columns) = squeeze false key & "=" & val & "|" & fields_of columns

abbrev pub or_dash : String → String
or_dash s = if is_empty s then "-" else s

-- The line that `output` prints.
unfoldable pub output : Errors → String → String → String → List (String × String) → Outcome String
output errors name status message columns = do
  code ← or_raise key_error (lookup status errors)
  returned (
      show_ℤ code
      & " "
      & name
      & " "
      & or_dash (rstrip (λ c. c == b'|') (fields_of columns))
      & " "
      & message)

-- `run`, with the name that `process_options` has set.
unfoldable pub run :
    Errors
    → (usage : String → Outcome String) → (name : String) → (result : Option String)
    → (shell : Bool) → (popen : Bool → String → String ⊎ Process) → (args : List String)
    → Outcome String
run errors usage name result shell popen args =
    let argstr = join " " args in
    if is_empty argstr
    then usage "missing required args for either nagios plugin command to execute or result data"
    else (do
      (status, message) ← result_of errors result shell popen argstr
      let (text, columns) = process_perfdata (process_message message)
      output errors name status text columns)

-- For tests: computes with both scripts.
unfoldable pub script : Unit {0}
unfolding run output process_options is_name is_interpreter basename squeeze process_perfdata
    result_of Csv.run Csv.output Csv.columns_of Csv.header_of Csv.cut Csv.before process_message
    replace_commas from_usage cmd status_of name_of sub_first re_search is_word is_digit is_space
    show_ℤ parse_int lstrip text_functions
script = tt
