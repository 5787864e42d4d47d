-- ===== src/Adapter/Geneos/Rows.antt =====
-- The rows that adapter_geneos.py prints have the same columns.
use nagios_plugins.Base.{
  ◌+◌, String, Bool, false, Option, List, [], ◌∷◌, ◌≡◌, refl, sym, arith, ◌⊎◌, length, All,
}
use nagios_plugins.Base.Dict.{keys}
use nagios_plugins.Text.{◌&◌, split_on, join, is_empty}
use nagios_plugins.Text.Occurrences.{occurrences, occurrences-append, Lacks, length-split_on}
use nagios_plugins.Nagios.{Outcome, returned, Process, >>=-eq-returned}
use nagios_plugins.Adapter.Result.{Errors, process_message}
use nagios_plugins.Adapter.Csv.{process_perfdata, headers_of, values_of, result_of}
use nagios_plugins.Adapter.Status.{status-Lacks, result_of-IsStatus}
use nagios_plugins.Adapter.Columns.{
  is_comma, ColumnLacks, join-occurrences, headers_of-Lacks, row-length, process_message-Lacks,
  process_perfdata-Lacks, printed, same_lines,
}
use nagios_plugins.Adapter.Geneos.{plugin_name, header_of_rows, row_of, print_rows, run_geneos}

header_of_rows-length :
    (columns : List (String × String))
    → All ColumnLacks columns
    → length (split_on b',' (header_of_rows columns)) ≡ length columns + 3
header_of_rows-length columns h =
    let (k, l) = headers_of-Lacks columns h in
    let row =
      join-occurrences "NAME" ("STATUS" ∷ "DETAILS" ∷ headers_of columns) refl (refl, (refl, k)) in
    omega (arith, row, l, length-split_on b',' (header_of_rows columns))

row_of-length :
    (name status message : String) (columns : List (String × String))
    → Lacks is_comma status
    → Lacks is_comma message
    → All ColumnLacks columns
    → length (split_on b',' (row_of name status message columns))
      ≡ occurrences is_comma name + length columns + 3
row_of-length name status message columns s m h =
    let rest = status & "," & message & values_of columns in
    let a = occurrences-append is_comma name ("," & rest) in
    let b = occurrences-append is_comma "," rest in
    let c = row-length status message columns s m h in
    omega (
      arith,
      a,
      b,
      c,
      length-split_on b',' rest,
      length-split_on b',' (row_of name status message columns),
    )

-- When adapter_geneos.py prints, for arguments that are not all empty and a table ERRORS whose keys
-- have no comma, it prints a header and one row, and the row has as many more fields than the
-- header as the plugin's name has commas: the same number, for a name without a comma.
pub geneos_columns :
    (errors : Errors) (usage : String → Outcome (List String)) (result : Option String)
    (shell : Bool) (popen : Bool → String → String ⊎ Process) (args lines : List String)
    → All (Lacks is_comma) (keys errors)
    → is_empty (join " " args) ≡ false
    → run_geneos errors usage result shell popen args ≡ returned lines
    → (name header row : String) × (plugin_name args ≡ returned name)
      × (lines ≡ header ∷ row ∷ [])
      × (length (split_on b',' row) ≡ occurrences is_comma name + length (split_on b',' header))
unfolding run_geneos print_rows
geneos_columns errors usage result shell popen args lines h k e =
    let argstr = join " " args in
    let ((status, message), same, e') =
      >>=-eq-returned (result_of errors result shell popen argstr) _
        (printed (is_empty argstr) _ _ lines k e) in
    let fields = process_perfdata (process_message message) in
    let (name, named, printed_rows) = >>=-eq-returned (plugin_name args) _ e' in
    let known =
      status-Lacks is_comma errors status h refl
        (result_of-IsStatus errors result shell popen argstr status message same) in
    let (clean, columns) =
      process_perfdata-Lacks (process_message message) (process_message-Lacks message) in
    let header = header_of_rows-length fields.1 columns in
    let row = row_of-length name status fields.0 fields.1 known clean columns in
    (
      name,
      header_of_rows fields.1,
      row_of name status fields.0 fields.1,
      named,
      sym (same_lines _ lines printed_rows),
      omega (arith, header, row),
    )
