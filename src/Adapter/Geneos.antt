-- ===== src/Adapter/Geneos.antt =====
-- `AdapterGeneos` of adapter_geneos.py.
pub mod Rows
use nagios_plugins.Base.{String, Bool, Option, List, [], ◌∷◌, ◌⊎◌, if◌then◌else◌}
use nagios_plugins.Text.{◌&◌, split, join, is_empty}
use nagios_plugins.Nagios.{Outcome, returned, Process, item, ◌>>=◌}
use nagios_plugins.Adapter.Result.{Errors, process_message}
use nagios_plugins.Adapter.Csv.{process_perfdata, headers_of, values_of, result_of}
use nagios_plugins.Adapter.CheckMk.{basename}

-- the name of the plugin: `os.path.basename(self.args[0].split()[0])`
unfoldable pub plugin_name : List String → Outcome String
plugin_name args = do arg ← item 0 args; word ← item 0 (split arg); returned (basename word)

abbrev pub header_of_rows : List (String × String) → String
header_of_rows columns = join "," ("NAME" ∷ "STATUS" ∷ "DETAILS" ∷ headers_of columns)

abbrev pub row_of : String → String → String → List (String × String) → String
row_of name status message columns = name & "," & (status & "," & message & values_of columns)

-- The lines that `output` prints.
unfoldable pub print_rows :
    List String → String → String → List (String × String) → Outcome (List String)
print_rows args status message columns = do
  name ← plugin_name args
  returned (header_of_rows columns ∷ row_of name status message columns ∷ [])

-- `run`, inherited from AdapterCSV, with this `output`
unfoldable pub run_geneos :
    Errors
    → (usage : String → Outcome (List String)) → (result : Option String) → (shell : Bool)
    → (popen : Bool → String → String ⊎ Process) → (args : List String) → Outcome (List String)
run_geneos errors usage result shell popen args =
    let argstr = join " " args in
    if is_empty argstr
    then usage "missing required args for either nagios plugin command to execute or result data"
    else (do
      (status, message) ← result_of errors result shell popen argstr
      let (text, columns) = process_perfdata (process_message message)
      print_rows args status text columns)
