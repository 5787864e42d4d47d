-- ===== src/Adapter/Tests.antt =====
-- Runs of the three adapters with the table of the usual statuses.
use nagios_plugins.Base.{
  ◌+◌, String, Bool, true, false, none, List, [], ◌∷◌, ◌≡◌, ◌⊎◌, inr, refl, length, All,
}
use nagios_plugins.Base.Dict.{keys}
use nagios_plugins.Base.Int.{pos}
use nagios_plugins.Text.{split_on, join}
use nagios_plugins.Text.Occurrences.{Lacks, occurrences}
use nagios_plugins.Nagios.{Outcome, returned, exited, Process}
use nagios_plugins.Adapter.Result.{Errors, process_message}
use nagios_plugins.Adapter.Csv.{process_perfdata, result_of}
use nagios_plugins.Adapter.Csv as Csv
use nagios_plugins.Adapter.CheckMk as CheckMk
use nagios_plugins.Adapter.CheckMk.{script}
use nagios_plugins.Adapter.Status.{IsStatus, result_of-IsStatus}
use nagios_plugins.Adapter.Columns.{is_comma, columns_agree}
use nagios_plugins.Adapter.Geneos.{plugin_name, print_rows, run_geneos}
use nagios_plugins.Adapter.Geneos.Rows.{geneos_columns}

abbrev errors : Errors
errors =
    ("OK", pos 0)
    ∷ ("WARNING", pos 1)
    ∷ ("CRITICAL", pos 2)
    ∷ ("UNKNOWN", pos 3)
    ∷ ("DEPENDENT", pos 4)
    ∷ []

abbrev usage : String → Outcome (List String)
usage message = exited 3 message

abbrev load : Bool → String → String ⊎ Process
load shell cmdline = inr (record {
  returncode = pos 1;
  stdout = "LOAD WARNING: load, is high | 'load1,m'=3.5;2;4 pids=12";
})

-- The comma in a label is replaced before the perfdata is read, and cuts the label.
abbrev rows : List String
rows = "STATUS,MESSAGE,M,PIDS" ∷ "WARNING,load... is high,3.5,12" ∷ []

load-csv : Csv.run errors usage none false false load ("check_load" ∷ []) ≡ returned rows
unfolding script
load-csv = refl

keys-Lacks : All (Lacks is_comma) (keys errors)
keys-Lacks = (refl, (refl, (refl, (refl, (refl, tt)))))

columns_agree_example :
    (status message header row : String) × (result_of errors none false load "check_load"
      ≡ returned (status, message))
    × (rows ≡ header ∷ row ∷ [])
    × (length (split_on b',' header) ≡ length (process_perfdata (process_message message)).1 + 2)
    × (length (split_on b',' row) ≡ length (process_perfdata (process_message message)).1 + 2)
unfolding join
columns_agree_example =
    columns_agree errors usage none false load ("check_load" ∷ []) rows keys-Lacks refl load-csv

load-status :
    result_of errors none false load "check_load"
    ≡ returned ("WARNING", "LOAD WARNING: load, is high | 'load1,m'=3.5;2;4 pids=12")
unfolding script
load-status = refl

result_of-IsStatus_example : IsStatus errors "WARNING"
result_of-IsStatus_example =
    result_of-IsStatus errors none false load "check_load" "WARNING"
      "LOAD WARNING: load, is high | 'load1,m'=3.5;2;4 pids=12" load-status

-- A shell that does not find the command.
abbrev nothing : Bool → String → String ⊎ Process
nothing shell cmdline = inr (record { returncode = pos 127; stdout = "" })

abbrev stop : String → Outcome String
stop message = exited 3 message

no_args-check_mk :
    CheckMk.run errors stop "x" none true nothing []
    ≡ exited 3 "missing required args for either nagios plugin command to execute or result data"
unfolding script
no_args-check_mk = refl

nothing-check_mk :
    CheckMk.run errors stop "x" none true nothing ("check_x" ∷ []) ≡ returned "3 x - <no output>"
unfolding script
nothing-check_mk = refl

check_name :
    CheckMk.process_options errors
      (λ s. false)
      (λ s. exited 3 s)
      none
      ("/usr/bin/perl" ∷ "-T" ∷ "/opt/check users.pl" ∷ [])
    ≡ returned "check_users.pl"
unfolding script
check_name = refl

abbrev geneos_rows : List String
geneos_rows = "NAME,STATUS,DETAILS,M,PIDS" ∷ "check_load,WARNING,load... is high,3.5,12" ∷ []

load-geneos :
    run_geneos errors usage none false load ("/opt/check_load" ∷ "-w" ∷ []) ≡ returned geneos_rows
unfolding script run_geneos print_rows plugin_name
load-geneos = refl

geneos_columns_example :
    (name header row : String) × (plugin_name ("/opt/check_load" ∷ "-w" ∷ []) ≡ returned name)
    × (geneos_rows ≡ header ∷ row ∷ [])
    × (length (split_on b',' row) ≡ occurrences is_comma name + length (split_on b',' header))
unfolding join
geneos_columns_example =
    geneos_columns errors usage none false load ("/opt/check_load" ∷ "-w" ∷ []) geneos_rows
      keys-Lacks refl load-geneos
