-- ===== src/MegaRaid/Utility.antt =====
-- `end`, `run` and `get_controllers` of older/check_lsi_megaraid.py.
use Prim.Native.String.{count}
use nagios_plugins.Base.{
  ℕ, ◌-◌, String, Bool, true, false, Option, List, [], ◌∷◌, ◌++◌, ◌==◌, str_eq, ltb, if◌then◌else◌,
  length, drop,
}
use nagios_plugins.Base.Int.{ℤ, is_zero}
use nagios_plugins.Text.{◌&◌, split_on, strip, replace, tail_from, is_empty}
use nagios_plugins.Text.Decimal.{parse_int}
use nagios_plugins.Nagios.{
  ok_status, warning_status, critical_status, unknown_status, Outcome, returned, exited, item,
  or_raise, value_error, at_least, ◌>>=◌,
}

unfoldable pub end {ℓ} : {A : Type ℓ} → ℕ → String → Outcome A
end status message =
    if status == ok_status
    then exited ok_status ("RAID OK: " & message)
    else if status == warning_status
    then exited warning_status ("RAID WARNING: " & message)
    else if status == critical_status
    then exited critical_status ("RAID CRITICAL: " & message)
    else exited unknown_status ("UNKNOWN: " & message)

abbrev first_or_empty : List String → String
first_or_empty [] = ""
first_or_empty (line ∷ _) = line

abbrev is_nil : List String → Bool
is_nil [] = true
is_nil (_ ∷ _) = false

-- `line[-25:]`
abbrev last_25 : String → String
last_25 line = tail_from (count line - 25) line

-- The branches of `run` for a status that is not zero.
unfoldable pub failed : String → String → List String → Outcome (List String)
failed bin output lines =
    if str_eq (last_25 (first_or_empty lines)) "No such file or directory"
    then end unknown_status ("Cannot find Lsi MegaRaid utility '" & bin & "'")
    else if is_nil lines
    then end unknown_status "No output from Lsi MegaRaid utility"
    else if ltb (length lines) 13
    then end unknown_status "Output from Lsi MegaRaid utility is too short, try -vvv for debug"
    else end unknown_status ("Error using MegaRaid utility - " & replace b'\n' "|" output)

unfoldable pub run : String → (String → ℤ × String) → String → Outcome (List String)
run bin shell args =
    if is_empty args
    then exited unknown_status
        "UNKNOWN: internal python error - no cmd supplied for Lsi MegaRaid utility"
    else (let (result, output) = shell (bin & " " & args & " -nolog") in
        let lines = split_on b'\n' output in
        if is_zero result then returned lines else failed bin output lines)

-- the loop of `get_controllers`
unfoldable pub numbers_of : List ℤ → List String → Outcome (List ℤ)
numbers_of controllers [] = returned controllers
numbers_of controllers (line ∷ lines) = do
  column ← item 1 (split_on b'\t' line)
  controller ← or_raise value_error (parse_int column)
  numbers_of (controllers ++ controller ∷ []) lines

abbrev or_end : List ℤ → Outcome (List ℤ)
or_end [] = end warning_status "No LSI controllers were found on this machine"
or_end (c ∷ cs) = returned (c ∷ cs)

-- The last test is only for a debugging line, but `None` may have no order.
unfoldable pub get_controllers :
    String
    → (String → ℤ × String)
    → (orders_none : Bool) → (verbosity : Option ℕ) → Outcome (List ℤ)
get_controllers bin shell orders_none verbosity = do
  lines ← run bin shell "-AllAdpInfo"
  twelfth ← item 11 lines
  (if str_eq (strip twelfth) "No Adapters Found"
      then end warning_status "No LSI adapters were found on this machine"
      else (do
        controllers ← numbers_of [] (drop 12 lines)
        found ← or_end controllers
        loud ← at_least orders_none verbosity 2
        returned found))
