-- ===== src/LinuxRam/Command.antt =====
-- `main` of check_linux_ram.py. A status that it returns is the script's exit status.
pub mod Laws
use Prim.Native.String.{count}
use nagios_plugins.Base.{
  ℕ, ◌+◌, ◌-◌, ◌*◌, String, Bool, true, false, not, ◌&&◌, ◌||◌, Option, none, some, List, [], ◌∷◌,
  ltb, str_eq, if◌then◌else◌, any, length,
}
use nagios_plugins.Base.Int.{ℤ, pos, negsuc, ltb_ℤ, ◌+ℤ◌, ◌-ℤ◌, ◌*ℤ◌}
use nagios_plugins.Base.Float.{Float, nan, inf, neg_inf, ratio, times, float_le, int_lt, scale, cut}
use nagios_plugins.Text.{◌&◌, is_empty, head_to, last_chars, text_functions, is_space}
use nagios_plugins.Text.Decimal.{show, show_ℤ, parse_int, is_digit}
use nagios_plugins.Nagios.{
  warning_status, critical_status, unknown_status, Outcome, returned, exited, raised, Exception,
  when, ◌>>=◌, ◌>>◌,
}
use nagios_plugins.LinuxRam.Memory.{
  World, read_line, read_lines, stats_of, verdict, judge, check_ram, percentage_free, divided,
}

-- What the option parser leaves for `main`; a flag of `None` is false.
pub record Options : Type 0 where
  pub warning_threshold : Option String
  pub critical_threshold : Option String
  pub verbosity : Option ℕ
  pub nocache : Bool
  pub args : List String

abbrev megs : List String
megs = "MB" ∷ "Mb" ∷ "mb" ∷ "mB" ∷ "M" ∷ "m" ∷ []

abbrev gigs : List String
gigs = "GB" ∷ "Gb" ∷ "gb" ∷ "gB" ∷ "G" ∷ "g" ∷ []

-- `s[:-n]`
abbrev without : ℕ → String → String
without n s = head_to (count s - n) s

unfoldable pub get_threshold : World → String → Outcome Float
get_threshold w threshold = elim (w.float threshold) [
  | none ↦ exited unknown_status "UNKNOWN: invalid threshold given"
  | some x ↦ returned x
]

abbrev scaled : World → String → ℕ → Outcome (Float × Bool)
scaled w digits unit =
    get_threshold w digits >>= λ threshold. returned (times threshold unit, false)

-- The threshold, and whether it is a percentage; an empty text has no last character.
unfoldable pub threshold_of : World → String → Outcome (Float × Bool)
threshold_of w s =
    let last = last_chars 1 s in
    let last_two = last_chars 2 s in
    if is_empty s
    then raised Exception.index_error
    else if str_eq last "%"
    then (get_threshold w (without 1 s) >>= λ threshold. returned (threshold, true))
    else if any (str_eq last_two) megs
    then scaled w (without 2 s) 1024
    else if any (str_eq last) megs
    then scaled w (without 1 s) 1024
    else if any (str_eq last_two) gigs
    then scaled w (without 2 s) (1024 * 1024)
    else if any (str_eq last) gigs
    then scaled w (without 1 s) (1024 * 1024)
    else (get_threshold w s >>= λ threshold. returned (threshold, false))

-- `x < 0 or x > 100`
abbrev pub not_percentage : Float → Bool
not_percentage nan = false
not_percentage inf = true
not_percentage neg_inf = true
not_percentage (ratio n d) = ltb_ℤ n (pos 0) || ltb_ℤ (pos (100 * (d + 1))) n

-- `percent_true`, where both are percentages or neither is
abbrev same_kind : (warning_percent critical_percent : Bool) → Outcome Bool
same_kind true true = returned true
same_kind false false = returned false
same_kind _ _ =
    exited unknown_status
      "UNKNOWN: please make thresholds either units or percentages, not one of each"

-- the checks behind the parsing of the thresholds
unfoldable pub check_thresholds :
    (warning : Float × Bool) → (critical : Float × Bool) → Outcome Bool
check_thresholds (warning, warning_percent) (critical, critical_percent) = do
  percent ← same_kind warning_percent critical_percent
  when (warning_percent && not_percentage warning)
      (exited warning_status "warning percentage must be between 0 and 100")
  when (critical_percent && not_percentage critical)
      (exited critical_status "critical percentage must be between 0 and 100")
  when (float_le warning critical)
      (exited unknown_status "UNKNOWN: Critical threshold must be less than Warning threshold")
  returned percent

abbrev required : (kind help : String) → Option String → Outcome String
required kind help none =
    exited unknown_status ("UNKNOWN: you did not specify a " & kind & " threshold\n\n" & help)
required kind help (some s) = returned s

-- `help` is the parser's help text.
unfoldable pub main : (help : String) → World → Options → Outcome (Unit {0})
main help w o = if ltb 0 (length o.args) then exited unknown_status help else (do
  warning_text ← required "warning" help o.warning_threshold
  critical_text ← required "critical" help o.critical_threshold
  warning ← threshold_of w warning_text
  critical ← threshold_of w critical_text
  percent ← check_thresholds warning critical
  check_ram w warning.0 critical.0 percent o.verbosity o.nocache)

-- For tests: computes with the whole script.
unfoldable pub script : Unit {0}
unfolding main check_thresholds threshold_of get_threshold check_ram judge percentage_free divided
    verdict stats_of read_lines read_line show show_ℤ parse_int is_digit is_space text_functions
    float_le int_lt scale cut ◌+ℤ◌ ◌-ℤ◌ ◌*ℤ◌
script = tt
