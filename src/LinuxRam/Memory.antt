-- ===== src/LinuxRam/Memory.antt =====
-- `check_ram` of check_linux_ram.py. It prints a line and returns a status, with which the script
-- exits at once: both together are an exit here.
use nagios_plugins.Base.{
  ℕ, zero, suc, ◌+◌, ◌*◌, ◌-◌, String, Bool, true, false, Option, none, some, List, [], ◌∷◌, str_eq,
  if◌then◌else◌, ◌⊎◌, inl, inr,
}
use nagios_plugins.Base.Int.{ℤ, pos, ◌+ℤ◌, ◌-ℤ◌, negsuc}
use nagios_plugins.Base.Float.{Float, ratio, int_lt, minus, over, product, cut, scale}
use nagios_plugins.Text.{◌&◌, split}
use nagios_plugins.Text.Decimal.{parse_int, show_ℤ}
use nagios_plugins.Nagios.{
  ok_status, warning_status, critical_status, Outcome, returned, exited, raised, Exception,
  or_raise, item, at_least, ◌>>=◌,
}

-- What the script meets: the interpreter's order of `None`, the lines of /proc/meminfo or the text
-- of an IOError, `float`, "%.2f", and how float arithmetic rounds: the float that is nearest to
-- the quotient n / (d + 1) is a quotient again, a pair of the same kind. Amounts of memory are far
-- below the numbers that have no float.
pub record World : Type 0 where
  pub orders_none : Bool
  pub meminfo : String ⊎ List String
  pub float : String → Option Float
  pub rounded : ℤ → ℕ → ℤ × ℕ
  pub two_places : Float → String

-- the local variables that the loop sets
pub record Stats : Type 0 where
  pub memtotal : Option ℤ
  pub memfree : Option ℤ
  pub memcached : Option ℤ

-- `int(cols[1])`
abbrev amount : List String → Outcome ℤ
amount cols = item 1 cols >>= λ col. or_raise Exception.value_error (parse_int col)

-- one round of the loop
unfoldable pub read_line : String → Stats → Outcome Stats
read_line line st = item 0 (split line) >>= λ name.
    if str_eq name "MemTotal:"
    then (amount (split line) >>= λ n. returned (record st { memtotal = some n }))
    else if str_eq name "MemFree:"
    then (amount (split line) >>= λ n. returned (record st { memfree = some n }))
    else if str_eq name "Cached:"
    then (amount (split line) >>= λ n. returned (record st { memcached = some n }))
    else returned st

unfoldable pub read_lines : List String → Stats → Outcome Stats
read_lines [] st = returned st
read_lines (line ∷ lines) st = read_line line st >>= read_lines lines

abbrev pub unset : Stats
unset = record { memtotal = none; memfree = none; memcached = none }

-- A variable that the loop did not set is not bound, so the test for `None` behind it never holds.
abbrev pub bound : Option ℤ → Outcome ℤ
bound n = or_raise Exception.unbound_local n

-- the thresholds in megabytes, for the performance data
abbrev megs_of : (percent : Bool) → (memtotal_megs threshold : Float) → (memtotal : ℤ) → Float
megs_of true memtotal_megs threshold memtotal =
    over (product memtotal (minus (ratio (pos 100) 0) threshold)) 102399
megs_of false memtotal_megs threshold memtotal = minus memtotal_megs threshold

unfoldable pub stats_of :
    World
    → (percent : Bool) → (warning critical : Float) → (memtotal total_free percentage : ℤ) → String
stats_of w percent warning critical memtotal total_free percentage =
    let total_used = memtotal -ℤ total_free in
    let memtotal_megs = ratio memtotal 1023 in
    show_ℤ percentage
    & "% ram free ("
    & show_ℤ (cut total_used 1024)
    & "/"
    & show_ℤ (cut memtotal 1024)
    & " MB used) | 'RAM Used'="
    & w.two_places (ratio total_used 1023)
    & "MB;"
    & w.two_places (megs_of percent memtotal_megs warning memtotal)
    & ";"
    & w.two_places (megs_of percent memtotal_megs critical memtotal)
    & ";0;"
    & w.two_places memtotal_megs

-- the ladders at the end; what is free is a percentage or an amount
unfoldable pub verdict : (free : ℤ) → (warning critical : Float) → String → Outcome (Unit {0})
verdict free warning critical stats =
    if int_lt free critical
    then exited critical_status ("RAM CRITICAL: " & stats)
    else if int_lt free warning
    then exited warning_status ("RAM WARNING: " & stats)
    else exited ok_status ("RAM OK: " & stats)

-- `memfree`, and `memcached` unless `nocache`
abbrev pub free_of : (nocache : Bool) → (memfree memcached : ℤ) → ℤ
free_of nocache memfree memcached = if nocache then memfree else memfree +ℤ memcached

-- `a / b`, not rounded
unfoldable pub divided : ℤ × ℕ → ℤ × ℕ → Outcome (ℤ × ℕ)
divided (n, d) (pos zero, e) = raised Exception.zero_division
divided (n, d) (pos (suc m), e) = returned (scale n e, (d + 1) * (m + 1) - 1)
divided (n, d) (negsuc m, e) = returned (pos 0 -ℤ scale n e, (d + 1) * (m + 1) - 1)

-- `x * 100`, rounded
abbrev pub hundredfold : World → ℤ × ℕ → ℤ × ℕ
hundredfold w (n, d) = w.rounded (scale n 99) d

abbrev pub whole_part : ℤ × ℕ → ℤ
whole_part (n, d) = cut n (d + 1)

-- `int(float(total_free) / float(memtotal) * 100)`
unfoldable pub percentage_free : World → (total_free memtotal : ℤ) → Outcome ℤ
percentage_free w total_free memtotal = do
  (n, d) ← divided (w.rounded total_free 0) (w.rounded memtotal 0)
  returned (whole_part (hundredfold w (w.rounded n d)))

-- behind the reading of the file
unfoldable pub judge :
    World
    → (warning critical : Float) → (percent nocache : Bool) → (memtotal memfree memcached : ℤ)
    → Outcome (Unit {0})
judge w warning critical percent nocache memtotal memfree memcached =
    let total_free = free_of nocache memfree memcached in
    percentage_free w total_free memtotal >>= λ percentage.
    verdict (if percent then percentage else total_free) warning critical
      (stats_of w percent warning critical memtotal total_free percentage)

unfoldable pub check_ram :
    World
    → (warning critical : Float) → (percent : Bool) → (verbosity : Option ℕ) → (nocache : Bool)
    → Outcome (Unit {0})
check_ram w warning critical percent verbosity nocache = do
  loud ← at_least w.orders_none verbosity 3
  elim w.meminfo [
    | inl error ↦ exited critical_status ("RAM CRITICAL: Error opening /proc/meminfo - " & error)
    | inr lines ↦ do
      st ← read_lines lines unset
      memtotal ← bound st.memtotal
      memfree ← bound st.memfree
      memcached ← bound st.memcached
      judge w warning critical percent nocache memtotal memfree memcached
  ]
