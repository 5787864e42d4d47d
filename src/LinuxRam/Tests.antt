-- ===== src/LinuxRam/Tests.antt =====
-- Runs of check_linux_ram.py, and the theorems there.
use nagios_plugins.Base.{
  String, true, false, Option, none, some, List, [], ◌∷◌, ◌≡◌, refl, arith, str_eq, inr,
  if◌then◌else◌,
}
use nagios_plugins.Base.Int.{ℤ, pos}
use nagios_plugins.Base.Float.{Float, nan, ratio}
use nagios_plugins.Nagios.{returned, exited, raised, Exception}
use nagios_plugins.LinuxRam.Memory.{World}
use nagios_plugins.LinuxRam.Percentage.{IsRounding}
use nagios_plugins.LinuxRam.Memory.{read_lines, unset, check_ram}
use nagios_plugins.LinuxRam.Command.Laws.{IsMeasured, Grades, check_ram_lem}
use nagios_plugins.LinuxRam.Command.{check_thresholds, Options, main, script}

abbrev meminfo : List String
meminfo = "MemTotal:  2048 kB\n" ∷ "MemFree: 300 kB\n" ∷ "Buffers: 5 kB\n" ∷ "Cached: 400 kB\n" ∷ []

abbrev float : String → Option Float
float s =
    if str_eq s "20"
    then some (ratio (pos 20) 0)
    else if str_eq s "40"
    then some (ratio (pos 40) 0)
    else if str_eq s "0.5"
    then some (ratio (pos 1) 1)
    else if str_eq s "nan"
    then some nan
    else none

abbrev world : List String → World
world lines = record {
  orders_none = true;
  meminfo = inr lines;
  float = float;
  rounded = λ n d. (n, d);
  two_places = λ x. "x";
}

abbrev options : (warning critical : String) → Options
options warning critical = record {
  warning_threshold = some warning;
  critical_threshold = some critical;
  verbosity = none;
  nocache = false;
  args = [];
}

percent_warning :
    main "" (world meminfo) (options "40%" "20%")
    ≡ exited 1 "RAM WARNING: 34% ram free (1/2 MB used) | 'RAM Used'=xMB;x;x;0;x"
unfolding script
percent_warning = refl

half_a_meg :
    main "" (world meminfo) (options "0.5M" "40")
    ≡ exited 0 "RAM OK: 34% ram free (1/2 MB used) | 'RAM Used'=xMB;x;x;0;x"
unfolding script
half_a_meg = refl

mixed :
    main "" (world meminfo) (options "40%" "20")
    ≡ exited 3 "UNKNOWN: please make thresholds either units or percentages, not one of each"
unfolding script
mixed = refl

wrong_order :
    main "" (world meminfo) (options "20%" "40%")
    ≡ exited 3 "UNKNOWN: Critical threshold must be less than Warning threshold"
unfolding script
wrong_order = refl

no_alert_for_nan :
    main ""
      (world ("MemTotal: 2048 kB" ∷ "MemFree: 0 kB" ∷ "Cached: 0 kB" ∷ []))
      (options "nan" "nan")
    ≡ exited 0 "RAM OK: 0% ram free (2/2 MB used) | 'RAM Used'=xMB;x;x;0;x"
unfolding script
no_alert_for_nan = refl

no_total :
    main "" (world ("MemFree: 0 kB" ∷ [])) (options "40%" "20%") ≡ raised Exception.unbound_local
unfolding script
no_total = refl

abbrev forty : Float
forty = ratio (pos 40) 0

abbrev twenty : Float
twenty = ratio (pos 20) 0

thresholds_there : check_thresholds (forty, true) (twenty, true) ≡ returned true
unfolding script
thresholds_there = refl

meminfo_there :
    read_lines meminfo unset
    ≡ returned (record {
      memtotal = some (pos 2048);
      memfree = some (pos 300);
      memcached = some (pos 400);
    })
unfolding script
meminfo_there = refl

no_memory :
    main "" (world ("MemTotal: 0 kB" ∷ "MemFree: 0 kB" ∷ "Cached: 0 kB" ∷ [])) (options "40%" "20%")
    ≡ raised Exception.zero_division
unfolding script
no_memory = refl

-- an arithmetic that does not round
exact : IsRounding (λ n d. (n, d))
exact = record { whole = λ n h. refl; near = λ n d h. (n, d, refl, (omega arith, omega arith)) }

check_ram_lem_example :
    (free : ℤ) × IsMeasured true 700 2048 free
    × Grades free forty twenty (check_ram (world meminfo) forty twenty true none false)
check_ram_lem_example =
    check_ram_lem (world meminfo) forty twenty true true true none false meminfo 2048 300 400 exact
      thresholds_there refl refl refl meminfo_there (omega arith) (omega arith) (omega arith)
