-- ===== src/MegaRaid/Tests.antt =====
-- A run of older/check_lsi_megaraid.py on a machine with one controller, and the theorems there.
use nagios_plugins.Base.{
  String, true, false, none, some, [], ◌∷◌, ◌≡◌, refl, str_eq, if◌then◌else◌, length, max_of,
  sum_of, inr,
}
use nagios_plugins.Base.Int.{ℤ, pos}
use nagios_plugins.Text.{text_functions}
use nagios_plugins.Nagios.{returned, exited, raised, type_error}
use nagios_plugins.MegaRaid.Utility.{get_controllers}
use nagios_plugins.MegaRaid.Arrays.{Details, Tally, conclude, test_raid, script}
use nagios_plugins.MegaRaid.Command.{
  Host, Options, run_script, prepare, make_megadev, find_device, main,
}
use nagios_plugins.MegaRaid.Status.{severity, count_not_optimal, names_of, Reads, megaraid_total}

abbrev card : String → ℤ × String
card command =
    if str_eq command "megarc -AllAdpInfo -nolog"
    then (pos 0, "\n\n\n\n\n\n\n\n\n\n\nAdapter\n\t0")
    else (pos 0, "Logical Drive : 0( Adapter: 0 ):  Status: DEGRADED \nSpanDepth :01  RaidLevel: 5")

degraded :
    test_raid "megarc" card true none false
    ≡ returned (
      2,
      "1 array not OK - Array 1 status is \"DEGRADED\"(Raid-5 on adapter 0) [1 array checked on 1 controller]",
    )
unfolding script
degraded = refl

-- Without -v, in Python 3.
none_unordered : test_raid "megarc" card false none false ≡ raised type_error
unfolding script
none_unordered = refl

abbrev details : Details
details = ("0", record { state = "DEGRADED"; levels = "5" ∷ [] }) ∷ []

controllers-card : get_controllers "megarc" card false (some 0) ≡ returned (pos 0 ∷ [])
unfolding script
controllers-card = refl

card-Reads : Reads "megarc" card none (pos 0 ∷ []) (details ∷ [])
unfolding script
card-Reads = (_, some "0", refl, refl, ((_, refl, ("5", [], pos 0, refl, refl)), tt), refl)

megaraid_total_example :
    (t : Tally) × (test_raid "megarc" card false (some 0) true ≡ returned (conclude true 1 t))
    × (t.status ≡ max_of severity (details ∷ []))
    × (t.non_optimal ≡ sum_of count_not_optimal (details ∷ []))
    × (t.number_arrays ≡ sum_of (λ d. length (names_of d)) (details ∷ []))
megaraid_total_example =
    megaraid_total "megarc" card false (some 0) true (pos 0 ∷ []) (details ∷ []) tt controllers-card
      card-Reads

abbrev host : (devices : String) → Host
host devices = record {
  is_root = true;
  orders_none = false;
  srcdir = ".";
  exists = λ path. str_eq path "./megarc.bin";
  is_executable = λ path. true;
  proc_devices = inr devices;
  mknod = λ command.
      if str_eq command "mknod /dev/megadev0 c 253 2" then inr (pos 0, "") else inr (pos 1, "no");
  shell = λ command. (pos 0, "");
}

abbrev show_version : Options
show_version = record { no_summary = false; verbosity = none; version = true; args = [] }

device_made :
    run_script "" (host "Character devices:\n 1 mem\n253 megadev\n9 st\n") show_version
    ≡ exited 0 "0.9.0"
unfolding run_script prepare make_megadev find_device main text_functions
device_made = refl

no_device :
    run_script "" (host "Character devices:\n 1 mem\n") show_version
    ≡ exited 3
        "UNKNOWN: Unable to create device node /dev/megadev0. Megadev not found in /proc/devices. Please make sure you have an Lsi MegaRaid card detected by your kernel first"
unfolding run_script prepare make_megadev find_device main text_functions
no_device = refl
