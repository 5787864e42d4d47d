-- ===== src/MdRaid/Tests.antt =====
-- Runs of the check on the output of a machine with two arrays.
use mathlib.Core.List.{Perm}
use nagios_plugins.Base.{String, true, List, [], ◌∷◌, ◌≡◌, ◌≢◌, refl, str_eq, if◌then◌else◌, All}
use nagios_plugins.Text.Sort.{IsSorted}
use nagios_plugins.Nagios.{returned, exited, ok_status}
use nagios_plugins.MdRaid.{Tally, find_arrays, test_raid, summary, main, script}
use nagios_plugins.MdRaid.Status.{
  worst, count_not_clean, IsReadable, details, states, test_raid_total, unknown-exits_ok,
}
use nagios_plugins.MdRaid.Devices.{listed, find_arrays-listed}

abbrev machine : String → String → List String
machine state command =
    if str_eq command "/sbin/mdadm --detail --scan 2>&1"
    then "ARRAY /dev/md1 metadata=1.2\n" ∷ "ARRAY /dev/md0 metadata=1.2\n" ∷ []
    else if str_eq command "/sbin/mdadm --detail /dev/md0 2>&1"
    then "/dev/md0:\n" ∷ "Version : 1.2\n" ∷ "x\n" ∷ "Raid Level : raid1\n" ∷ "State : clean \n"
      ∷ []
    else "/dev/md1:\n" ∷ "Version : 1.2\n" ∷ "x\n" ∷ "Raid Level : raid5\n" ∷ state ∷ []

recovering_array :
    main true true true (machine "State : clean, degraded, recovering \n")
    ≡ exited 1
        "RAID WARNING: 1 array not ok - Array \"MD1\" is in state \"clean, degraded, recovering\" (raid5) [2 arrays checked]"
unfolding script
recovering_array = refl

unreadable_array :
    main true true true (machine "mdadm: cannot open\n")
    ≡ exited 0 "RAID OK: State of Raid Array \"MD1\" is unknownAll arrays OK [2 arrays checked]"
unfolding script
unreadable_array = refl

abbrev quiet : String → List String
quiet = machine "mdadm: cannot open\n"

abbrev arrays : List String
arrays = "/dev/md0" ∷ "/dev/md1" ∷ []

quiet-found : find_arrays "/sbin/mdadm" quiet ≡ returned arrays
unfolding script
quiet-found = refl

quiet-IsReadable : All (λ a. IsReadable (details "/sbin/mdadm" quiet a)) arrays
unfolding script
quiet-IsReadable = ((_, _, _, refl, refl), ((_, _, _, refl, refl), tt))

test_raid_total_example :
    (t : Tally) × (test_raid "/sbin/mdadm" quiet ≡ returned (summary 2 t))
    × (t.status ≡ worst (states "/sbin/mdadm" quiet arrays))
    × (t.arrays_not_ok ≡ count_not_clean (states "/sbin/mdadm" quiet arrays))
test_raid_total_example = test_raid_total "/sbin/mdadm" quiet arrays quiet-found quiet-IsReadable

find_arrays-listed_example :
    (arrays ≢ [])
    × IsSorted arrays
    × Perm arrays (listed (quiet "/sbin/mdadm --detail --scan 2>&1"))
find_arrays-listed_example = find_arrays-listed "/sbin/mdadm" quiet arrays quiet-found

-- A machine on which the one array gives no state.
abbrev silent : String → List String
silent command =
    if str_eq command "/sbin/mdadm --detail --scan 2>&1"
    then "ARRAY /dev/md1 metadata=1.2\n" ∷ []
    else quiet "/sbin/mdadm --detail /dev/md1 2>&1"

silent-found : find_arrays "/sbin/mdadm" silent ≡ returned ("/dev/md1" ∷ [])
unfolding script
silent-found = refl

silent-IsReadable : All (λ a. IsReadable (details "/sbin/mdadm" silent a)) ("/dev/md1" ∷ [])
unfolding script
silent-IsReadable = ((_, _, _, refl, refl), tt)

silent-states : All (λ s. s ≡ "unknown") (states "/sbin/mdadm" silent ("/dev/md1" ∷ []))
unfolding script
silent-states = (refl, tt)

unknown-exits_ok_example : (line : String) × (main true true true silent ≡ exited ok_status line)
unknown-exits_ok_example =
    unknown-exits_ok silent ("/dev/md1" ∷ []) silent-found silent-IsReadable silent-states
