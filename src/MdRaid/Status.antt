-- ===== src/MdRaid/Status.antt =====
-- The status of `test_raid` in older/check_md_raid.py against the severity of each array's state.
use nagios_plugins.Base.{
  ℕ, suc, ◌+◌, ◌≤◌, max, String, true, false, some, List, [], ◌∷◌, map, ◌≡◌, refl, ◌∙◌, inl, inr,
  arith, All, Bool-cases, if◌then◌else◌, str_eq, get_elem?, get_last_or, length,
}
use nagios_plugins.Text.{◌&◌, starts_with, contains, split, split_on, upper}
use nagios_plugins.Regex.{re_match}
use nagios_plugins.Nagios.{returned, exited, ok_status}
use nagios_plugins.MdRaid.{
  Tally, state_from, is_clean, report, test_array, test_each, summary, find_arrays, test_raid,
  start, end, main, raid_utility,
}

-- 2 for a failed array, 1 for one that recovers; a dirty array and one of unknown state count as 0.
abbrev pub severity : String → ℕ
severity state =
    if is_clean state
    then 0
    else if str_eq state "dirty"
    then 0
    else if contains "recovering" state
    then 1
    else if str_eq state "unknown"
    then 0
    else 2

abbrev pub worst : List String → ℕ
worst [] = 0
worst (s ∷ ss) = max (severity s) (worst ss)

abbrev pub count_not_clean : List String → ℕ
count_not_clean [] = 0
count_not_clean (s ∷ ss) = if is_clean s then count_not_clean ss else suc (count_not_clean ss)

-- The fourth line of an array's details, which names its RAID level, has a word.
abbrev pub IsReadable : List String → Type 0
IsReadable output =
    (line : String) × (word : String) × (words : List String) × (get_elem? output 3 ≡ some line)
    × (split line ≡ word ∷ words)

report-status :
    (state raidlevel shortname : String) (output : List String) (t : Tally)
    → is_clean state ≡ false
    → t.status ≤ 2
    → (report state raidlevel shortname output t).status ≡ max t.status (severity state)
unfolding report
report-status state raidlevel shortname output t dirty h = ground arith

report-arrays_not_ok :
    (state raidlevel shortname : String) (output : List String) (t : Tally)
    → (report state raidlevel shortname output t).arrays_not_ok ≡ t.arrays_not_ok
unfolding report
report-arrays_not_ok state raidlevel shortname output t = ground arith

severity-le : (s : String) → severity s ≤ 2
severity-le s = ground arith

-- One array: the status becomes the worse of the two, and an array that is not clean is counted.
test_array_total :
    (array : String) (output : List String) (t : Tally)
    → t.status ≤ 2
    → IsReadable output
    → let state = state_from "unknown" output in
      (u : Tally) × (test_array array output t ≡ returned u)
      × (u.status ≡ max t.status (severity state))
      × (u.arrays_not_ok ≡ (if is_clean state then t.arrays_not_ok else t.arrays_not_ok + 1))
unfolding test_array
test_array_total array output t h (line, word, words, e, w) =
    elim (Bool-cases (is_clean (state_from "unknown" output))) [
      | inl clean ↦ rw clean (t, refl, omega arith, refl)
      | inr broken ↦
          let state = state_from "unknown" output in
          let level = get_last_or word words in
          let name = upper (get_last_or "" (split_on b'/' array)) in
          let u = record t { arrays_not_ok = t.arrays_not_ok + 1 } in
          rw (broken, e, w)
            (
              report state level name output u,
              refl,
              rw broken at (report-status state level name output u broken h),
              report-arrays_not_ok state level name output u,
            )
    ]

module _ (bin : String) (popen : String → List String) where
  abbrev pub details : String → List String
  details array = popen (bin & " --detail " & array & " 2>&1")

  abbrev pub states : List String → List String
  states arrays = map (λ a. state_from "unknown" (details a)) arrays

  pub test_each_total :
      (arrays : List String) (t : Tally)
      → t.status ≤ 2
      → All (λ a. IsReadable (details a)) arrays
      → (u : Tally) × (test_each bin popen arrays t ≡ returned u)
        × (u.status ≡ max t.status (worst (states arrays)))
        × (u.arrays_not_ok ≡ t.arrays_not_ok + count_not_clean (states arrays))
  unfolding test_each
  test_each_total [] t h readable = (t, refl, omega arith, omega arith)
  test_each_total (a ∷ arrays) t h (here, later) =
      let (u, stepped, status_u, count_u) = test_array_total a (details a) t h here in
      let (v, rest, status_v, count_v) =
        test_each_total arrays u (omega (arith, severity-le (state_from "unknown" (details a))))
          later in
      (v, rw stepped rest, omega arith, ground arith)

-- When the arrays are found and the details of each have a RAID level in the fourth line, the check
-- returns: its status is the worst severity among the states of the arrays, it has counted exactly
-- those that are not clean, and message and status are the summary of these.
pub test_raid_total :
    (bin : String) (popen : String → List String) (arrays : List String)
    → find_arrays bin popen ≡ returned arrays
    → All (λ a. IsReadable (details bin popen a)) arrays
    → (t : Tally) × (test_raid bin popen ≡ returned (summary (length arrays) t))
      × (t.status ≡ worst (states bin popen arrays))
      × (t.arrays_not_ok ≡ count_not_clean (states bin popen arrays))
unfolding test_raid
test_raid_total bin popen arrays found readable =
    let (t, ran, status, number) = test_each_total bin popen arrays start (omega arith) readable in
    (t, rw (found, ran), omega arith, omega arith)

worst_of_unknown : (ss : List String) → All (λ s. s ≡ "unknown") ss → worst ss ≡ 0
unfolding is_clean contains starts_with re_match
worst_of_unknown [] h = refl
worst_of_unknown (s ∷ ss) (e, h) = rw (e, worst_of_unknown ss h)

end_ok :
    (status : ℕ) (message : String)
    → status ≡ ok_status
    → (line : String) × (end {A = Unit {0}} status message ≡ exited ok_status line)
unfolding end
end_ok status message e = ("RAID OK: " & message, rw e)

-- Arrays whose details give no state do not raise an alert: when every array is one of these, the
-- script exits with status OK.
pub unknown-exits_ok :
    (popen : String → List String) (arrays : List String)
    → find_arrays "/sbin/mdadm" popen ≡ returned arrays
    → All (λ a. IsReadable (details "/sbin/mdadm" popen a)) arrays
    → All (λ s. s ≡ "unknown") (states "/sbin/mdadm" popen arrays)
    → (line : String) × (main true true true popen ≡ exited ok_status line)
unfolding main raid_utility summary
unknown-exits_ok popen arrays found readable h =
    let (t, ran, status, number) = test_raid_total "/sbin/mdadm" popen arrays found readable in
    let is_ok : t.status ≡ 0 = status ∙ worst_of_unknown _ h in rw ran (end_ok t.status _ is_ok)
