-- ===== src/MegaRaid/Status.antt =====
-- The outcome of `test_raid` against the arrays that the controllers list, and the branches of `run`
-- (older/check_lsi_megaraid.py).
use nagios_plugins.Base.{
  ℕ, ◌+◌, ◌*◌, ◌≤◌, max, String, Bool, false, Option, none, some, List, [], ◌∷◌, ◌≡◌, refl, arith,
  All, Bool-cases, inl, inr, if◌then◌else◌, str_eq, length, max_of, sum_of,
}
use nagios_plugins.Base.Int.{ℤ, is_zero}
use nagios_plugins.Base.Dict.{lookup, keys}
use nagios_plugins.Text.{◌&◌, split_on, tail_from, is_empty}
use nagios_plugins.Text.Decimal.{parse_int, show_ℤ}
use nagios_plugins.Text.Sort.{sort}
use nagios_plugins.Nagios.{returned, exited, IsOrdered, at_least-returned}
use nagios_plugins.MegaRaid.Utility.{run, failed, end, get_controllers}
use nagios_plugins.MegaRaid.Arrays.{
  Drive, Details, read_details, Tally, start, test_drive, test_drives, test_controller, conclude,
  test_each, test_raid,
}

-- An array can be reported: it is optimal, or its level was read and its name is a number.
abbrev pub IsReportable : String → Drive → Type 0
IsReportable name drive =
    (level : String) × (levels : List String) × (n : ℤ) × (drive.levels ≡ level ∷ levels)
    × (parse_int name ≡ some n)

abbrev state_in : Option Drive → String
state_in none = ""
state_in (some drive) = drive.state

abbrev pub not_optimal : Details → String → ℕ
not_optimal d name = if str_eq (state_in (lookup name d)) "OPTIMAL" then 0 else 1

-- the arrays in the order in which they are tested
abbrev pub names_of : Details → List String
names_of d = sort (keys d)

abbrev pub count_not_optimal : Details → ℕ
count_not_optimal d = sum_of (not_optimal d) (names_of d)

-- 1 for a controller with no arrays, 2 for one with an array that is not optimal
abbrev pub severity : Details → ℕ
severity [] = 1
severity (e ∷ d) = max_of (λ n. 2 * not_optimal (e ∷ d) n) (names_of (e ∷ d))

abbrev pub IsComplete : Details → Type 0
IsComplete d =
    All (λ n. (drive : Drive) × (lookup n d ≡ some drive) × IsReportable n drive) (names_of d)

test_drive_total :
    (c : ℤ) (d : Details) (name : String) (t : Tally) (drive : Drive)
    → lookup name d ≡ some drive
    → IsReportable name drive
    → t.status ≤ 2
    → (u : Tally) × (test_drive c d name t ≡ returned u)
      × (u.status ≡ max t.status (2 * not_optimal d name))
      × (u.non_optimal ≡ t.non_optimal + not_optimal d name)
      × (u.number_arrays ≡ t.number_arrays)
unfolding test_drive
test_drive_total c d name t drive e (level, levels, n, l, p) h =
    elim (Bool-cases (str_eq drive.state "OPTIMAL")) [
      | inl good ↦ rw (e, good) (t, refl, omega arith, omega arith, refl)
      | inr bad ↦ rw (e, bad, l, p) (_, refl, omega arith, omega arith, refl)
    ]

test_drives_total :
    (c : ℤ) (d : Details) (names : List String) (t : Tally)
    → All (λ n. (drive : Drive) × (lookup n d ≡ some drive) × IsReportable n drive) names
    → t.status ≤ 2
    → (u : Tally) × (test_drives c d names t ≡ returned u)
      × (u.status ≡ max t.status (max_of (λ n. 2 * not_optimal d n) names))
      × (u.non_optimal ≡ t.non_optimal + sum_of (not_optimal d) names)
      × (u.number_arrays ≡ t.number_arrays)
unfolding test_drives
test_drives_total c d [] t w h = (t, refl, omega arith, omega arith, refl)
test_drives_total c d (name ∷ names) t ((drive, e, r), later) h =
    let (u, ran, s, n, k) = test_drive_total c d name t drive e r h in
    let bound : u.status ≤ 2 = ground arith in
    let (v, rest, s', n', k') = test_drives_total c d names u later bound in
    (v, rw ran rest, omega arith, omega arith, omega arith)

test_controller_total :
    (c : ℤ) (d : Details) (t : Tally)
    → IsComplete d
    → t.status ≤ 2
    → (u : Tally) × (test_controller c d t ≡ returned u)
      × (u.status ≡ max t.status (severity d))
      × (u.non_optimal ≡ t.non_optimal + count_not_optimal d)
      × (u.number_arrays ≡ t.number_arrays + length (names_of d))
unfolding test_controller sort
test_controller_total c [] t w h = (_, refl, ground arith, omega arith, omega arith)
test_controller_total c (e ∷ d) t w h =
    let names = names_of (e ∷ d) in
    let t1 = record t { number_arrays = t.number_arrays + length names } in
    test_drives_total c (e ∷ d) names t1 w h

max_not_optimal-le :
    (d : Details) (names : List String) → max_of (λ n. 2 * not_optimal d n) names ≤ 2
max_not_optimal-le d [] = omega arith
max_not_optimal-le d (n ∷ names) =
    let one : not_optimal d n ≤ 1 = ground arith in omega (arith, max_not_optimal-le d names)

severity-le : (d : Details) → severity d ≤ 2
severity-le [] = omega arith
severity-le (e ∷ d) = max_not_optimal-le (e ∷ d) (names_of (e ∷ d))

module _ (bin : String) (shell : String → ℤ × String) where
  -- `ds` are the details of the controllers, read one after the other.
  abbrev pub Reads : Option String → List ℤ → List Details → Type 0
  Reads current [] ds = ds ≡ []
  Reads current (c ∷ cs) [] = ⊥
  Reads current (c ∷ cs) (d ∷ ds) =
      (lines : List String) × (current' : Option String) × (run bin shell ("-dispCfg -a" & show_ℤ c)
        ≡ returned lines)
      × (read_details lines (current, []) ≡ returned (current', d))
      × IsComplete d
      × Reads current' cs ds

  test_each_total :
      (orders_none : Bool) (verbosity : Option ℕ) (current : Option String) (cs : List ℤ)
      (ds : List Details) (t : Tally)
      → IsOrdered orders_none verbosity
      → Reads current cs ds
      → t.status ≤ 2
      → (u : Tally) × (test_each bin shell orders_none verbosity current cs t ≡ returned u)
        × (u.status ≡ max t.status (max_of severity ds))
        × (u.non_optimal ≡ t.non_optimal + sum_of count_not_optimal ds)
        × (u.number_arrays ≡ t.number_arrays + sum_of (λ d. length (names_of d)) ds)
  unfolding test_each
  test_each_total orders_none verbosity current [] [] t ordered r h =
      (t, refl, omega arith, omega arith, omega arith)
  test_each_total orders_none verbosity current [] (d ∷ ds) t ordered r h = absurd (cc)
  test_each_total orders_none verbosity current (c ∷ cs) [] t ordered r h = absurd r
  test_each_total orders_none verbosity current (c ∷ cs) (d ∷ ds) t ordered
        (lines, current', ran, read, complete, more) h =
      let (u, tested, s, n, k) = test_controller_total c d t complete h in
      let (v, rest, s', n', k') =
        test_each_total orders_none verbosity current' cs ds u ordered more
          (omega (arith, severity-le d)) in
      (
        v,
        rw (ran, at_least-returned orders_none verbosity 3 ordered, read, tested) rest,
        omega arith,
        omega arith,
        omega arith,
      )

-- Where the verbosity has an order, controllers are found, and the details of each can be read and reported, `test_raid` returns
-- the conclusion of a tally: its status is the worst severity among the controllers (1 for one with
-- no arrays, 2 for one with an array that is not OPTIMAL), and it has counted the arrays and those
-- that are not OPTIMAL.
pub megaraid_total :
    (bin : String) (shell : String → ℤ × String) (orders_none : Bool) (verbosity : Option ℕ)
    (no_summary : Bool) (cs : List ℤ) (ds : List Details)
    → IsOrdered orders_none verbosity
    → get_controllers bin shell orders_none verbosity ≡ returned cs
    → Reads bin shell none cs ds
    → (t : Tally) × (test_raid bin shell orders_none verbosity no_summary
        ≡ returned (conclude no_summary (length cs) t))
      × (t.status ≡ max_of severity ds)
      × (t.non_optimal ≡ sum_of count_not_optimal ds)
      × (t.number_arrays ≡ sum_of (λ d. length (names_of d)) ds)
unfolding test_raid
megaraid_total bin shell orders_none verbosity no_summary cs ds ordered found reads =
    let (t, ran, s, n, k) =
      test_each_total bin shell orders_none verbosity none cs ds start ordered reads
        (omega arith) in
    (t, rw (found, ran), omega arith, omega arith, omega arith)

-- A utility that fails without printing anything is reported as one whose output is too short: the
-- branch of `run` for no output is not reached, since the split of an empty text has one line.
pub run_no_output :
    (bin : String) (shell : String → ℤ × String) (args : String) (code : ℤ)
    → is_empty args ≡ false
    → is_zero code ≡ false
    → shell (bin & " " & args & " -nolog") ≡ (code, "")
    → run bin shell args
      ≡ exited 3 "UNKNOWN: Output from Lsi MegaRaid utility is too short, try -vvv for debug"
unfolding run failed end split_on tail_from
run_no_output bin shell args code some_args failed_run printed = rw (some_args, printed, failed_run)
