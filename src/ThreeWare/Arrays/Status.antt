-- ===== src/ThreeWare/Arrays/Status.antt =====
-- The outcome of `test_arrays` against the states of the units (older/check_3ware_raid.py).
use nagios_plugins.Base.{
  ℕ, ◌+◌, ◌≤◌, max, String, Bool, ◌||◌, some, List, [], ◌∷◌, ◌++◌, ◌≡◌, refl, arith, All,
  Bool-cases, inl, inr, if◌then◌else◌, str_eq, length, max_of, sum_of, max_of-append, sum_of-append,
  length-append,
}
use nagios_plugins.Base.Int.{ℤ}
use nagios_plugins.Text.{◌&◌, split, tail_from}
use nagios_plugins.Text.Decimal.{parse_int}
use nagios_plugins.Nagios.{item, returned}
use nagios_plugins.ThreeWare.Utility.{Attempt, run}
use nagios_plugins.ThreeWare.Report.{Tally, start, conclude}
use nagios_plugins.ThreeWare.Arrays.{
  percent_column, controllers_of, is_transient, transient_unit, failed_unit, test_unit, test_units,
  test_controllers, test_arrays,
}

-- A line of `show unitstatus`: at least five words, of which the first is a letter and a number.
pub record IsUnitLine (line : String) : Type 0 where
  pub name : String
  pub raid : String
  pub state : String
  pub rebuilt : String
  pub verified : String
  pub more : List String
  pub words : split line ≡ name ∷ raid ∷ state ∷ rebuilt ∷ verified ∷ more
  pub unit : ℤ
  pub unit_number : parse_int (tail_from 1 name) ≡ some unit

abbrev third_word : List String → String
third_word (a ∷ b ∷ c ∷ _) = c
third_word _ = ""

abbrev pub state_of : String → String
state_of line = third_word (split line)

module _ (warn_true : Bool) where
  -- 0 for a unit that is sound, 1 for a transient state under -w, 2 for every other state.
  abbrev pub severity : String → ℕ
  severity state =
      if str_eq state "OK"
      then 0
      else if is_transient state
      then (if warn_true then 1 else 0)
      else 2

  -- 1 for each unit that is reported as not OK
  abbrev pub reported : String → ℕ
  reported state =
      if str_eq state "OK"
      then 0
      else if is_transient state
      then (if warn_true then 1 else 0)
      else 1

  abbrev Steps : Tally → List String → Tally → Type 0
  Steps t lines u =
      (u.status ≡ max t.status (max_of (λ l. severity (state_of l)) lines))
      × (u.not_ok ≡ t.not_ok + sum_of (λ l. reported (state_of l)) lines)
      × (u.number ≡ t.number + length lines)

  severity-le : (s : String) → severity s ≤ 2
  severity-le s = ground arith

  module _ (controller line : String) (w : IsUnitLine line) (t : Tally) where
    abbrev row : List String
    row = w.name ∷ w.raid ∷ w.state ∷ w.rebuilt ∷ w.verified ∷ w.more

    percent_total : (p : String) × (item (percent_column w.state) row ≡ returned p)
    percent_total =
        elim (Bool-cases (
          str_eq w.state "VERIFY-PAUSED"
          || str_eq w.state "VERIFYING"
          || str_eq w.state "INITIALIZING")) [
            | inl later ↦ rw later (w.verified, refl)
            | inr rebuild ↦ rw rebuild (w.rebuilt, refl)
          ]

    transient_unit_total :
        (u : Tally) × (transient_unit warn_true controller row w.state t ≡ returned u)
        × (u.status ≡ max t.status (if warn_true then 1 else 0))
        × (u.not_ok ≡ t.not_ok + (if warn_true then 1 else 0))
        × (u.number ≡ t.number)
    unfolding transient_unit
    transient_unit_total =
        let (p, e) = percent_total in
        rw (w.unit_number, e) (_, refl, ground arith, ground arith, ground arith)

    failed_unit_total :
        t.status ≤ 2
        → (u : Tally) × (failed_unit controller row w.state t ≡ returned u)
          × (u.status ≡ max t.status 2)
          × (u.not_ok ≡ t.not_ok + 1)
          × (u.number ≡ t.number)
    unfolding failed_unit
    failed_unit_total h = rw w.unit_number (_, refl, omega arith, refl, refl)

  test_unit_total :
      (controller line : String) (t : Tally)
      → t.status ≤ 2
      → IsUnitLine line
      → (u : Tally) × (test_unit warn_true controller line t ≡ returned u)
        × (u.status ≡ max t.status (severity (state_of line)))
        × (u.not_ok ≡ t.not_ok + reported (state_of line))
        × (u.number ≡ t.number + 1)
  unfolding test_unit
  test_unit_total controller line t h w =
      let t1 = record t { number = t.number + 1 } in
      let state = w.state in
      elim (Bool-cases (str_eq w.state "OK")) [
        | inl sound ↦ rw (w.words, sound) (t1, refl, omega arith, omega arith, refl)
        | inr unsound ↦ elim (Bool-cases (is_transient w.state)) [
          | inl transient ↦
              let (u, ran, s, n, k) = transient_unit_total controller line w t1 in
              rw (w.words, unsound, transient, ran) (u, refl, s, n, k)
          | inr broken ↦
              let (u, ran, s, n, k) = failed_unit_total controller line w t1 h in
              rw (w.words, unsound, broken, ran) (u, refl, s, n, k)
        ]
      ]

  pub test_units_total :
      (controller : String) (lines : List String) (t : Tally)
      → t.status ≤ 2
      → All IsUnitLine lines
      → (u : Tally) × (test_units warn_true controller lines t ≡ returned u) × Steps t lines u
  unfolding test_units
  test_units_total controller [] t h w = (t, refl, (omega arith, omega arith, omega arith))
  test_units_total controller (line ∷ lines) t h (here, later) =
      let (u, ran, s, n, k) = test_unit_total controller line t h here in
      let (v, rest, sum) =
        test_units_total controller lines u (omega (arith, severity-le (state_of line))) later in
      (v, rw ran rest, (omega arith, omega arith, omega arith))

  max_severity-le : (lines : List String) → max_of (λ l. severity (state_of l)) lines ≤ 2
  max_severity-le [] = omega arith
  max_severity-le (line ∷ lines) = omega (arith, severity-le (state_of line), max_severity-le lines)

  module _ (bin : String) (tw_cli : String → Attempt) (units : String → List String) where
    -- `units c` is what the utility lists for the controller, in lines of the right form.
    abbrev pub Lists : String → Type 0
    Lists c =
        (run bin tw_cli ("/" & c & " show unitstatus") ≡ returned (units c))
        × All IsUnitLine (units c)

    abbrev pub all_units : List String → List String
    all_units [] = []
    all_units (c ∷ cs) = units c ++ all_units cs

    test_controllers_total :
        (cs : List String) (t : Tally)
        → t.status ≤ 2
        → All Lists cs
        → (u : Tally) × (test_controllers bin tw_cli warn_true cs t ≡ returned u)
          × Steps t (all_units cs) u
    unfolding test_controllers
    test_controllers_total [] t h w = (t, refl, (omega arith, omega arith, omega arith))
    test_controllers_total (c ∷ cs) t h ((listed, good), later) =
        let (u, ran, sum) = test_units_total c (units c) t h good in
        let (v, rest, sum') =
          test_controllers_total cs u (omega (arith, max_severity-le (units c))) later in
        (
          v,
          rw (listed, ran) rest,
          (
            omega (arith, max_of-append {0} (λ l. severity (state_of l)) (units c) (all_units cs)),
            omega (arith, sum_of-append {0} (λ l. reported (state_of l)) (units c) (all_units cs)),
            omega (arith, length-append {0} (units c) (all_units cs)),
          ),
        )

-- When the utility lists controllers, and for each of them units in lines of the right form,
-- `test_arrays` returns the conclusion of a tally: its status is the worst severity of the states
-- of all units of all controllers, its failures are the units that are reported, and its number is
-- that of the units.
pub test_arrays_total :
    (bin : String) (tw_cli : String → Attempt) (units : String → List String)
    (warn_true no_summary : Bool) (lines cs : List String)
    → run bin tw_cli "show" ≡ returned lines
    → controllers_of lines ≡ returned cs
    → All (Lists warn_true bin tw_cli units) cs
    → let found = all_units warn_true bin tw_cli units cs in
      (t : Tally) × (test_arrays bin tw_cli warn_true no_summary
        ≡ returned (conclude no_summary "arrays" (length cs) t))
      × (t.status ≡ max_of (λ l. severity warn_true (state_of l)) found)
      × (t.not_ok ≡ sum_of (λ l. reported warn_true (state_of l)) found)
      × (t.number ≡ length found)
unfolding test_arrays
test_arrays_total bin tw_cli units warn_true no_summary lines cs shown named listed =
    let (t, ran, sum) =
      test_controllers_total warn_true bin tw_cli units cs start (omega arith) listed in
    (t, rw (shown, named, ran), omega arith, omega arith, omega arith)
