-- ===== src/ThreeWare/Drives/Status.antt =====
-- The outcome of `test_drives` against the states of the drives (older/check_3ware_raid.py).
use nagios_plugins.Base.{
  ℕ, ◌+◌, ◌≤◌, max, String, Bool, false, List, [], ◌∷◌, ◌++◌, ◌≡◌, refl, arith, All, Bool-cases,
  inl, inr, if◌then◌else◌, length, max_of, sum_of, max_of-append, sum_of-append, length-append,
}
use nagios_plugins.Text.{◌&◌, split, is_empty}
use nagios_plugins.Nagios.{returned}
use nagios_plugins.ThreeWare.Utility.{Attempt, run}
use nagios_plugins.ThreeWare.Report.{Tally, start, conclude}
use nagios_plugins.ThreeWare.Drives.{
  first_words, is_passed, failed_drive, test_drive, test_drive_lines, test_ports, test_drives,
}

-- A line of `show drivestatus`: at least three words, none of them empty.
pub record IsDriveLine (line : String) : Type 0 where
  pub port : String
  pub state : String
  pub unit : String
  pub more : List String
  pub words : split line ≡ port ∷ state ∷ unit ∷ more
  pub port_some : is_empty port ≡ false
  pub unit_some : is_empty unit ≡ false

abbrev second_word : List String → String
second_word (a ∷ b ∷ _) = b
second_word _ = ""

abbrev pub state_of : String → String
state_of line = second_word (split line)

module _ (warn_true : Bool) where
  -- 2 for a drive that is reported, and 1 for the count of these
  abbrev pub severity : String → ℕ
  severity state = if is_passed warn_true state then 0 else 2

  abbrev pub reported : String → ℕ
  reported state = if is_passed warn_true state then 0 else 1

  severity-le : (s : String) → severity s ≤ 2
  severity-le s = ground arith

  max_severity-le : (lines : List String) → max_of (λ l. severity (state_of l)) lines ≤ 2
  max_severity-le [] = omega arith
  max_severity-le (line ∷ lines) = omega (arith, severity-le (state_of line), max_severity-le lines)

  -- the inner loop leaves the number of drives as it is
  abbrev Steps : Tally → List String → Tally → Type 0
  Steps t lines u =
      (u.status ≡ max t.status (max_of (λ l. severity (state_of l)) lines))
      × (u.not_ok ≡ t.not_ok + sum_of (λ l. reported (state_of l)) lines)

  failed_drive_total :
      (controller line : String) (t : Tally) (w : IsDriveLine line)
      → t.status ≤ 2
      → (u : Tally) × (failed_drive controller (w.port ∷ w.state ∷ w.unit ∷ w.more) w.state t
          ≡ returned u)
        × (u.status ≡ max t.status 2)
        × (u.not_ok ≡ t.not_ok + 1)
        × (u.number ≡ t.number)
  unfolding failed_drive
  failed_drive_total controller line t w h =
      rw (w.port_some, w.unit_some) (_, refl, omega arith, refl, refl)

  test_drive_total :
      (controller line : String) (t : Tally)
      → t.status ≤ 2
      → IsDriveLine line
      → (u : Tally) × (test_drive warn_true controller line t ≡ returned u)
        × (u.status ≡ max t.status (severity (state_of line)))
        × (u.not_ok ≡ t.not_ok + reported (state_of line))
        × (u.number ≡ t.number)
  unfolding test_drive
  test_drive_total controller line t h w = elim (Bool-cases (is_passed warn_true w.state)) [
    | inl sound ↦ rw (w.words, sound) (t, refl, omega arith, omega arith, refl)
    | inr broken ↦
        let (u, ran, s, n, k) = failed_drive_total controller line t w h in
        rw (w.words, broken, ran) (u, refl, s, n, k)
  ]

  test_drive_lines_total :
      (controller : String) (lines : List String) (t : Tally)
      → t.status ≤ 2
      → All IsDriveLine lines
      → (u : Tally) × (test_drive_lines warn_true controller lines t ≡ returned u)
        × Steps t lines u
        × (u.number ≡ t.number)
  unfolding test_drive_lines
  test_drive_lines_total controller [] t h w = (t, refl, (omega arith, omega arith), refl)
  test_drive_lines_total controller (line ∷ lines) t h (here, later) =
      let (u, ran, s, n, k) = test_drive_total controller line t h here in
      let (v, rest, sum, k') =
        test_drive_lines_total controller lines u (omega (arith, severity-le (state_of line)))
          later in
      (v, rw ran rest, (omega arith, omega arith), omega arith)

  module _ (bin : String) (tw_cli : String → Attempt) (drives : String → List String) where
    -- `drives c` is what the utility lists for the controller, in lines of the right form.
    abbrev pub Lists : String → Type 0
    Lists c =
        (run bin tw_cli ("/" & c & " show drivestatus") ≡ returned (drives c))
        × All IsDriveLine (drives c)

    abbrev pub all_drives : List String → List String
    all_drives [] = []
    all_drives (c ∷ cs) = drives c ++ all_drives cs

    test_ports_total :
        (cs : List String) (t : Tally)
        → t.status ≤ 2
        → All Lists cs
        → (u : Tally) × (test_ports bin tw_cli warn_true cs t ≡ returned u)
          × Steps t (all_drives cs) u
          × (u.number ≡ t.number + length (all_drives cs))
    unfolding test_ports
    test_ports_total [] t h w = (t, refl, (omega arith, omega arith), omega arith)
    test_ports_total (c ∷ cs) t h ((listed, good), later) =
        let counted = record t { number = t.number + length (drives c) } in
        let (u, ran, sum, k) = test_drive_lines_total c (drives c) counted h good in
        let (v, rest, sum', k') =
          test_ports_total cs u (omega (arith, max_severity-le (drives c))) later in
        (
          v,
          rw (listed, ran) rest,
          (
            omega
                (arith, max_of-append {0} (λ l. severity (state_of l)) (drives c) (all_drives cs)),
            omega
                (arith, sum_of-append {0} (λ l. reported (state_of l)) (drives c) (all_drives cs)),
          ),
          omega (arith, length-append {0} (drives c) (all_drives cs)),
        )

-- When the utility lists for each first word of its answer to "show" drives in lines of the right
-- form, `test_drives` returns the conclusion of a tally: its status is CRITICAL (2) if any drive is
-- not passed and OK (0) otherwise, its failures are the drives that are not passed, and its number
-- is that of the drives.
pub test_drives_total :
    (bin : String) (tw_cli : String → Attempt) (drives : String → List String)
    (warn_true no_summary : Bool) (lines : List String)
    → run bin tw_cli "show" ≡ returned lines
    → All (Lists warn_true bin tw_cli drives) (first_words lines)
    → let found = all_drives warn_true bin tw_cli drives (first_words lines) in
      (t : Tally) × (test_drives bin tw_cli warn_true no_summary
        ≡ returned (conclude no_summary "drives" (length (first_words lines)) t))
      × (t.status ≡ max_of (λ l. severity warn_true (state_of l)) found)
      × (t.not_ok ≡ sum_of (λ l. reported warn_true (state_of l)) found)
      × (t.number ≡ length found)
unfolding test_drives
test_drives_total bin tw_cli drives warn_true no_summary lines shown listed =
    let (t, ran, sum, k) =
      test_ports_total warn_true bin tw_cli drives (first_words lines) start (omega arith) listed in
    (t, rw (shown, ran), omega arith, omega arith, omega arith)
