-- ===== src/Yum/Command/Laws.antt =====
-- Which settings and outputs let check_yum.py go on.
use nagios_plugins.Base.{
  ℕ, ◌≤◌, String, Bool, true, false, Option, none, some, List, [], ◌∷◌, ◌≡◌, ◌≢◌, sym, refl, arith,
  All,
}
use nagios_plugins.Base.Int.{ℤ, pos, negsuc}
use nagios_plugins.Text.{◌&◌, contains, split, split_on, is_empty}
use nagios_plugins.Nagios.{
  Outcome, returned, number, Process, item, when, ◌>>=◌, ◌>>◌, >>=-eq-returned,
}
use nagios_plugins.Yum.Returncode.{end, check_returncode}
use nagios_plugins.Yum.Command.{
  Tester, Host, default_timeout, as_int, in_range, not_negative, validate_all_variables,
  with_options, spawned, check_lines, run,
}

in_range-returned :
    (z : Option ℤ) (n : ℕ) → in_range z ≡ returned n → (z ≡ some (pos n)) × (1 ≤ n) × (n ≤ 3600)
unfolding end
in_range-returned none n h = absurd (cc)
in_range-returned (some (negsuc m)) n h = absurd (cc)
in_range-returned (some (pos m)) n h = ground arith

not_negative-returned : (z : Option ℤ) (n : ℕ) → not_negative z ≡ returned n → z ≡ some (pos n)
unfolding end
not_negative-returned none n h = absurd (cc)
not_negative-returned (some (negsuc m)) n h = absurd (cc)
not_negative-returned (some (pos m)) n h = ground arith

-- When the settings are accepted, the timeout given (30 if none was) reads as a whole number from 1
-- to 3600 and the verbosity (0 if none was) as one that is not negative, and the tester that comes
-- back holds these two numbers in their places.
pub validate_all_variables_lem :
    (t u : Tester)
    → validate_all_variables t ≡ returned u
    → (timeout verbosity : ℕ) × (as_int default_timeout t.timeout ≡ some (pos timeout))
      × (1 ≤ timeout)
      × (timeout ≤ 3600)
      × (as_int 0 t.verbosity ≡ some (pos verbosity))
      × (u ≡ record t { timeout = number (pos timeout); verbosity = number (pos verbosity) })
unfolding validate_all_variables
validate_all_variables_lem t u e =
    let (n, ranged, e₁) = >>=-eq-returned (in_range (as_int default_timeout t.timeout)) _ e in
    let (v, positive, e₂) = >>=-eq-returned (not_negative (as_int 0 t.verbosity)) _ e₁ in
    let (read, low, high) = in_range-returned (as_int default_timeout t.timeout) n ranged in
    (n, v, read, low, high, not_negative-returned (as_int 0 t.verbosity) v positive, cc)

-- a line that `run` lets pass
abbrev pub IsReadable : String → Type 0
IsReadable line =
    (contains "Permission denied" line ≡ false)
    × (contains "Skipping unreadable repository" line ≡ false)

check_lines-returned :
    (lines : List String) → check_lines lines ≡ returned tt → All IsReadable lines
unfolding check_lines end
check_lines-returned [] h = tt
check_lines-returned (line ∷ lines) h = let rest = check_lines-returned lines in ground arith

-- A guard whose action never returns.
past_guard :
    (b : Bool) (m : Outcome (Unit {0})) {A : Type 0} (k : Outcome A) (a : A)
    → (m ≢ returned tt)
    → (when b m >> k) ≡ returned a
    → (b ≡ false) × (k ≡ returned a)
past_guard true m k a never h = let (x, e, _) = >>=-eq-returned m _ h in absurd (never e)
past_guard false m k a never h = (refl, h)

unprinted :
    (words : List String)
    → (item 0 words >>= λ utility.
        end {A = Unit {0}} 3 ("No output from utility '" & utility & "'"))
      ≢ returned tt
unfolding end
unprinted [] h = cc
unprinted (w ∷ words) h = cc

same_output : (xs ys : List String) → returned xs ≡ returned ys → xs ≡ ys
same_output xs ys h = cc

-- When `run` returns lines, the command was started with the tester's options added to it, the
-- lines are those of a process that printed something, no line reports a denied permission or an
-- unreadable repository, and the process's return code passed `check_returncode`.
pub run-returned :
    (t : Tester) (h : Host) (cmd : String) (output : List String)
    → run t h cmd ≡ returned output
    → (p : Process) × (spawned (with_options t cmd) (h.popen (split (with_options t cmd)))
        ≡ returned p)
      × (is_empty cmd ≡ false)
      × (is_empty p.stdout ≡ false)
      × (output ≡ split_on b'\n' p.stdout)
      × All IsReadable output
      × (check_returncode t.no_warn_on_lock h.dnf_exists p.returncode output ≡ returned tt)
unfolding run end
run-returned t h cmd output e =
    let (named, e₀) = past_guard (is_empty cmd) _ _ output (λ z. cc) e in
    let full = with_options t cmd in
    let (p, started, e₁) = >>=-eq-returned (spawned full (h.popen (split full))) _ e₀ in
    let (printed, e₂) = past_guard (is_empty p.stdout) _ _ output (unprinted (split full)) e₁ in
    let (_, passed, e₃) = >>=-eq-returned (check_lines (split_on b'\n' p.stdout)) _ e₂ in
    let (_, accepted, e₄) =
      >>=-eq-returned
        (check_returncode t.no_warn_on_lock h.dnf_exists p.returncode (split_on b'\n' p.stdout)) _
        e₃ in
    let same = same_output (split_on b'\n' p.stdout) output e₄ in
    rw (sym same) (
      p,
      started,
      named,
      printed,
      refl,
      check_lines-returned (split_on b'\n' p.stdout) passed,
      accepted,
    )
