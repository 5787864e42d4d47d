-- ===== src/LibNagios/Laws.antt =====
-- What the methods of `NagiosTester` guarantee (older/lib_nagios.py).
use nagios_plugins.Base.{
  ℕ, ◌≤◌, String, Bool, true, false, Option, none, some, if◌then◌else◌, List, ◌≡◌, ◌↔◌, ◌⊎◌, inl,
  inr, refl, arith, Option-cases,
}
use nagios_plugins.Base.Int.{ℤ, pos, negsuc}
use nagios_plugins.Text.{split, is_empty}
use nagios_plugins.Text.Bytes.{str_bytes, is_empty-str_bytes}
use nagios_plugins.Text.Decimal.{parse_int}
use nagios_plugins.Nagios.{Outcome, returned, Setting, missing, number, text, Process, ◌>>=◌}
use nagios_plugins.LibNagios.{
  Tester, default_timeout, end, in_range, checked_timeout, default_verbosity, validate_timeout, run,
}

-- The number that a timeout setting stands for.
abbrev pub denoted : Setting → Option ℤ
denoted missing = some (pos default_timeout)
denoted (number n) = some n
denoted (text s) = parse_int s

-- The tester with the timeout `n`, and a verbosity in place of `None`.
abbrev pub with_timeout : ℕ → Tester → Tester
with_timeout n t = record t { timeout = number (pos n); verbosity = default_verbosity t.verbosity }

module _ (check_name : Option String) (t : Tester) where
  abbrev Accepted : Option ℤ → Tester → Type 0
  Accepted z u = (n : ℕ) × (z ≡ some (pos n)) × (1 ≤ n) × (n ≤ 65535) × (u ≡ with_timeout n t)

  abbrev finished : Outcome Tester → Outcome Tester
  finished r = r >>= λ t'. returned (record t' { verbosity = default_verbosity t'.verbosity })

  in_range→Accepted :
      (z : ℤ) (u : Tester) → finished (in_range check_name t z) ≡ returned u → Accepted (some z) u
  unfolding end
  in_range→Accepted (negsuc n) u h = absurd (cc)
  in_range→Accepted (pos n) u h = (n, refl, ground arith, ground arith, ground arith)

  Accepted→in_range :
      (z : ℤ) (u : Tester) → Accepted (some z) u → finished (in_range check_name t z) ≡ returned u
  unfolding end
  Accepted→in_range z u (n, e, lo, hi, same) = ground arith

  checked_timeout-Accepted :
      (s : Setting) (u : Tester)
      → (finished (checked_timeout check_name t s) ≡ returned u) ↔ Accepted (denoted s) u
  checked_timeout-Accepted missing u = (in_range→Accepted _ u, Accepted→in_range _ u)
  checked_timeout-Accepted (number n) u = (in_range→Accepted n u, Accepted→in_range n u)
  checked_timeout-Accepted (text s) u = elim (Option-cases (parse_int s)) [
    | inl none_read ↦
        rw none_read (unfold end in (λ h. absurd (cc), λ (n, e, lo, hi, same). absurd (cc)))
    | inr (z, read) ↦ rw read (in_range→Accepted z u, Accepted→in_range z u)
  ]

-- `validate_timeout` returns exactly when the setting stands for a whole number from 1 to 65535:
-- that number is then the timeout, a verbosity of `None` has become 0, and nothing else changes.
pub validate_timeout_iff :
    (check_name : Option String) (t u : Tester)
    → (validate_timeout check_name t ≡ returned u) ↔ (
        (n : ℕ) × (denoted t.timeout ≡ some (pos n))
        × (1 ≤ n)
        × (n ≤ 65535)
        × (u ≡ with_timeout n t))
unfolding validate_timeout
validate_timeout_iff check_name t u = checked_timeout-Accepted check_name t t.timeout u

-- What `run` makes of the output: in Python 2 the text, if it is not empty, and in Python 3 the text
-- of the bytes, empty or not.
abbrev pub printed : (is_python_3 : Bool) → (stdout : String) → Option String
printed true stdout = some (str_bytes stdout)
printed false stdout = if is_empty stdout then none else some stdout

pub printed-there :
    (is_python_3 : Bool) (stdout output : String)
    → printed is_python_3 stdout ≡ some output
    → is_empty output ≡ false
printed-there true stdout output h = let there = is_empty-str_bytes stdout in ground (arith, h)
printed-there false stdout output h = ground (arith, h)

spawn-cases :
    (r : String ⊎ Process) → ((error : String) × (r ≡ inl error)) ⊎ ((p : Process) × (r ≡ inr p))
spawn-cases (inl error) = inl (error, refl)
spawn-cases (inr p) = inr (p, refl)

module _ (check_name : Option String) (popen : List String → String ⊎ Process) (cmd : String) where
  abbrev IsRun : Bool → ℤ → String → Type 0
  IsRun is_python_3 code out =
      (is_empty cmd ≡ false)
      × (stdout : String) × (printed is_python_3 stdout ≡ some out)
      × (popen (split cmd) ≡ inr (record { returncode = code; stdout = stdout }))

  IsRun-run :
      (is_python_3 : Bool) (code : ℤ) (out : String)
      → run check_name is_python_3 popen cmd ≡ returned (code, out)
      → IsRun is_python_3 code out
  unfolding run end
  IsRun-run true code out h = elim (spawn-cases (popen (split cmd))) [
    | inl (error, failed) ↦ absurd (ground (arith, h, failed))
    | inr (p, ended) ↦
        (ground (arith, h), p.stdout, ground (arith, h, ended), ground (arith, h, ended))
  ]
  IsRun-run false code out h = elim (spawn-cases (popen (split cmd))) [
    | inl (error, failed) ↦ absurd (ground (arith, h, failed))
    | inr (p, ended) ↦
        (ground (arith, h), p.stdout, ground (arith, h, ended), ground (arith, h, ended))
  ]

  run-IsRun :
      (is_python_3 : Bool) (code : ℤ) (out : String)
      → IsRun is_python_3 code out
      → run check_name is_python_3 popen cmd ≡ returned (code, out)
  unfolding run end
  run-IsRun true code out (written, stdout, there, ended) =
      rw (written, ended) (ground (arith, there))
  run-IsRun false code out (written, stdout, there, ended) =
      rw (written, ended) (ground (arith, there))

  -- `run` returns exactly when there is a command, the program could be started, and its output is
  -- one that is not refused: then the return code and the text of the output are the result.
  pub run_iff :
      (is_python_3 : Bool) (code : ℤ) (out : String)
      → (run check_name is_python_3 popen cmd ≡ returned (code, out)) ↔ (
          (is_empty cmd ≡ false)
          × (stdout : String) × (printed is_python_3 stdout ≡ some out)
          × (popen (split cmd) ≡ inr (record { returncode = code; stdout = stdout })))
  run_iff is_python_3 code out = (IsRun-run is_python_3 code out, run-IsRun is_python_3 code out)
