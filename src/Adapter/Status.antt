-- ===== src/Adapter/Status.antt =====
-- The status that the setter of adapter_csv.py leaves.
use nagios_plugins.Base.{
  ℕ, String, Bool, true, false, Option, none, some, [], ◌∷◌, ◌≡◌, ◌⊎◌, inl, inr, refl, arith,
  eq_iff, str_eq, All, Bool-cases,
}
use mathlib.Core.Path.{subst}
use nagios_plugins.Base.Dict.{lookup, keys}
use nagios_plugins.Base.Int.{ℤ}
use nagios_plugins.Text.Occurrences.{Lacks}
use nagios_plugins.Nagios.{Outcome, returned, Process, >>=-eq-returned}
use nagios_plugins.Adapter.Result.{
  Errors, Code, number, text, equals, or_name, name_of, as_number, from_int, if_key, named, chosen,
  status_of, exit_code, ended, wrapped, cmd,
}
use nagios_plugins.Adapter.Csv.{result_of}

abbrev pub IsKey : Errors → String → Type 0
IsKey errors s = (z : ℤ) × (lookup s errors ≡ some z)

abbrev pub IsStatus : Errors → String → Type 0
IsStatus errors s = (s ≡ "UNKNOWN") ⊎ IsKey errors s

later-IsKey :
    (k : String) (n : ℤ) (errors : Errors) (s : String) → IsKey errors s → IsKey ((k, n) ∷ errors) s
later-IsKey k n errors s (z, h) = elim (Bool-cases (str_eq k s)) [
  | inl same ↦ (n, rw same refl)
  | inr other ↦ (z, rw other h)
]

first-IsKey : (k : String) (n : ℤ) (errors : Errors) → IsKey ((k, n) ∷ errors) k
first-IsKey k n errors = (n, rw ((eq_iff k k).1 refl) refl)

some-eq : (k s : String) → some k ≡ some s → k ≡ s
some-eq k s e = cc

or_name-IsKey :
    (o : Option String) (b : Bool) (k : String) (n : ℤ) (errors : Errors) (s : String)
    → (o ≡ some s → IsKey errors s)
    → or_name o b k ≡ some s
    → IsKey ((k, n) ∷ errors) s
or_name-IsKey (some later) b k n errors s h e = later-IsKey k n errors s (h e)
or_name-IsKey none true k n errors s h e =
    subst (λ t. IsKey ((k, n) ∷ errors) t) (some-eq k s e) (first-IsKey k n errors)
or_name-IsKey none false k n errors s h e = absurd (cc)

name_of-IsKey : (z : ℤ) (errors : Errors) (s : String) → name_of z errors ≡ some s → IsKey errors s
unfolding name_of
name_of-IsKey z [] s h = absurd (cc)
name_of-IsKey z ((k, n) ∷ errors) s h =
    or_name-IsKey (name_of z errors) (equals z n) k n errors s (name_of-IsKey z errors s) h

from_int-IsKey :
    (errors : Errors) (z : Option ℤ) (s : String) → from_int errors z ≡ some s → IsKey errors s
from_int-IsKey errors none s h = absurd (cc)
from_int-IsKey errors (some z) s h = name_of-IsKey z errors s h

if_key-IsStatus :
    (errors : Errors) (s : String) (o : Option ℤ)
    → lookup s errors ≡ o
    → IsStatus errors (if_key o s)
if_key-IsStatus errors s none h = inl refl
if_key-IsStatus errors s (some z) h = inr (z, h)

named-IsStatus : (errors : Errors) (c : Code) → IsStatus errors (named errors c)
named-IsStatus errors (number z) = inl refl
named-IsStatus errors (text s) = if_key-IsStatus errors s (lookup s errors) refl

chosen-IsStatus :
    (errors : Errors) (o : Option String) (z : Option ℤ) (other : String)
    → ((s : String) → o ≡ some s → IsKey errors s)
    → IsStatus errors other
    → IsStatus errors (chosen o z other)
chosen-IsStatus errors (some name) z other h k = inr (h name refl)
chosen-IsStatus errors none (some z) other h k = inl refl
chosen-IsStatus errors none none other h k = k

status_of-IsStatus :
    (errors : Errors) (returncode : Code) → IsStatus errors (status_of errors returncode)
unfolding status_of
status_of-IsStatus errors returncode =
    chosen-IsStatus errors (from_int errors (as_number returncode)) (as_number returncode)
      (named errors returncode) (from_int-IsKey errors (as_number returncode))
      (named-IsStatus errors returncode)

past :
    (k : String) (n : ℤ) (errors : Errors) (s : String) (z : ℤ)
    → str_eq k s ≡ false
    → lookup s ((k, n) ∷ errors) ≡ some z
    → lookup s errors ≡ some z
past k n errors s z h e = ground arith

-- A key has no character of a class that no key has.
pub key-Lacks :
    (p : ℕ → Bool) (errors : Errors) (s : String)
    → All (Lacks p) (keys errors)
    → IsKey errors s
    → Lacks p s
key-Lacks p [] s h (z, e) = absurd (cc)
key-Lacks p ((k, n) ∷ errors) s h (z, e) = elim (Bool-cases (str_eq k s)) [
  | inl same ↦ subst (λ t. Lacks p t) ((eq_iff k s).0 same) h.0
  | inr other ↦ key-Lacks p errors s h.1 (z, past k n errors s z other e)
]

pub status-Lacks :
    (p : ℕ → Bool) (errors : Errors) (s : String)
    → All (Lacks p) (keys errors)
    → Lacks p "UNKNOWN"
    → IsStatus errors s
    → Lacks p s
status-Lacks p errors s h k (inl e) = rw e k
status-Lacks p errors s h k (inr key) = key-Lacks p errors s h key

same_status :
    (s t x y : String)
    → ◌≡◌ {A = Outcome (String × String)} (returned (s, x)) (returned (t, y))
    → s ≡ t
same_status s t x y h = cc

ended-IsStatus :
    (errors : Errors) (shell : Bool) (cmdline : String) (r : String ⊎ Process) (s message : String)
    → ended errors shell cmdline r ≡ returned (s, message)
    → IsStatus errors s
ended-IsStatus errors shell cmdline (inl error) s message h =
    subst (IsStatus errors) (same_status _ s _ message h)
      (status_of-IsStatus errors (text "UNKNOWN"))
ended-IsStatus errors shell cmdline (inr p) s message h =
    let (code, _, e) = >>=-eq-returned (exit_code errors shell (wrapped p.returncode)) _ h in
    subst (IsStatus errors) (same_status _ s _ message e) (status_of-IsStatus errors (number code))

-- Whatever the adapter is given, through `--result` or as a command line that it runs, the status
-- that it goes on with is UNKNOWN or a key of ERRORS.
pub result_of-IsStatus :
    (errors : Errors) (result : Option String) (shell : Bool)
    (popen : Bool → String → String ⊎ Process) (argstr s message : String)
    → result_of errors result shell popen argstr ≡ returned (s, message)
    → IsStatus errors s
unfolding result_of cmd
result_of-IsStatus errors (some code) shell popen argstr s message h =
    subst (IsStatus errors) (same_status _ s _ message h) (status_of-IsStatus errors (text code))
result_of-IsStatus errors none shell popen argstr s message h =
    ended-IsStatus errors shell argstr (popen shell argstr) s message h
