-- ===== src/Nagios.antt =====
-- What every plugin shares: the exit statuses, and the ways in which Python code ends.
use nagios_plugins.Base.{
  ℕ, ◌≤◌, String, Bool, true, false, Option, none, some, List, ◌≡◌, refl, get_elem?, arith, leb,
}
use nagios_plugins.Base.Int.{ℤ}

abbrev pub ok_status : ℕ
ok_status = 0

abbrev pub warning_status : ℕ
warning_status = 1

abbrev pub critical_status : ℕ
critical_status = 2

abbrev pub unknown_status : ℕ
unknown_status = 3

pub data Exception : Type 0 where
  index_error key_error value_error type_error unbound_local zero_division : Exception

-- `exited` is `sys.exit(status)`, with the line that was printed before it.
pub data Outcome {ℓ} (A : Type ℓ) : Type ℓ where
  returned : A → Outcome A
  exited : ℕ → String → Outcome A
  raised : Exception → Outcome A

infixl 5 ◌>>=◌ ◌>>◌
abbrev pub ◌>>=◌ {ℓ κ} : {A : Type ℓ} {B : Type κ} → Outcome A → (A → Outcome B) → Outcome B
returned a >>= f = f a
exited n s >>= f = exited n s
raised e >>= f = raised e

abbrev pub ◌>>◌ {ℓ} : {B : Type ℓ} → Outcome (Unit {0}) → Outcome B → Outcome B
m >> k = m >>= λ _. k

-- `if test: action`
abbrev pub when : Bool → Outcome (Unit {0}) → Outcome (Unit {0})
when true m = m
when false m = returned tt

-- A value that may be missing, with the exception that its absence raises.
abbrev pub or_raise {ℓ} : {A : Type ℓ} → Exception → Option A → Outcome A
or_raise e none = raised e
or_raise e (some a) = returned a

-- `xs[i]`, for `i` at least zero
abbrev pub item {ℓ} : {A : Type ℓ} → ℕ → List A → Outcome A
item i xs = or_raise index_error (get_elem? xs i)

-- `verbosity >= k`; in Python 2 `None` is below every number, in Python 3 it has no order.
abbrev pub at_least : (orders_none : Bool) → Option ℕ → ℕ → Outcome Bool
at_least orders_none (some v) k = returned (leb k v)
at_least true none k = returned false
at_least false none k = raised type_error

-- A value from the command line: `None`, an int that the code set, or text.
pub data Setting : Type 0 where
  missing : Setting
  number : ℤ → Setting
  text : String → Setting

-- A child process that has ended.
pub record Process : Type 0 where
  pub returncode : ℤ
  pub stdout : String

pub >>=-eq-returned {ℓ κ} :
    {A : Type ℓ} {B : Type κ} (m : Outcome A) (f : A → Outcome B) {b : B}
    → (m >>= f) ≡ returned b
    → (a : A) × (m ≡ returned a) × (f a ≡ returned b)
>>=-eq-returned (returned a) f h = (a, refl, h)
>>=-eq-returned (exited n s) f h = cc
>>=-eq-returned (raised e) f h = cc

pub returned-injective {ℓ} :
    {A : Type ℓ} {a b : A} → ◌≡◌ {A = Outcome A} (returned a) (returned b) → a ≡ b
returned-injective h = cc

-- How a part of a script may end: what it may return, its exit statuses, and its exceptions.
module _ {ℓ} {A : Type ℓ} (R : A → Type 0) (P : ℕ → Type 0) (Q : Exception → Type 0) where
  abbrev pub Ends : Outcome A → Type 0
  Ends (returned a) = R a
  Ends (exited n s) = P n
  Ends (raised e) = Q e

pub >>=-Ends {ℓ κ} :
    {A : Type ℓ} {B : Type κ} (R : A → Type 0) (S : B → Type 0) (P : ℕ → Type 0)
    (Q : Exception → Type 0) (m : Outcome A) (f : A → Outcome B)
    → Ends R P Q m
    → ((a : A) → R a → Ends S P Q (f a))
    → Ends S P Q (m >>= f)
>>=-Ends R S P Q (returned a) f h k = k a h
>>=-Ends R S P Q (exited n s) f h k = h
>>=-Ends R S P Q (raised e) f h k = h

abbrev pub AnyValue {ℓ} : {A : Type ℓ} → A → Type 0
AnyValue a = Unit

-- a part that does not exit with OK
abbrev pub Fails {ℓ} : {A : Type ℓ} → Outcome A → Type 0
Fails m = Ends AnyValue (λ n. 1 ≤ n) (λ e. Unit) m

pub past {ℓ κ} :
    {A : Type ℓ} {B : Type κ} (m : Outcome A) (f : A → Outcome B) {message : String}
    → Fails m
    → (m >>= f) ≡ exited 0 message
    → (a : A) × (m ≡ returned a) × (f a ≡ exited 0 message)
past (returned a) f h e = (a, refl, e)
past (exited n s) f h e = absurd (ground (arith, e, h))
past (raised x) f h e = absurd (cc)

-- the verbosity has an order: -v was given, or the Python is 2
abbrev pub IsOrdered : (orders_none : Bool) → Option ℕ → Type 0
IsOrdered orders_none none = orders_none ≡ true
IsOrdered orders_none (some v) = Unit

abbrev pub is_loud : Option ℕ → ℕ → Bool
is_loud none k = false
is_loud (some v) k = leb k v

pub at_least-returned :
    (orders_none : Bool) (verbosity : Option ℕ) (k : ℕ)
    → IsOrdered orders_none verbosity
    → at_least orders_none verbosity k ≡ returned (is_loud verbosity k)
at_least-returned orders_none none k h = rw h refl
at_least-returned orders_none (some v) k h = refl
