-- ===== src/LibNagios.antt =====
-- older/lib_nagios.py: the functions and the class that the older plugins share.
-- The module's constant CHECK_NAME, which the plugins overwrite, is the parameter `check_name`. The
-- environment's PATH and the file system are parameters of `which`, the child process of `run`.
pub mod Which
pub mod Laws
mod Tests
use Prim.Native.String.{count}
use nagios_plugins.Base.{
  ℕ, zero, suc, ◌-◌, String, Bool, true, false, not, ◌&&◌, ◌||◌, Option, none, some, List, [], ◌∷◌,
  leb, ltb, ◌==◌, str_eq, if◌then◌else◌, ◌⊎◌, inl, inr,
}
use nagios_plugins.Base.Int.{ℤ, pos, negsuc, ltb_ℤ}
use nagios_plugins.Regex.{
  Re, lit, one, star, seq, bol, eol, plus, optional, repeat, all_of, any_of, re_match, found,
}
use nagios_plugins.Text.{
  ◌&◌, is_empty, is_falsy, strip, split, split_on, starts_with, ends_with, lower,
}
use nagios_plugins.Text.Bytes.{str_bytes}
use nagios_plugins.Text.Decimal.{is_digit, show_ℤ, parse_int}
use nagios_plugins.Nagios.{
  ok_status, warning_status, critical_status, unknown_status, Outcome, returned, exited, raised,
  Setting, missing, number, text, Process, item, when, ◌>>=◌, ◌>>◌,
}

abbrev pub default_timeout : ℕ
default_timeout = 10

-- the first lines of `end`
abbrev shown_name : Option String → String
shown_name none = ""
shown_name (some s) = if is_empty s then "" else strip s & " "

unfoldable pub end {ℓ} : {A : Type ℓ} → Option String → ℕ → String → Outcome A
end name status message =
    if status == ok_status
    then exited ok_status (shown_name name & "OK: " & message)
    else if status == warning_status
    then exited warning_status (shown_name name & "WARNING: " & message)
    else if status == critical_status
    then exited critical_status (shown_name name & "CRITICAL: " & message)
    else exited unknown_status ("UNKNOWN: " & message)

-- `os.path.join`
unfoldable pub path_join : String → String → String
path_join base name =
    if starts_with name "/"
    then name
    else if is_empty base || ends_with b'/' base
    then base & name
    else base & "/" & name

pub record Files : Type 0 where
  pub is_file : String → Bool
  pub is_executable : String → Bool

-- the loop of `which`
unfoldable pub which_in : Option String → Files → String → List String → Outcome String
unfolding end path_join
which_in check_name fs executable [] = end check_name unknown_status (
    "'" & executable & "' cannot be found in path. Please install the " & executable
    & " program or fix your PATH environment variable")
which_in check_name fs executable (basepath ∷ more) =
    let path = path_join basepath executable in
    let later = which_in check_name fs executable more in
    if fs.is_file path
    then if fs.is_executable path
      then returned path
      else end check_name unknown_status ("utility '" & path & "' is not executable")
    else later

unfoldable pub which : Option String → String → Files → String → Outcome String
unfolding which_in split_on
which check_name path fs executable = which_in check_name fs executable (split_on b':' path)

pub record Tester : Type 0 where
  pub server : Option String
  pub timeout : Setting
  pub verbosity : Option ℕ

-- `NagiosTester.__init__`
abbrev pub new_tester : Tester
new_tester = record { server = some ""; timeout = number (pos default_timeout); verbosity = some 0 }

ascii_alnum : ℕ → Bool
ascii_alnum c =
    (leb b'a' c && leb c b'z') || (leb b'A' c && leb c b'Z') || (leb b'0' c && leb c b'9')

ascii_letter : ℕ → Bool
ascii_letter c = (leb b'a' c && leb c b'z') || (leb b'A' c && leb c b'Z')

alnum_dash : ℕ → Bool
unfolding ascii_alnum
alnum_dash c = ascii_alnum c || c == b'-'

-- A label of a domain with its dot, and `re_hostname`; `n` bounds the number of labels.
abbrev label : Re
label = seq (optional (seq (repeat 61 (one alnum_dash)) (one ascii_alnum))) (lit ".")

abbrev re_hostname : ℕ → Re
re_hostname n = all_of (
    bol
    ∷ plus ascii_alnum
    ∷ star alnum_dash
    ∷ optional (
        all_of (
          label
          ∷ repeat n label
          ∷ one ascii_letter
          ∷ one ascii_letter
          ∷ repeat 4 (one ascii_letter)
          ∷ []))
    ∷ eol
    ∷ [])

between : ℕ → ℕ → ℕ → Bool
between lo hi c = leb lo c && leb c hi

abbrev octet : Re
octet = any_of (
    seq (lit "25") (one (between b'0' b'5'))
    ∷ all_of (lit "2" ∷ one (between b'0' b'4') ∷ one is_digit ∷ [])
    ∷ all_of (one (between b'0' b'1') ∷ one is_digit ∷ one is_digit ∷ [])
    ∷ seq (optional (one is_digit)) (one is_digit)
    ∷ [])

abbrev re_ipaddr : Re
re_ipaddr = all_of (bol ∷ octet ∷ lit "." ∷ octet ∷ lit "." ∷ octet ∷ lit "." ∷ octet ∷ eol ∷ [])

valid_host : String → Bool
unfolding re_match repeat is_digit between alnum_dash ascii_letter
valid_host s = found (re_match (re_hostname (count s)) s) || found (re_match re_ipaddr s)

abbrev pub default_verbosity : Option ℕ → Option ℕ
default_verbosity none = some 0
default_verbosity (some v) = some v

abbrev seconds : Setting → String
seconds missing = "(None seconds)"
seconds (number n) =
    if ltb_ℤ n (pos 1) || ltb_ℤ (pos 1) n then "(" & show_ℤ n & " seconds)" else "(1 second)"
seconds (text s) = "(" & s & " seconds)"

abbrev lower_name : Option String → String
lower_name none = ""
lower_name (some s) = if is_empty s then "" else strip (lower s) & " "

module _ (check_name : Option String) where
  unfoldable pub validate_host : Tester → Outcome (Unit {0})
  unfolding end valid_host
  validate_host t = elim t.server [
    | none ↦
        end check_name unknown_status
          "You must supply a server hostname or ip address. See --help for details"
    | some server ↦ when (not (valid_host server)) (
        end check_name unknown_status
          "Server given does not appear to be a valid hostname or ip address")
  ]

  -- the range test in `validate_timeout`, with the assignment before it
  abbrev in_range : Tester → ℤ → Outcome Tester
  in_range t (negsuc n) = end check_name unknown_status "timeout must be between 1 and 3600 seconds"
  in_range t (pos n) =
      if leb 1 n && leb n 65535
      then returned (record t { timeout = number (pos n) })
      else end check_name unknown_status "timeout must be between 1 and 3600 seconds"

  abbrev timeout_of_text : Tester → Option ℤ → Outcome Tester
  timeout_of_text t none =
      end check_name unknown_status
        "timeout number must be a whole number between 1 and 3600 seconds"
  timeout_of_text t (some n) = in_range t n

  abbrev checked_timeout : Tester → Setting → Outcome Tester
  checked_timeout t missing = in_range t (pos default_timeout)
  checked_timeout t (number n) = in_range t n
  checked_timeout t (text s) = timeout_of_text t (parse_int s)

  unfoldable pub validate_timeout : Tester → Outcome Tester
  unfolding end parse_int
  validate_timeout t = do
    t' ← checked_timeout t t.timeout
    returned (record t' { verbosity = default_verbosity t'.verbosity })

  unfoldable pub validate_variables : Tester → Outcome Tester
  unfolding validate_host validate_timeout
  validate_variables t = do validate_host t; validate_timeout t

  -- the handler of SIGALRM
  unfoldable pub sighandler : Tester → Outcome (Unit {0})
  unfolding end show_ℤ strip lower
  sighandler t = end check_name critical_status (
      lower_name check_name
      & "plugin has self terminated after exceeding the timeout "
      & seconds t.timeout)

  abbrev spawned : String → String ⊎ Process → Outcome Process
  spawned cmd (inr p) = returned p
  spawned cmd (inl error) =
      if str_eq error "No such file or directory"
      then (do
        utility ← item 0 (split cmd)
        end check_name unknown_status ("Cannot find utility '" & utility & "'"))
      else (do
        utility ← item 0 (split cmd)
        end check_name unknown_status ("Error trying to run utility '" & utility & "' - " & error))

  -- `popen` is `Popen` and `communicate` with the text of an OSError, or the ended process. In
  -- Python 3 the output is bytes, which never equal the text "".
  unfoldable pub run :
      (is_python_3 : Bool) → (List String → String ⊎ Process) → String → Outcome (ℤ × String)
  unfolding end split str_bytes
  run is_python_3 popen cmd = do
    when (is_empty cmd)
        (end check_name unknown_status "Internal python error - no cmd supplied for run function")
    p ← spawned cmd (popen (split cmd))
    when (not is_python_3 && is_empty p.stdout) (do
      utility ← item 0 (split cmd)
      end check_name unknown_status ("No output from utility '" & utility & "'"))
    returned (p.returncode, if is_python_3 then str_bytes p.stdout else p.stdout)

-- `vprint`: the line that is printed, if any. A verbosity of `None` compares below every number, as
-- in Python 2.
unfoldable pub vprint : Tester → ℕ → String → Option String
vprint t threshold message = elim t.verbosity [
  | none ↦ none
  | some v ↦ if leb threshold v then some message else none
]
