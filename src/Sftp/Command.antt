-- ===== src/Sftp/Command.antt =====
-- `which`, `run`, `test_sftp` and `main` of older/check_sftp.py.
pub mod Laws
use nagios_plugins.Base.{
  ℕ, String, Bool, true, false, not, ◌||◌, Option, none, some, List, [], ◌∷◌, ◌==◌, leb, ltb,
  if◌then◌else◌, length, code,
}
use nagios_plugins.Base.Int.{ℤ, pos, negsuc, is_zero}
use Prim.Native.String.{[], ◌∷◌}
use nagios_plugins.Text.{
  ◌&◌, is_empty, is_falsy, is_space, split_on, lstrip, rstrip, replace, text_functions, or_empty,
}
use nagios_plugins.Text.Decimal.{show, parse_int, is_digit}
use nagios_plugins.LibNagios.{path_join}
use nagios_plugins.Nagios.{
  at_least, ok_status, critical_status, unknown_status, Outcome, returned, exited, raised,
  Exception, or_raise, when, ◌>>=◌, ◌>>◌,
}
use nagios_plugins.Sftp.Items.{end, is_entry, test_each, test_items}

-- What the script meets. `orders_none` says that `None` is below every number, as in Python 2;
-- `communicate` gives the return code and the output of a shell command, or nothing where it
-- refuses the text that it is to send, as in Python 3.
pub record World : Type 0 where
  pub path : String
  pub is_file : String → Bool
  pub is_executable : String → Bool
  pub is_readable : String → Bool
  pub orders_none : Bool
  pub communicate : String → Option (ℤ × String)

-- What the option parser leaves for `main`; a list of `None` is empty, a flag of `None` false.
pub record Options : Type 0 where
  pub server : Option String
  pub port : Option String
  pub user : Option String
  pub sshkey : Option String
  pub nostricthostkey : Bool
  pub files : List String
  pub dirs : List String
  pub timeout : Option String
  pub verbosity : Option ℕ
  pub args : List String

-- the loop of `which`
unfoldable pub which_in : World → String → List String → Option String
which_in w executable [] = none
which_in w executable (basepath ∷ more) =
    let later = which_in w executable more in
    if w.is_file (path_join basepath executable)
    then some (path_join basepath executable)
    else later

unfoldable pub run : World → String → Option ℕ → Outcome (ℤ × String)
run w cmd verbosity = do
  loud ← at_least w.orders_none verbosity 2
  result ← or_raise Exception.type_error (w.communicate cmd)
  louder ← at_least w.orders_none verbosity 3
  returned result

-- a character of a text
abbrev is_among : String → ℕ → Bool
is_among [] c = false
is_among (d ∷ s) c = c == code d || is_among s c

-- an option with its value, if that is given
abbrev option : String → Option String → String
option name value = if is_falsy value then "" else name & or_empty value & " "

unfoldable pub command_of :
    (sftp server : String) → (port : ℕ) → (user sshkey : Option String) → Bool → String
command_of sftp server port user sshkey nostricthostkey =
    sftp
    & " -oPort="
    & show port
    & " "
    & option "-oUser=" user
    & option "-oIdentityFile=" sshkey
    & "-oPreferredAuthentications=publickey "
    & (if nostricthostkey then "-oStrictHostKeyChecking=no " else "")
    & server

abbrev one_line : String → String
one_line s = rstrip (is_among ", ") (lstrip (is_among ", ") (replace b'\n' ", " s))

-- `output2`; `lstrip` takes a set of characters
unfoldable pub shown : (many : Bool) → (server output : String) → String
shown many server output =
    let plain = replace b'\r' "" (lstrip (is_among ("Connecting to " & server & "...")) output) in
    if many then plain else one_line plain

-- `if user: if verbosity >= 2`
abbrev noted : World → Option String → Option ℕ → Outcome (Unit {0})
noted w value verbosity =
    if is_falsy value
    then returned tt
    else (do loud ← at_least w.orders_none verbosity 2; returned tt)

unfoldable pub test_sftp : World → (sftp server : String) → (port : ℕ) → Options → Outcome ℕ
test_sftp w sftp server port o = do
  noted w o.user o.verbosity
  (result, output) ←
      run w (command_of sftp server port o.user o.sshkey o.nostricthostkey) o.verbosity
  many ← at_least w.orders_none o.verbosity 2
  let output2 = shown many server output
  when (not (is_zero result)) (end critical_status output2)
  test_items output o.files
  test_items output o.dirs
  end ok_status output2

abbrev given : (default : ℤ) → Option String → Option ℤ
given default none = some default
given default (some s) = if is_empty s then some default else parse_int s

-- `int(...)` with the message of its ValueError, and the test of the range
abbrev within : (hi : ℕ) → (not_int not_within : String) → Option ℤ → Outcome ℕ
within hi not_int not_within none = end unknown_status not_int
within hi not_int not_within (some (negsuc n)) = end unknown_status not_within
within hi not_int not_within (some (pos n)) =
    if ltb n 1 || ltb hi n then end unknown_status not_within else returned n

abbrev find_sftp : World → Option String → Outcome String
find_sftp w none = end unknown_status "sftp could not be found in the path"
find_sftp w (some sftp) =
    if w.is_executable sftp then returned sftp else end unknown_status (sftp & " is not executable")

abbrev server_of : Option String → Outcome String
server_of none = end unknown_status "You must enter a server name or ip address to connect to"
server_of (some s) =
    if is_empty s
    then end unknown_status "You must enter a server name or ip address to connect to"
    else returned s

unfoldable pub check_sshkey : World → Options → Outcome (Unit {0})
check_sshkey w o = do
  noted w o.sshkey o.verbosity
  when (not (is_falsy o.sshkey)) (
      if not (w.is_file (or_empty o.sshkey))
      then end unknown_status ("cannot find ssh key file \"" & or_empty o.sshkey & "\"")
      else when (not (w.is_readable (or_empty o.sshkey)))
          (end unknown_status ("ssh key file \"" & or_empty o.sshkey & "\" is not readable")))

-- `help` is the parser's help text.
unfoldable pub main : (help : String) → World → Options → Outcome (Unit {0})
main help w o = if ltb 0 (length o.args) then exited unknown_status help else (do
  timeout ←
      within 3600 "timeout value must be a numeric integer"
        "timeout is in seconds and must be a number between 1 and 3600 (1 hour)"
        (given (pos 30) o.timeout)
  sftp ← find_sftp w (which_in w "sftp" (split_on b':' w.path))
  server ← server_of o.server
  port ←
      within 65335 "port number must be a numeric integer" "port number must be between 1 and 65535"
        (given (pos 22) o.port)
  check_sshkey w o
  result ← test_sftp w sftp server port o
  exited unknown_status "")

-- For tests: computes with the whole script.
unfoldable pub script : Unit {0}
unfolding main check_sshkey test_sftp shown command_of run which_in test_items test_each is_entry
    end show parse_int is_digit path_join text_functions is_space lstrip rstrip
script = tt
