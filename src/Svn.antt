-- ===== src/Svn.antt =====
-- older/check_svn.py. The class inherits from the one of older/lib_nagios.py, which
-- gives the output of a command as a text; in Python 3 that is `str` of bytes.
pub mod Laws
mod Tests
use nagios_plugins.Base.{
  ℕ, String, Bool, true, false, ◌&&◌, ◌||◌, Option, none, some, List, [], ◌∷◌, ◌==◌, leb, ltb,
  str_eq, if◌then◌else◌, ◌⊎◌, length, or_zero,
}
use nagios_plugins.Base.Int.{ℤ, pos, negsuc, is_zero}
use nagios_plugins.Text.{
  ◌&◌, is_empty, is_falsy, lstrip, rstrip, strip, replace, is_space, text_functions, or_empty,
}
use nagios_plugins.Text.Decimal.{show, parse_int, is_digit}
use nagios_plugins.Text.Bytes.{str_bytes, escaped_all, escaped}
use nagios_plugins.LibNagios as Nagios
use nagios_plugins.LibNagios.{end, which, validate_host, validate_timeout, Files}
use nagios_plugins.Nagios.{
  ok_status, warning_status, critical_status, unknown_status, Outcome, returned, exited, Process,
  ◌>>=◌, ◌>>◌,
}

-- `SvnTester`, as `main` fills it; a flag of `None` is false.
pub record Tester : Type 0 where
  pub base : Nagios.Tester
  pub directory : Option String
  pub http : Bool
  pub https : Bool
  pub password : Option String
  pub port : Option String
  pub username : Option String

-- What the script meets: the interpreter, PATH, the files, and how a command ends.
pub record World : Type 0 where
  pub is_python_3 : Bool
  pub path : String
  pub files : Files
  pub popen : List String → String ⊎ Process

module _ (check_name : Option String) where
  unfoldable pub validate_protocol : (http https : Bool) → Outcome String
  unfolding end
  validate_protocol http https =
      if http && https
      then end check_name unknown_status
          "cannot choose both http and https, they are mutually exclusive"
      else if http
      then returned "http"
      else if https
      then returned "https"
      else returned "svn"

  abbrev bad_port : Outcome (Option ℕ)
  bad_port = end check_name unknown_status "port number must be a whole number between 1 and 65535"

  abbrev port_in_range : Option ℤ → Outcome (Option ℕ)
  port_in_range none = bad_port
  port_in_range (some (negsuc n)) = bad_port
  port_in_range (some (pos n)) = if leb 1 n && leb n 65535 then returned (some n) else bad_port

  -- `none` stands for the port "", which is left out of the address.
  unfoldable pub validate_port : Option String → Outcome (Option ℕ)
  unfolding end
  validate_port none = returned none
  validate_port (some s) = port_in_range (parse_int s)

abbrev port_text : Option ℕ → String
port_text none = ""
port_text (some n) = ":" & show n

abbrev directory_text : Option String → String
directory_text none = ""
directory_text (some directory) = "/" & lstrip (λ c. c == b'/') directory

unfoldable pub generate_uri :
    (protocol server : String) → Option ℕ → (directory : Option String) → String
generate_uri protocol server port directory =
    protocol & "://" & server & port_text port & directory_text directory

-- `cmd += " --name=%s" % value`, if there is a value
abbrev pub option : String → Option String → String
option name value = if is_falsy value then "" else name & or_empty value

unfoldable pub command_of : (svn uri : String) → (username password : Option String) → String
command_of svn uri username password =
    ((svn & " ls " & uri & " --no-auth-cache --non-interactive") & option " --username=" username)
    & option " --password=" password

abbrev is_prefix_char : ℕ → Bool
is_prefix_char c = c == b's' || c == b'v' || c == b'n' || c == b':' || c == b' '

-- `lstrip` takes a set of characters.
unfoldable pub failure_of : (output : String) → String
failure_of output =
    let told =
      if str_eq output "svn: Can't get password\n"
      then "password required to access this repository but none was given or cached"
      else output in
    "Error connecting to svn server - "
    & rstrip (λ c. c == b' ') (replace b'\n' " " (lstrip is_prefix_char told))

-- the result, from the return code and the output
unfoldable pub conclusion : (verbosity : ℕ) → ℤ → (output : String) → ℕ × String
conclusion verbosity result output =
    if is_zero result
    then if is_empty output
      then (
        warning_status,
        "Test passed but no output was received from svn program, abnormal condition, please check.",
      )
      else if leb 1 verbosity
      then (
        ok_status,
        "svn repository online - directory listing: " & strip (replace b'\n' " " output),
      )
      else (ok_status, "svn repository online - directory listing successful")
    else if is_empty output
    then (critical_status, "Connection failed. There was no output from svn")
    else (critical_status, failure_of output)

abbrev server_of : Nagios.Tester → String
server_of t = or_empty t.server

unfoldable pub test_svn : (check_name : Option String) → World → Tester → Outcome (ℕ × String)
test_svn check_name w t = do
  validate_host check_name t.base
  protocol ← validate_protocol check_name t.http t.https
  port ← validate_port check_name t.port
  valid ← validate_timeout check_name t.base
  svn ← which check_name w.path w.files "svn"
  (result, output) ← Nagios.run check_name w.is_python_3 w.popen (
      command_of svn (generate_uri protocol (server_of valid) port t.directory) t.username
        t.password)
  returned (conclusion (or_zero valid.verbosity) result output)

-- What the option parser leaves for `main`; `took` is the time, where -T asks for it.
pub record Options : Type 0 where
  pub tester : Tester
  pub service : Option String
  pub took : Option String
  pub args : List String
  pub version : Bool

-- `nagios.CHECK_NAME`
abbrev name_of : Option String → Option String
name_of none = some "SVN"
name_of (some s) = some s

abbrev timed : Option String → String → String
timed none output = output
timed (some took) output = output & ". Test completed in " & took & " seconds"

-- `help` is the parser's help text.
unfoldable pub main : (help : String) → World → Options → Outcome (Unit {0})
main help w o =
    if ltb 0 (length o.args)
    then exited unknown_status help
    else if o.version
    then exited unknown_status "Nagios Plugin for Subversion version 0.7.0"
    else (do
      (returncode, output) ← test_svn (name_of o.service) w o.tester
      end (name_of o.service) returncode (timed o.took output))

-- For tests: computes with the whole script.
unfoldable pub script : Unit {0}
unfolding main test_svn conclusion failure_of command_of generate_uri validate_port
    validate_protocol validate_host validate_timeout which Nagios.run show parse_int is_digit
    is_space text_functions lstrip rstrip str_bytes escaped_all escaped
script = tt
