-- ===== src/LogServer/Settings.antt =====
-- `end` and the validation of the settings, of check_logserver.py.
pub mod Laws
pub mod Checks
use nagios_plugins.Base.{
  ℕ, String, Bool, true, false, not, ◌&&◌, ◌||◌, Option, none, some, List, [], ◌∷◌, ◌==◌, leb,
  if◌then◌else◌,
}
use nagios_plugins.Base.Int.{ℤ, pos, negsuc}
use nagios_plugins.Text.{◌&◌}
use nagios_plugins.Text.Decimal.{is_digit, parse_int}
use nagios_plugins.Regex.{Re, bol, eol, plus, all_of, is_word, re_match, found}
use nagios_plugins.Nagios.{
  ok_status, warning_status, critical_status, unknown_status, Outcome, returned, exited, ◌>>=◌,
  ◌>>◌,
}

abbrev help_status : ℕ
help_status = 4

unfoldable pub end {ℓ} : {A : Type ℓ} → ℕ → String → Outcome A
end exitcode message =
    if exitcode == ok_status
    then exited ok_status ("LogServer OK: " & message)
    else if exitcode == warning_status
    then exited warning_status ("WARNING: " & message)
    else if exitcode == critical_status
    then exited critical_status ("CRITICAL: " & message)
    else if exitcode == help_status
    then exited unknown_status ("UNKNOWN: " & message & ". See --help for details")
    else exited unknown_status ("UNKNOWN: " & message)

-- `LogServerTester`, as `main` fills it from the command line; a flag of `None` is false.
pub record Tester : Type 0 where
  pub delay : Option String
  pub logserver : Option String
  pub logserver_port : Option String
  pub mysql_column : Option String
  pub mysql_db : Option String
  pub mysql_port : Option String
  pub mysql_server : Option String
  pub mysql_table : Option String
  pub password : Option String
  pub timeout : Option String
  pub udp : Bool
  pub username : Option String
  pub verbosity : Option ℕ

-- the same variables behind the validation
pub record Settings : Type 0 where
  pub delay : ℕ
  pub logserver : String
  pub logserver_port : ℕ
  pub mysql_column : String
  pub mysql_db : String
  pub mysql_port : ℕ
  pub mysql_server : String
  pub mysql_table : String
  pub password : String
  pub timeout : ℕ
  pub udp : Bool
  pub username : String
  pub verbosity : ℕ

-- [\w\d\.-]
unfoldable pub is_usable : ℕ → Bool
unfolding is_word is_digit
is_usable c = is_word c || is_digit c || c == b'.' || c == b'-'

-- ^[\w\d\.-]+$
abbrev pub re_validation : Re
re_validation = all_of (bol ∷ plus is_usable ∷ eol ∷ [])

abbrev or_default {ℓ} : {A : Type ℓ} → A → Option A → A
or_default a none = a
or_default a (some b) = b

unfoldable pub usable : (exitcode : ℕ) → (message name : String) → Outcome String
usable exitcode message name =
    if found (re_match re_validation name) then returned name else end exitcode message

-- `int(variable)`, or the default in place of `None`
abbrev as_int : ℕ → Option String → Option ℤ
as_int default none = some (pos default)
as_int default (some s) = parse_int s

abbrev in_bounds : (lo hi : ℕ) → (failure : Outcome ℕ) → Option ℤ → Outcome ℕ
in_bounds lo hi failure none = failure
in_bounds lo hi failure (some (negsuc n)) = failure
in_bounds lo hi failure (some (pos n)) = if leb lo n && leb n hi then returned n else failure

unfoldable pub whole_number :
    (lo hi default : ℕ) → (exitcode : ℕ) → (message : String) → Option String → Outcome ℕ
whole_number lo hi default exitcode message variable =
    in_bounds lo hi (end exitcode message) (as_int default variable)

-- a variable that must be given
unfoldable pub required : String → Option String → Outcome String
required message none = end help_status message
required message (some s) = returned s

abbrev pub validate_logserver : Tester → Outcome String
validate_logserver t = do
  logserver ← required "You must enter a logserver hostname or ip address" t.logserver
  usable unknown_status "logserver name/ip address supplied contains unusable characters" logserver

abbrev pub validate_logserver_port : Tester → Outcome ℕ
validate_logserver_port t =
    whole_number 1 65535 514 unknown_status
      "logserver port number must a whole number between 1 and 65535" t.logserver_port

abbrev pub validate_credentials : Tester → Outcome (String × String)
validate_credentials t = do
  username ← required "You must enter a username for the MySQL database" t.username
  password ← required "You must enter a password for the MySQL database" t.password
  returned (username, password)

abbrev pub validate_mysql_server : Tester → (logserver : String) → Outcome String
validate_mysql_server t logserver =
    usable unknown_status "mysql server name/ip address supplied contains unusable characters"
      (or_default logserver t.mysql_server)

abbrev pub validate_mysql_port : Tester → Outcome ℕ
validate_mysql_port t =
    whole_number 1 65535 3306 unknown_status
      "mysql port number must be a whole number between 1 and 65535" t.mysql_port

abbrev pub validate_mysql_db : Tester → Outcome String
validate_mysql_db t =
    usable unknown_status "mysql database name supplied contains unusable characters"
      (or_default "syslog" t.mysql_db)

abbrev pub validate_mysql_table : Tester → Outcome String
validate_mysql_table t =
    usable help_status "mysql table name supplied contains unusable characters"
      (or_default "logs" t.mysql_table)

abbrev pub validate_mysql_column : Tester → Outcome String
validate_mysql_column t =
    usable unknown_status "mysql column name supplied contains unusable characters"
      (or_default "msg" t.mysql_column)

abbrev pub validate_delay : Tester → Outcome ℕ
validate_delay t =
    whole_number 0 3600 0 help_status
      "delay is the number of seconds between sending a log and testing the MySQL database for it. It must be a whole number between 0 and 3600 seconds"
      t.delay

abbrev pub validate_timeout : Tester → Outcome ℕ
validate_timeout t =
    whole_number 1 3600 30 help_status
      "timeout is in seconds and must be a whole number between 1 and 3600 (1 hour)" t.timeout

-- What the option parser counts is never negative, so `validate_verbosity` only replaces `None`.
unfoldable pub validate_variables : Tester → Outcome Settings
validate_variables t = do
  logserver ← validate_logserver t
  logserver_port ← validate_logserver_port t
  (username, password) ← validate_credentials t
  mysql_server ← validate_mysql_server t logserver
  mysql_port ← validate_mysql_port t
  mysql_db ← validate_mysql_db t
  mysql_table ← validate_mysql_table t
  mysql_column ← validate_mysql_column t
  delay ← validate_delay t
  timeout ← validate_timeout t
  returned (record {
    delay = delay;
    logserver = logserver;
    logserver_port = logserver_port;
    mysql_column = mysql_column;
    mysql_db = mysql_db;
    mysql_port = mysql_port;
    mysql_server = mysql_server;
    mysql_table = mysql_table;
    password = password;
    timeout = timeout;
    udp = t.udp;
    username = username;
    verbosity = or_default 0 t.verbosity;
  })
