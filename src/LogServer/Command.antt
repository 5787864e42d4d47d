-- ===== src/LogServer/Command.antt =====
-- `test_logserver` and `main` of check_logserver.py.
pub mod Laws
pub mod Success
use nagios_plugins.Base.{ℕ, String, Bool, true, false, not, List, ltb, if◌then◌else◌, length}
use nagios_plugins.Text.{◌&◌, is_empty, is_space, text_functions, rstrip}
use nagios_plugins.Text.Decimal.{show, parse_int, is_digit}
use nagios_plugins.Regex.{re_match, is_word}
use nagios_plugins.Nagios.{
  critical_status, unknown_status, Outcome, returned, exited, when, ◌>>=◌, ◌>>◌,
}
use nagios_plugins.LogServer.Settings.{
  end, Tester, Settings, is_usable, usable, whole_number, required, validate_variables,
}
use nagios_plugins.LogServer.Log.{Stamp, Sent, generate_log, send_log, message_of}
use nagios_plugins.LogServer.Mysql.{Answer, Database, query_of, test_mysql_server}

-- What the script meets: the log's parts, the network, the database, and the time that it took.
pub record World : Type 0 where
  pub has_mysqldb : Bool
  pub stamp : Stamp
  pub socket : (udp : Bool) → (host : String) → (port : ℕ) → String → Sent
  pub connect : Settings → Answer Database
  pub took : String

-- behind the validation
unfoldable pub test_with : World → Settings → Outcome ℕ
test_with w s = do
  let log = generate_log w.stamp s.udp
  when (is_empty log) (end critical_status "Log generation failed")
  send_log w.socket s log
  test_mysql_server w.connect s log

unfoldable pub test_logserver : World → Tester → Outcome ℕ
test_logserver w t = do s ← validate_variables t; test_with w s

-- `help` is the parser's help text.
unfoldable pub main :
    (help : String) → World → Tester → (args : List String) → (version : Bool) → Outcome (Unit {0})
main help w t args version =
    if not w.has_mysqldb
    then exited critical_status
        "You must have the MySQLdb python library installed to run this plugin"
    else if ltb 0 (length args)
    then exited unknown_status help
    else if version
    then exited unknown_status "0.9.1"
    else (do
      returncode ← test_logserver w t
      exited returncode ("No output returned by logserver test! Test took " & w.took & " seconds"))

-- For tests: computes with the whole script.
unfoldable pub script : Unit {0}
unfolding main test_logserver test_with test_mysql_server query_of send_log message_of generate_log
    validate_variables required whole_number usable is_usable end re_match is_word is_digit
    parse_int show rstrip text_functions is_space
script = tt
