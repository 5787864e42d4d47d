-- ===== src/LogServer/Log.antt =====
-- `generate_log`, `send_log`, and the message that `test_mysql_server` takes out of a log, of
-- check_logserver.py.
pub mod Laws
use nagios_plugins.Base.{
  ℕ, ◌+◌, ◌*◌, String, Bool, Option, none, some, List, [], ◌∷◌, ◌==◌, leb, if◌then◌else◌, drop,
}
use nagios_plugins.Text.{◌&◌, lower, rstrip, split}
use nagios_plugins.Text.Words.{spaced}
use nagios_plugins.Text.Decimal.{show}
use nagios_plugins.Nagios.{critical_status, Outcome, returned, raised, Exception, or_raise, ◌>>=◌}
use nagios_plugins.LogServer.Settings.{end, Settings}

-- What the log is made of: the script's name, `gethostname`, and the time in two forms.
pub record Stamp : Type 0 where
  pub script_name : String
  pub hostname : String
  pub timestamp : String
  pub epoch : String

-- the facility USER and the priority DEBUG
abbrev pri : ℕ
pri = 1 * 8 + 7

abbrev pub conn_type : (udp : Bool) → String
conn_type udp = if udp then "UDP" else "TCP"

unfoldable pub generate_log : Stamp → (udp : Bool) → String
generate_log w udp =
    "<"
    & show pri
    & ">"
    & w.timestamp
    & " "
    & lower w.hostname
    & " "
    & w.script_name
    & ": Nagios Log Server "
    & conn_type udp
    & " Check "
    & w.epoch

-- How connecting and sending end: `refused` is the TypeError of a socket that takes only bytes;
-- `failed` has the second item of the error, if the error has items.
pub data Sent : Type 0 where
  sent : Sent
  refused : Sent
  failed : Option String → Sent

-- `error[1]`
abbrev pub second_item : Option String → Outcome String
second_item e = or_raise Exception.type_error e

unfoldable pub send_log :
    (socket : (udp : Bool) → (host : String) → (port : ℕ) → String → Sent)
    → Settings
    → String
    → Outcome (Unit {0})
send_log socket s log = elim (socket s.udp s.logserver s.logserver_port (log & "\n")) [
  | sent ↦ returned tt
  | refused ↦ raised Exception.type_error
  | failed e ↦ second_item e >>= λ error. end critical_status (
      if leb 1 s.verbosity
      then "failed to send log to logserver '"
        & s.logserver
        & "' on tcp port '"
        & show s.logserver_port
        & "' - '"
        & error
        & "'"
      else "failed to send log to logserver - '" & error & "'")
]

-- `log_message` in `test_mysql_server`: the loop puts a space behind each word
unfoldable pub message_of : (log : String) → String
message_of log = rstrip (λ c. c == b' ') (spaced (drop 4 (split log)))
