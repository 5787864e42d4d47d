-- ===== src/LogServer/Tests.antt =====
-- Runs of check_logserver.py, and the theorems there.
use nagios_plugins.Base.{
  ℕ, suc, String, true, false, Option, none, some, List, [], ◌∷◌, ◌≡◌, refl, str_eq, ◌↔◌, ◌≤◌, ◌==◌,
  ◌||◌, inr, if◌then◌else◌,
}
use nagios_plugins.Base.Int.{pos}
use nagios_plugins.Nagios.{returned, exited, raised, Exception}
use nagios_plugins.LogServer.Settings.{Tester, Settings, validate_variables}
use nagios_plugins.LogServer.Log.{Stamp, Sent, sent, refused, generate_log, message_of}
use nagios_plugins.LogServer.Mysql.{Database}
use nagios_plugins.LogServer.Command.{World, main, test_logserver, script}
use nagios_plugins.LogServer.Command.Laws.{IsPython2, main_exits}
use nagios_plugins.LogServer.Command.Success.{ok_message, Arrived, test_logserver_iff}
use nagios_plugins.LogServer.Log.Laws.{IsPlain, sent_message, message_of-generate_log}
use nagios_plugins.LogServer.Mysql.{query_of}
use nagios_plugins.LogServer.Mysql.Laws.{query_of_safe}
use nagios_plugins.LogServer.Settings.Laws.{IsValid}
use nagios_plugins.Text.{is_space}
use nagios_plugins.Text.Occurrences.{occurrences}

abbrev stamp : Stamp
stamp = record {
  script_name = "check_logserver.py";
  hostname = "Web1";
  timestamp = "Nov 05 10:20:30";
  epoch = "1700000000.5";
}

-- a table with these messages
abbrev rows_with : String → List String → ℕ
rows_with message [] = 0
rows_with message (row ∷ rows) =
    if str_eq row message then suc (rows_with message rows) else rows_with message rows

abbrev database : List String → Database
database rows query message = inr ((pos (rows_with message rows) ∷ []) ∷ [])

abbrev world : (network : Sent) → (rows : List String) → World
world network rows = record {
  has_mysqldb = true;
  stamp = stamp;
  socket = λ udp host port text. network;
  connect = λ s. inr (database rows);
  took = "0.500";
}

abbrev tester : Option String → Tester
tester port = record {
  delay = none;
  logserver = some "logs.example.org";
  logserver_port = port;
  mysql_column = none;
  mysql_db = none;
  mysql_port = none;
  mysql_server = none;
  mysql_table = none;
  password = some "secret";
  timeout = none;
  udp = false;
  username = some "nagios";
  verbosity = none;
}

abbrev our_row : String
our_row = "check_logserver.py: Nagios Log Server TCP Check 1700000000.5"

log_there :
    generate_log stamp false
    ≡ "<15>Nov 05 10:20:30 web1 check_logserver.py: Nagios Log Server TCP Check 1700000000.5"
unfolding script
log_there = refl

arrived :
    main "" (world sent ("other" ∷ our_row ∷ [])) (tester none) [] false
    ≡ exited 0 "LogServer OK: log successfully sent and entered into database"
unfolding script
arrived = refl

lost :
    main "" (world sent ("other" ∷ [])) (tester none) [] false
    ≡ exited 2 "CRITICAL: log failed to appear in the logserver back end"
unfolding script
lost = refl

bad_port :
    main "" (world sent []) (tester (some "65536")) [] false
    ≡ exited 3 "UNKNOWN: logserver port number must a whole number between 1 and 65535"
unfolding script
bad_port = refl

takes_bytes : main "" (world refused []) (tester none) [] false ≡ raised Exception.type_error
unfolding script
takes_bytes = refl

abbrev settings : Settings
settings = record {
  delay = 0;
  logserver = "logs.example.org";
  logserver_port = 514;
  mysql_column = "msg";
  mysql_db = "syslog";
  mysql_port = 3306;
  mysql_server = "logs.example.org";
  mysql_table = "logs";
  password = "secret";
  timeout = 30;
  udp = false;
  username = "nagios";
  verbosity = 0;
}

settings_valid : validate_variables (tester none) ≡ returned settings
unfolding script
settings_valid = refl

query_of_safe_example :
    IsValid settings
    × (occurrences (λ c. c == b'`') (query_of settings) ≡ 4)
    × (occurrences (λ c. c == b'%') (query_of settings) ≡ 1)
    × (occurrences (λ c. c == b'\'' || c == b'"' || c == b';' || c == b'\\') (query_of settings)
        ≡ 0)
query_of_safe_example = query_of_safe (tester none) settings settings_valid

stamp-IsPlain : IsPlain stamp
unfolding is_space
stamp-IsPlain = record {
  month = "Nov";
  day = "05";
  clock = "10:20:30";
  three = refl;
  month_word = (refl, refl);
  day_word = (refl, refl);
  clock_word = (refl, refl);
  hostname_word = (refl, refl);
  script_name_word = (refl, refl);
  epoch_word = (refl, refl);
}

message_of-generate_log_example : message_of (generate_log stamp true) ≡ sent_message stamp true
message_of-generate_log_example = message_of-generate_log stamp true stamp-IsPlain

abbrev good_world : World
good_world = world sent ("other" ∷ our_row ∷ [])

test_logserver_iff_example : (test_logserver good_world (tester none) ≡ exited 0 ok_message) ↔ (
    (ok_message ≡ ok_message)
    × (s : Settings) × (validate_variables (tester none) ≡ returned s)
    × Arrived good_world s)
test_logserver_iff_example = test_logserver_iff good_world (tester none) ok_message stamp-IsPlain

good_world-IsPython2 : IsPython2 good_world
good_world-IsPython2 = record { socket = λ udp host port text. tt; connect = λ s query message. tt }

main_exits_example :
    (n : ℕ) × (message : String) × (main "" good_world (tester none) [] false ≡ exited n message)
    × (n ≤ 3)
main_exits_example = main_exits "" good_world (tester none) [] false good_world-IsPython2
