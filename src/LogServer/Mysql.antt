-- ===== src/LogServer/Mysql.antt =====
-- `test_mysql_server` of check_logserver.py.
pub mod Laws
use nagios_plugins.Base.{ℕ, String, Option, List, [], ◌∷◌, ◌==◌, ltb, if◌then◌else◌, ◌⊎◌, inl, inr}
use nagios_plugins.Base.Int.{ℤ, pos, negsuc}
use nagios_plugins.Text.{◌&◌}
use nagios_plugins.Nagios.{
  ok_status, warning_status, critical_status, unknown_status, Outcome, returned, ◌>>=◌, ◌>>◌,
}
use nagios_plugins.LogServer.Settings.{end, Settings}
use nagios_plugins.LogServer.Log.{second_item, message_of}

-- The answer of MySQLdb: a MySQLError, with its second item if it has items, or a value.
abbrev pub Answer {ℓ} : Type ℓ → Type ℓ
Answer A = Option String ⊎ A

-- An open connection: `execute` and `fetchall`, for a query and its parameter.
abbrev pub Database : Type 0
Database = (query message : String) → Answer (List (List ℤ))

unfoldable pub query_of : Settings → String
query_of s = "select count(*) from `" & s.mysql_table & "` where `" & s.mysql_column & "`=%s"

abbrev pub or_end {ℓ} : {A : Type ℓ} → String → Answer A → Outcome A
or_end message (inr a) = returned a
or_end message (inl e) = second_item e >>= λ error. end critical_status (message & error)

-- `result[0][0]`, with its guards
abbrev pub number_of_logs : List (List ℤ) → Outcome ℤ
number_of_logs [] =
    end critical_status "No results returned from database query! Possible database problem"
number_of_logs ([] ∷ rows) =
    end critical_status "Error processing result returned from MySQL server, please run with -vvv"
number_of_logs ((n ∷ columns) ∷ rows) = returned n

abbrev pub verdict : ℤ → Outcome (Unit {0})
verdict (negsuc n) = end critical_status "unknown number of logs detected"
verdict (pos n) =
    if n == 1
    then end ok_status "log successfully sent and entered into database"
    else if ltb 1 n
    then end warning_status
        "more that one log detected, non-unique test logmessage has been inserted into the database"
    else end critical_status "log failed to appear in the logserver back end"

unfoldable pub test_mysql_server :
    (connect : Settings → Answer Database) → Settings → (log : String) → Outcome ℕ
test_mysql_server connect s log = do
  db ← or_end "error connecting to database - " (connect s)
  result ← or_end "error querying mysql server for log - " (db (query_of s) (message_of log))
  number ← number_of_logs result
  verdict number
  returned unknown_status
