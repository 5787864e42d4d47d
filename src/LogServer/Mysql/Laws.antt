-- ===== src/LogServer/Mysql/Laws.antt =====
-- The query of check_logserver.py, whose names of table and column are not quoted by MySQLdb.
use nagios_plugins.Base.{ℕ, ◌+◌, Bool, true, false, ◌||◌, ◌==◌, ◌≡◌, refl, arith}
use nagios_plugins.Text.{◌&◌}
use nagios_plugins.Text.Occurrences.{occurrences, occurrences-append}
use nagios_plugins.Regex.Whole.{whole-Lacks}
use nagios_plugins.Nagios.{returned}
use nagios_plugins.LogServer.Settings.{Tester, Settings, is_usable, validate_variables}
use nagios_plugins.LogServer.Settings.Laws.{IsValid, validate_variables-IsValid}
use nagios_plugins.LogServer.Mysql.{query_of}

-- A class without the characters of names and the newline occurs only in the query's fixed parts.
occurrences-query_of :
    (p : ℕ → Bool)
    → ((c : ℕ) → is_usable c ≡ true → p c ≡ false)
    → p 10 ≡ false
    → (s : Settings) → IsValid s
    → occurrences p (query_of s)
      ≡ occurrences p "select count(*) from `" + (occurrences p "` where `" + occurrences p "`=%s")
unfolding query_of
occurrences-query_of p apart newline s valid =
    let table = whole-Lacks is_usable p apart newline s.mysql_table valid.mysql_table in
    let column = whole-Lacks is_usable p apart newline s.mysql_column valid.mysql_column in
    omega (
      arith,
      table,
      column,
      occurrences-append p "select count(*) from `"
          (s.mysql_table & "` where `" & s.mysql_column & "`=%s"),
      occurrences-append p s.mysql_table ("` where `" & s.mysql_column & "`=%s"),
      occurrences-append p "` where `" (s.mysql_column & "`=%s"),
      occurrences-append p s.mysql_column "`=%s",
    )

-- Accepted settings have ports from 1 to 65535, a delay up to 3600 and a timeout from 1 to 3600
-- seconds, and names of the validated form. For them the query has exactly four backticks, the two round the table and the two
-- round the column, and one percent sign, that of its parameter; it has no quotation mark, no
-- semicolon and no backslash.
pub query_of_safe :
    (t : Tester) (s : Settings)
    → validate_variables t ≡ returned s
    → IsValid s
      × (occurrences (λ c. c == b'`') (query_of s) ≡ 4)
      × (occurrences (λ c. c == b'%') (query_of s) ≡ 1)
      × (occurrences (λ c. c == b'\'' || c == b'"' || c == b';' || c == b'\\') (query_of s) ≡ 0)
unfolding is_usable
query_of_safe t s h =
    let valid = validate_variables-IsValid t s h in
    (
      valid,
      occurrences-query_of (λ c. c == b'`') (λ c u. ground arith) refl s valid,
      occurrences-query_of (λ c. c == b'%') (λ c u. ground arith) refl s valid,
      occurrences-query_of (λ c. c == b'\'' || c == b'"' || c == b';' || c == b'\\')
          (λ c u. ground arith) refl s valid,
    )
