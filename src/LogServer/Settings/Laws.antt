-- ===== src/LogServer/Settings/Laws.antt =====
-- What validation guarantees of the settings of check_logserver.py.
use nagios_plugins.Base.{ℕ, ◌≤◌, String, true, Option, none, some, ◌≡◌, arith, subst}
use nagios_plugins.Base.Int.{ℤ, pos, negsuc}
use nagios_plugins.Regex.{re_match, found}
use nagios_plugins.Nagios.{returned, >>=-eq-returned, returned-injective}
use nagios_plugins.LogServer.Settings.{
  end, Tester, Settings, re_validation, usable, as_int, in_bounds, whole_number, required,
  validate_logserver, validate_logserver_port, validate_credentials, validate_mysql_server,
  validate_mysql_port, validate_mysql_db, validate_mysql_table, validate_mysql_column,
  validate_delay, validate_timeout, validate_variables,
}

abbrev pub IsUsable : String → Type 0
IsUsable name = found (re_match re_validation name) ≡ true

abbrev pub IsWithin : (lo hi n : ℕ) → Type 0
IsWithin lo hi n = (lo ≤ n) × (n ≤ hi)

usable-IsUsable :
    (exitcode : ℕ) (message name : String) {s : String}
    → usable exitcode message name ≡ returned s
    → IsUsable s
unfolding usable end
usable-IsUsable exitcode message name h = ground (arith, h)

in_bounds-IsWithin :
    (lo hi exitcode : ℕ) (message : String) (z : Option ℤ) {n : ℕ}
    → in_bounds lo hi (end exitcode message) z ≡ returned n
    → IsWithin lo hi n
unfolding end
in_bounds-IsWithin lo hi exitcode message none h = ground (arith, h)
in_bounds-IsWithin lo hi exitcode message (some (negsuc k)) h = ground (arith, h)
in_bounds-IsWithin lo hi exitcode message (some (pos k)) h = ground (arith, h)

whole_number-IsWithin :
    (lo hi default exitcode : ℕ) (message : String) (variable : Option String) {n : ℕ}
    → whole_number lo hi default exitcode message variable ≡ returned n
    → IsWithin lo hi n
unfolding whole_number
whole_number-IsWithin lo hi default exitcode message variable h =
    in_bounds-IsWithin lo hi exitcode message (as_int default variable) h

-- what holds of accepted settings
pub record IsValid (s : Settings) : Type 0 where
  pub logserver : IsUsable s.logserver
  pub logserver_port : IsWithin 1 65535 s.logserver_port
  pub mysql_server : IsUsable s.mysql_server
  pub mysql_port : IsWithin 1 65535 s.mysql_port
  pub mysql_db : IsUsable s.mysql_db
  pub mysql_table : IsUsable s.mysql_table
  pub mysql_column : IsUsable s.mysql_column
  pub delay : IsWithin 0 3600 s.delay
  pub timeout : IsWithin 1 3600 s.timeout

pub validate_variables-IsValid :
    (t : Tester) (s : Settings) → validate_variables t ≡ returned s → IsValid s
unfolding validate_variables
validate_variables-IsValid t s h =
    let (logserver, h0, h1) = >>=-eq-returned (validate_logserver t) _ h in
    let (given, g0, g1) = >>=-eq-returned (required _ t.logserver) _ h0 in
    let (port, p0, h2) = >>=-eq-returned (validate_logserver_port t) _ h1 in
    let (credentials, c0, h3) = >>=-eq-returned (validate_credentials t) _ h2 in
    let (server, s0, h4) = >>=-eq-returned (validate_mysql_server t logserver) _ h3 in
    let (mysql_port, m0, h5) = >>=-eq-returned (validate_mysql_port t) _ h4 in
    let (db, d0, h6) = >>=-eq-returned (validate_mysql_db t) _ h5 in
    let (table, t0, h7) = >>=-eq-returned (validate_mysql_table t) _ h6 in
    let (column, k0, h8) = >>=-eq-returned (validate_mysql_column t) _ h7 in
    let (delay, l0, h9) = >>=-eq-returned (validate_delay t) _ h8 in
    let (timeout, o0, same) = >>=-eq-returned (validate_timeout t) _ h9 in
    subst IsValid (returned-injective same) (record {
      logserver = usable-IsUsable _ _ _ g1;
      logserver_port = whole_number-IsWithin _ _ _ _ _ _ p0;
      mysql_server = usable-IsUsable _ _ _ s0;
      mysql_port = whole_number-IsWithin _ _ _ _ _ _ m0;
      mysql_db = usable-IsUsable _ _ _ d0;
      mysql_table = usable-IsUsable _ _ _ t0;
      mysql_column = usable-IsUsable _ _ _ k0;
      delay = whole_number-IsWithin _ _ _ _ _ _ l0;
      timeout = whole_number-IsWithin _ _ _ _ _ _ o0;
    })
