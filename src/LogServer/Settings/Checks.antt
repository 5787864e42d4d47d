-- ===== src/LogServer/Settings/Checks.antt =====
-- How the validation of the settings of check_logserver.py ends.
use nagios_plugins.Base.{ℕ, ◌≤◌, String, Option, none, some, arith}
use nagios_plugins.Base.Int.{ℤ, pos, negsuc}
use nagios_plugins.Nagios.{AnyValue, Outcome, Exception, Ends, >>=-Ends, ◌>>=◌}
use nagios_plugins.LogServer.Settings.{
  end, Tester, as_int, in_bounds, usable, whole_number, required, validate_logserver,
  validate_logserver_port, validate_credentials, validate_mysql_server, validate_mysql_port,
  validate_mysql_db, validate_mysql_table, validate_mysql_column, validate_delay, validate_timeout,
  validate_variables,
}

abbrev pub IsUnknown : ℕ → Type 0
IsUnknown n = (3 ≤ n) × (n ≤ 3)

abbrev pub Never : Exception → Type 0
Never e = ⊥

-- a part that returns or exits UNKNOWN
abbrev pub Checks {ℓ} : {A : Type ℓ} → Outcome A → Type 0
Checks m = Ends AnyValue IsUnknown Never m

usable-Checks :
    (exitcode : ℕ) (message name : String) → 3 ≤ exitcode → Checks (usable exitcode message name)
unfolding usable end
usable-Checks exitcode message name h = ground arith

in_bounds-Checks :
    (lo hi exitcode : ℕ) (message : String) (z : Option ℤ)
    → 3 ≤ exitcode
    → Checks (in_bounds lo hi (end exitcode message) z)
unfolding end
in_bounds-Checks lo hi exitcode message none h = ground arith
in_bounds-Checks lo hi exitcode message (some (negsuc n)) h = ground arith
in_bounds-Checks lo hi exitcode message (some (pos n)) h = ground arith

whole_number-Checks :
    (lo hi default exitcode : ℕ) (message : String) (variable : Option String)
    → 3 ≤ exitcode
    → Checks (whole_number lo hi default exitcode message variable)
unfolding whole_number
whole_number-Checks lo hi default exitcode message variable h =
    in_bounds-Checks lo hi exitcode message (as_int default variable) h

required-Checks : (message : String) (variable : Option String) → Checks (required message variable)
unfolding required end
required-Checks message none = omega arith
required-Checks message (some s) = tt

-- a check that passes, and the rest
then_Checks {ℓ κ} :
    {A : Type ℓ} {B : Type κ} (m : Outcome A) (f : A → Outcome B)
    → Checks m
    → ((a : A) → Checks (f a))
    → Checks (m >>= f)
then_Checks m f h k = >>=-Ends AnyValue AnyValue IsUnknown Never m f h (λ a _. k a)

-- Validation never raises an exception, and never exits with another status than UNKNOWN.
pub validate_variables-Checks : (t : Tester) → Checks (validate_variables t)
unfolding validate_variables
validate_variables-Checks t =
    then_Checks (validate_logserver t) _
      (then_Checks (required _ t.logserver) _ (required-Checks _ t.logserver)
        (λ s. usable-Checks _ _ s (omega arith)))
      λ logserver.
        then_Checks (validate_logserver_port t) _
          (whole_number-Checks _ _ _ _ _ t.logserver_port (omega arith))
          λ port.
            then_Checks (validate_credentials t) _
              (then_Checks (required _ t.username) _ (required-Checks _ t.username) (λ u.
                then_Checks (required _ t.password) _ (required-Checks _ t.password) (λ p. tt)))
              λ credentials.
                then_Checks (validate_mysql_server t logserver) _
                  (usable-Checks _ _ _ (omega arith))
                  λ server.
                    then_Checks (validate_mysql_port t) _
                      (whole_number-Checks _ _ _ _ _ t.mysql_port (omega arith))
                      λ mysql_port.
                        then_Checks (validate_mysql_db t) _ (usable-Checks _ _ _ (omega arith))
                          λ db.
                            then_Checks (validate_mysql_table t) _
                              (usable-Checks _ _ _ (omega arith))
                              λ table.
                                then_Checks (validate_mysql_column t) _
                                  (usable-Checks _ _ _ (omega arith))
                                  λ column.
                                    then_Checks (validate_delay t) _
                                      (whole_number-Checks _ _ _ _ _ t.delay (omega arith))
                                      λ delay.
                                        then_Checks (validate_timeout t) _
                                          (whole_number-Checks _ _ _ _ _ t.timeout (omega arith))
                                          λ timeout. tt
