-- ===== src/LogServer/Command/Laws.antt =====
-- How check_logserver.py ends.
use nagios_plugins.Base.{
  ℕ, ◌≤◌, String, Bool, true, false, Option, none, some, List, [], ◌∷◌, ◌≡◌, inl, inr, refl, arith,
}
use nagios_plugins.Base.Int.{ℤ, pos, negsuc}
use nagios_plugins.Text.{◌&◌, is_empty}
use nagios_plugins.Nagios.{
  AnyValue, Outcome, returned, exited, raised, Ends, >>=-Ends, ◌>>=◌, ◌>>◌, when, unknown_status,
  critical_status,
}
use nagios_plugins.LogServer.Settings.{end, Tester, Settings, validate_variables}
use nagios_plugins.LogServer.Settings.Checks.{Checks, Never, validate_variables-Checks}
use nagios_plugins.LogServer.Log.{Sent, sent, refused, failed, generate_log, send_log, message_of}
use nagios_plugins.LogServer.Mysql.{
  Answer, Database, or_end, number_of_logs, verdict, query_of, test_mysql_server,
}
use nagios_plugins.LogServer.Command.{World, test_with, test_logserver, main}

abbrev IsStatus : ℕ → Type 0
IsStatus n = n ≤ 3

-- The part goes on, or exits with a status of Nagios; it raises nothing.
abbrev Proceeds {ℓ} : {A : Type ℓ} → Outcome A → Type 0
Proceeds m = Ends AnyValue IsStatus Never m

-- The part exits with a status of Nagios.
abbrev Exits {ℓ} : {A : Type ℓ} → Outcome A → Type 0
Exits m = Ends (λ a. ⊥) IsStatus Never m

Checks-Proceeds {ℓ} : {A : Type ℓ} (m : Outcome A) → Checks m → Proceeds m
Checks-Proceeds (returned a) h = tt
Checks-Proceeds (exited n s) h = h.1
Checks-Proceeds (raised e) h = h

then_Exits {ℓ κ} :
    {A : Type ℓ} {B : Type κ} (R : A → Type 0) (m : Outcome A) (f : A → Outcome B)
    → Ends R IsStatus Never m
    → ((a : A) → R a → Exits (f a))
    → Exits (m >>= f)
then_Exits R m f h k = >>=-Ends R (λ b. ⊥) IsStatus Never m f h k

-- an error that has a second item, and a socket that takes texts
abbrev IsReadable : Option String → Type 0
IsReadable none = ⊥
IsReadable (some s) = Unit

abbrev TakesText : Sent → Type 0
TakesText sent = Unit
TakesText refused = ⊥
TakesText (failed e) = IsReadable e

abbrev Answers {ℓ} : {A : Type ℓ} → (A → Type 0) → Answer A → Type 0
Answers P (inl e) = IsReadable e
Answers P (inr a) = P a

abbrev IsAnswering : Database → Type 0
IsAnswering db = (query message : String) → Answers AnyValue (db query message)

-- the network and the database as the script takes them to be, which is as they are in Python 2
pub record IsPython2 (w : World) : Type 0 where
  pub socket :
      (udp : Bool) (host : String) (port : ℕ) (text : String)
      → TakesText (w.socket udp host port text)
  pub connect : (s : Settings) → Answers IsAnswering (w.connect s)

or_end-Ends {ℓ} :
    {A : Type ℓ} (P : A → Type 0) (message : String) (a : Answer A)
    → Answers P a
    → Ends P IsStatus Never (or_end message a)
unfolding end
or_end-Ends P message (inr a) h = h
or_end-Ends P message (inl none) h = elim h [ ]
or_end-Ends P message (inl (some e)) h = omega arith

number_of_logs-Proceeds : (rows : List (List ℤ)) → Proceeds (number_of_logs rows)
unfolding end
number_of_logs-Proceeds [] = omega arith
number_of_logs-Proceeds ([] ∷ rows) = omega arith
number_of_logs-Proceeds ((n ∷ columns) ∷ rows) = tt

when-Proceeds :
    (test : Bool) (message : String) → Proceeds (when test (end critical_status message))
unfolding end
when-Proceeds true message = omega arith
when-Proceeds false message = tt

verdict-Exits : (z : ℤ) → Exits (verdict z >> returned unknown_status)
unfolding end
verdict-Exits (negsuc n) = omega arith
verdict-Exits (pos n) = ground arith

module _ (w : World) (p : IsPython2 w) where
  send_log-Proceeds : (s : Settings) (log : String) → Proceeds (send_log w.socket s log)
  unfolding send_log end
  send_log-Proceeds s log = ground (arith, p.socket s.udp s.logserver s.logserver_port (log & "\n"))

  test_mysql_server-Exits :
      (s : Settings) (log : String) → Exits (test_mysql_server w.connect s log)
  unfolding test_mysql_server
  test_mysql_server-Exits s log =
      then_Exits IsAnswering (or_end _ (w.connect s)) _ (or_end-Ends IsAnswering _ _ (p.connect s))
        λ db answers.
          then_Exits AnyValue (or_end _ (db (query_of s) (message_of log))) _
            (or_end-Ends AnyValue _ _ (answers (query_of s) (message_of log)))
            λ rows _.
              then_Exits AnyValue (number_of_logs rows) _ (number_of_logs-Proceeds rows)
                λ z _. verdict-Exits z

  test_with-Exits : (s : Settings) → Exits (test_with w s)
  unfolding test_with
  test_with-Exits s =
      let log = generate_log w.stamp s.udp in
      then_Exits AnyValue (when (is_empty log) _) _ (when-Proceeds (is_empty log) _) λ u _.
        then_Exits AnyValue (send_log w.socket s log) _ (send_log-Proceeds s log)
          λ v _. test_mysql_server-Exits s log

  test_logserver-Exits : (t : Tester) → Exits (test_logserver w t)
  unfolding test_logserver
  test_logserver-Exits t =
      then_Exits AnyValue (validate_variables t) _
        (Checks-Proceeds (validate_variables t) (validate_variables-Checks t))
        λ s _. test_with-Exits s

  main-Exits :
      (help : String) (t : Tester) (args : List String) (version : Bool)
      → Exits (main help w t args version)
  unfolding main
  main-Exits help t args version =
      let tested =
        then_Exits {B = Unit {0}} (λ n. ⊥) (test_logserver w t)
          (λ returncode.
            exited returncode
              ("No output returned by logserver test! Test took " & w.took & " seconds"))
          (test_logserver-Exits t) (λ n never_there. absurd never_there) in
      ground (arith, tested)

exit_of {ℓ} :
    {A : Type ℓ} (m : Outcome A)
    → Exits m
    → (n : ℕ) × (message : String) × (m ≡ exited n message) × (n ≤ 3)
exit_of (returned a) h = absurd h
exit_of (exited n message) h = (n, message, refl, h)
exit_of (raised e) h = absurd h

-- Where sockets take texts and errors have a second item, as in Python 2, the script always exits
-- with a status of Nagios, whatever the arguments, the settings, the network and the database: it
-- never raises an exception, and never runs on past the test.
pub main_exits :
    (help : String) (w : World) (t : Tester) (args : List String) (version : Bool)
    → IsPython2 w
    → (n : ℕ) × (message : String) × (main help w t args version ≡ exited n message) × (n ≤ 3)
main_exits help w t args version p = exit_of _ (main-Exits w p help t args version)
