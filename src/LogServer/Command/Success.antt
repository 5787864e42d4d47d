-- ===== src/LogServer/Command/Success.antt =====
-- When check_logserver.py reports OK.
use nagios_plugins.Base.{
  ℕ, String, Bool, true, false, List, [], ◌∷◌, ◌≡◌, ◌↔◌, inr, refl, ap, sym, ◌∙◌, arith,
}
use nagios_plugins.Base.Int.{ℤ, pos, negsuc}
use nagios_plugins.Text.{◌&◌, is_empty}
use nagios_plugins.Nagios.{
  Fails, past, Outcome, returned, exited, raised, ◌>>◌, when, critical_status, unknown_status,
}
use nagios_plugins.LogServer.Settings.{end, Tester, Settings, validate_variables}
use nagios_plugins.LogServer.Settings.Checks.{Checks, validate_variables-Checks}
use Prim.Native.String.{[]}
use Prim.Native.String.append.{cons}
use nagios_plugins.LogServer.Log.{Stamp, Sent, sent, generate_log, send_log, message_of}
use nagios_plugins.LogServer.Log.Laws.{IsPlain, sent_message, message_of-generate_log}
use nagios_plugins.LogServer.Mysql.{
  Answer, Database, or_end, number_of_logs, verdict, query_of, test_mysql_server,
}
use nagios_plugins.LogServer.Command.{World, test_with, test_logserver}

abbrev pub ok_message : String
ok_message = "LogServer OK: log successfully sent and entered into database"

Checks-Fails {ℓ} : {A : Type ℓ} (m : Outcome A) → Checks m → Fails m
Checks-Fails (returned a) h = tt
Checks-Fails (exited n s) h = omega arith
Checks-Fails (raised e) h = tt

when-Fails : (test : Bool) (message : String) → Fails (when test (end critical_status message))
unfolding end
when-Fails true message = omega arith
when-Fails false message = tt

send_log-Fails :
    (socket : Bool → String → ℕ → String → Sent) (s : Settings) (log : String)
    → Fails (send_log socket s log)
unfolding send_log end
send_log-Fails socket s log = ground arith

send_log-sent :
    (socket : Bool → String → ℕ → String → Sent) (s : Settings) (log : String)
    → send_log socket s log ≡ returned tt
    → socket s.udp s.logserver s.logserver_port (log & "\n") ≡ sent
unfolding send_log end
send_log-sent socket s log h = ground (arith, h)

or_end-Fails {ℓ} : {A : Type ℓ} (message : String) (a : Answer A) → Fails (or_end message a)
unfolding end
or_end-Fails message a = ground arith

or_end-inr {ℓ} :
    {A : Type ℓ} (message : String) (r : Answer A) {a : A}
    → or_end message r ≡ returned a
    → r ≡ inr a
unfolding end
or_end-inr message r h = ground (arith, h)

number_of_logs-Fails : (rows : List (List ℤ)) → Fails (number_of_logs rows)
unfolding end
number_of_logs-Fails rows = ground arith

number_of_logs-first :
    (rows : List (List ℤ)) {z : ℤ}
    → number_of_logs rows ≡ returned z
    → (columns : List ℤ) × (more : List (List ℤ)) × (rows ≡ (z ∷ columns) ∷ more)
unfolding end
number_of_logs-first [] h = absurd (cc)
number_of_logs-first ([] ∷ rows) h = absurd (cc)
number_of_logs-first ((n ∷ columns) ∷ rows) h = (columns, rows, ground (arith, h))

verdict-ok :
    (z : ℤ) {message : String}
    → (verdict z >> returned unknown_status) ≡ exited 0 message
    → (z ≡ pos 1) × (message ≡ ok_message)
unfolding end
verdict-ok (negsuc n) h = absurd (cc)
verdict-ok (pos n) h = ground (arith, h)

generate_log-nonempty : (w : Stamp) (udp : Bool) → is_empty (generate_log w udp) ≡ false
unfolding generate_log
generate_log-nonempty w udp = ap is_empty (cons "<" [] _)

-- What it means that the log arrived, once, under the settings `s`.
abbrev pub Arrived : World → Settings → Type 0
Arrived w s =
    (w.socket s.udp s.logserver s.logserver_port (generate_log w.stamp s.udp & "\n") ≡ sent)
    × (db : Database) × (columns : List ℤ) × (rows : List (List ℤ)) × (w.connect s ≡ inr db)
    × (db (query_of s) (sent_message w.stamp s.udp) ≡ inr ((pos 1 ∷ columns) ∷ rows))

test_mysql_server_ok :
    (connect : Settings → Answer Database) (s : Settings) (log : String) {message : String}
    → test_mysql_server connect s log ≡ exited 0 message
    → (message ≡ ok_message)
      × (db : Database) × (columns : List ℤ) × (rows : List (List ℤ)) × (connect s ≡ inr db)
      × (db (query_of s) (message_of log) ≡ inr ((pos 1 ∷ columns) ∷ rows))
unfolding test_mysql_server
test_mysql_server_ok connect s log h =
    let (db, d0, h1) = past (or_end _ (connect s)) _ (or_end-Fails _ (connect s)) h in
    let query = db (query_of s) (message_of log) in
    let (found, f0, h2) = past (or_end _ query) _ (or_end-Fails _ query) h1 in
    let (z, z0, h3) = past (number_of_logs found) _ (number_of_logs-Fails found) h2 in
    let (columns, rows, first) = number_of_logs-first found z0 in
    let (one_log, said) = verdict-ok z h3 in
    (
      said,
      db,
      columns,
      rows,
      or_end-inr _ (connect s) d0,
      or_end-inr _ query f0 ∙ ap inr (first ∙ ap (λ k. (k ∷ columns) ∷ rows) one_log),
    )

test_with_ok :
    (w : World) (s : Settings) (p : IsPlain w.stamp) {message : String}
    → test_with w s ≡ exited 0 message
    → (message ≡ ok_message) × Arrived w s
unfolding test_with
test_with_ok w s p h =
    let log = generate_log w.stamp s.udp in
    let (u, u0, h1) = past (when (is_empty log) _) _ (when-Fails (is_empty log) _) h in
    let (v, v0, h2) = past (send_log w.socket s log) _ (send_log-Fails w.socket s log) h1 in
    let (said, db, columns, rows, connected, counted) = test_mysql_server_ok w.connect s log h2 in
    (
      said,
      (
        send_log-sent w.socket s log v0,
        db,
        columns,
        rows,
        connected,
        ap (db (query_of s)) (sym (message_of-generate_log w.stamp s.udp p)) ∙ counted,
      ),
    )

sent-send_log :
    (socket : Bool → String → ℕ → String → Sent) (s : Settings) (log : String)
    → socket s.udp s.logserver s.logserver_port (log & "\n") ≡ sent
    → send_log socket s log ≡ returned tt
unfolding send_log
sent-send_log socket s log h = ground (arith, h)

counted-test_mysql_server :
    (connect : Settings → Answer Database) (s : Settings) (log : String) {db : Database}
    {columns : List ℤ} {rows : List (List ℤ)}
    → connect s ≡ inr db
    → db (query_of s) (message_of log) ≡ inr ((pos 1 ∷ columns) ∷ rows)
    → test_mysql_server connect s log ≡ exited 0 ok_message
unfolding test_mysql_server end
counted-test_mysql_server connect s log connected counted = rw (connected, counted) refl

Arrived-test_with :
    (w : World) (s : Settings) (p : IsPlain w.stamp)
    → Arrived w s
    → test_with w s ≡ exited 0 ok_message
unfolding test_with
Arrived-test_with w s p (gone, db, columns, rows, connected, counted) =
    let log = generate_log w.stamp s.udp in
    let asked = ap (db (query_of s)) (message_of-generate_log w.stamp s.udp p) ∙ counted in
    rw (generate_log-nonempty w.stamp s.udp, sent-send_log w.socket s log gone)
      (counted-test_mysql_server w.connect s log connected asked)

-- The test reports OK exactly if the settings are valid, the socket took the log, the database could
-- be opened, and the first number of its answer to the query, for the message of that log, is one;
-- where the time stamp is of three words and the names and the time have no white space.
pub test_logserver_iff :
    (w : World) (t : Tester) (message : String)
    → IsPlain w.stamp
    → (test_logserver w t ≡ exited 0 message) ↔ (
        (message ≡ ok_message) × (s : Settings) × (validate_variables t ≡ returned s) × Arrived w s)
unfolding test_logserver
test_logserver_iff w t message p = (
  λ h.
      let (s, valid, rest) =
        past (validate_variables t) (test_with w)
          (Checks-Fails (validate_variables t) (validate_variables-Checks t)) h in
      let (said, there) = test_with_ok w s p rest in (said, s, valid, there),
  λ (said, s, valid, there). rw (valid, said) (Arrived-test_with w s p there),
)
