-- ===== src/Sftp/Command/Laws.antt =====
-- When older/check_sftp.py reports OK.
use nagios_plugins.Base.{
  ℕ, String, Bool, true, false, not, Option, none, some, ◌≡◌, ◌↔◌, refl, arith, All, ap, sym, ◌∙◌,
}
use nagios_plugins.Base.Int.{ℤ, pos, negsuc, is_zero}
use nagios_plugins.Nagios.{
  IsOrdered, is_loud, at_least-returned, Outcome, returned, exited, raised, Exception, or_raise,
  when, critical_status, ok_status, Fails, past, ◌>>=◌, ◌>>◌,
}
use nagios_plugins.Sftp.Items.{end, test_items}
use nagios_plugins.Sftp.Items.Laws.{IsListed, test_items_iff, test_items-Fails}
use nagios_plugins.Sftp.Command.{World, Options, run, command_of, shown, noted, test_sftp}

noted-returned :
    (w : World) (value : Option String) (verbosity : Option ℕ)
    → IsOrdered w.orders_none verbosity
    → noted w value verbosity ≡ returned tt
noted-returned w value verbosity h =
    let quiet = at_least-returned w.orders_none verbosity 2 h in ground arith

abbrev pub ok_line : String
ok_line = "SFTP OK: logged in successfully"

-- behind the run of the command
abbrev judge : Options → String → ℤ → String → Outcome ℕ
judge o output2 result output =
    when (not (is_zero result)) (end critical_status output2)
    >> (test_items output o.files >> (test_items output o.dirs >> end ok_status output2))

when-Fails :
    (zero : Bool) (message : String) → Fails (when (not zero) (end critical_status message))
unfolding end
when-Fails true message = tt
when-Fails false message = omega arith

is_zero-pos :
    (result : ℤ) (message : String)
    → when (not (is_zero result)) (end critical_status message) ≡ returned tt
    → result ≡ pos 0
unfolding end
is_zero-pos (negsuc n) message h = absurd (cc)
is_zero-pos (pos n) message h = ground (arith, h)

end_ok :
    (said : String) {message : String}
    → ◌≡◌ {A = Outcome ℕ} (end ok_status said) (exited 0 message)
    → message ≡ ok_line
unfolding end
end_ok said h = cc

judge_ok :
    (o : Options) (output2 output : String) (result : ℤ) (message : String)
    → judge o output2 result output ≡ exited 0 message
    → (message ≡ ok_line)
      × (result ≡ pos 0)
      × All (IsListed output) o.files
      × All (IsListed output) o.dirs
judge_ok o output2 output result message h =
    let (u, zero, h1) =
      past (when (not (is_zero result)) _) _ (when-Fails (is_zero result) output2) h in
    let (v, files, h2) = past (test_items output o.files) _ (test_items-Fails output o.files) h1 in
    let (x, dirs, h3) = past (test_items output o.dirs) _ (test_items-Fails output o.dirs) h2 in
    (
      end_ok output2 h3,
      is_zero-pos result output2 zero,
      (test_items_iff output o.files).0 files,
      (test_items_iff output o.dirs).0 dirs,
    )

ok_judge :
    (o : Options) (output2 output : String)
    → All (IsListed output) o.files
    → All (IsListed output) o.dirs
    → judge o output2 (pos 0) output ≡ exited 0 ok_line
unfolding end
ok_judge o output2 output files dirs =
    rw ((test_items_iff output o.files).1 files, (test_items_iff output o.dirs).1 dirs) refl

returned_again {ℓ κ} :
    {A : Type ℓ} {B : Type κ} (m : Outcome A) (f : A → Outcome B)
    → ((m >>= λ a. returned a) >>= f) ≡ (m >>= f)
returned_again (returned a) f = refl
returned_again (exited n s) f = refl
returned_again (raised e) f = refl

test_sftp-judge :
    (w : World) (sftp server : String) (port : ℕ) (o : Options)
    → IsOrdered w.orders_none o.verbosity
    → test_sftp w sftp server port o ≡ (
        or_raise Exception.type_error
          (w.communicate (command_of sftp server port o.user o.sshkey o.nostricthostkey))
        >>= λ ran. judge o (shown (is_loud o.verbosity 2) server ran.1) ran.0 ran.1)
unfolding test_sftp run
test_sftp-judge w sftp server port o h =
    rw
      (
        noted-returned w o.user o.verbosity h,
        at_least-returned w.orders_none o.verbosity 2 h,
        at_least-returned w.orders_none o.verbosity 3 h,
      )
      (returned_again {A = ℤ × String}
        (or_raise Exception.type_error
          (w.communicate (command_of sftp server port o.user o.sshkey o.nostricthostkey)))
        (λ ran. judge o (shown (is_loud o.verbosity 2) server ran.1) ran.0 ran.1))

or_raise-some {ℓ} :
    {A : Type ℓ} (o : Option A) {a : A} → or_raise Exception.type_error o ≡ returned a → o ≡ some a
or_raise-some none h = absurd (cc)
or_raise-some (some b) h = cc

or_raise-Fails {ℓ} : {A : Type ℓ} (o : Option A) → Fails (or_raise Exception.type_error o)
or_raise-Fails none = tt
or_raise-Fails (some b) = tt

-- The test reports OK exactly if the command returned 0 with some output, and each file and each
-- directory that was asked for is the last of nine words on a line of that output whose first
-- character is "d": so a plain file is never found. This is where the verbosity has an order.
pub test_sftp_iff :
    (w : World) (sftp server : String) (port : ℕ) (o : Options) (message : String)
    → IsOrdered w.orders_none o.verbosity
    → (test_sftp w sftp server port o ≡ exited 0 message) ↔ (
        (message ≡ ok_line)
        × (output : String) × (w.communicate
              (command_of sftp server port o.user o.sshkey o.nostricthostkey)
            ≡ some (pos 0, output))
        × All (IsListed output) o.files
        × All (IsListed output) o.dirs)
test_sftp_iff w sftp server port o message ordered =
    let command = command_of sftp server port o.user o.sshkey o.nostricthostkey in
    let judged = test_sftp-judge w sftp server port o ordered in
    (
      λ h.
          let (ran, sent, rest) =
            past (or_raise Exception.type_error (w.communicate command)) _
              (or_raise-Fails (w.communicate command)) (sym judged ∙ h) in
          let (said, zero, files, dirs) = judge_ok o _ ran.1 ran.0 message rest in
          (
            said,
            ran.1,
            or_raise-some (w.communicate command) sent ∙ ap (λ z. some (z, ran.1)) zero,
            files,
            dirs,
          ),
      λ (said, output, sent, files, dirs).
          judged ∙ rw (sent, said) (ok_judge o _ output files dirs),
    )
