-- ===== src/Yum/Updates/Laws.antt =====
-- The status that the tests of check_yum.py report.
use nagios_plugins.Base.{ℕ, ◌≤◌, String, Bool, false, List, ◌≡◌, ◌⊎◌, arith, any}
use nagios_plugins.Base.Int.{ℤ, pos}
use nagios_plugins.Text.{◌&◌}
use nagios_plugins.Nagios.{Outcome, returned, >>=-eq-returned}
use nagios_plugins.Yum.Command.{Tester, Host, yum, run}
use nagios_plugins.Yum.All.{is_kernel_security}
use nagios_plugins.Yum.Security.Counts.{
  Counts, counts_of, first_words, unique, get_security_updates,
}
use nagios_plugins.Yum.Security.Account.{IsAccounted, get_security_updates_lem}
use nagios_plugins.Yum.Updates.{security_status, test_security_updates}

status_ok :
    (warn : Bool) (n : ℕ) (other : ℤ)
    → security_status warn n other ≡ 0
    → (n ≡ 0) × ((warn ≡ false) ⊎ (other ≡ pos 0))
status_ok warn n other h = ground arith

accounted_zero :
    (c : Counts) (words : ℕ) → IsAccounted c words 0 → (words ≤ c.total) × (c.security ≡ 0)
accounted_zero c words h = ground arith

reported_status :
    (a b : ℕ) (x y : String)
    → ◌≡◌ {A = Outcome (ℕ × String)} (returned (a, x)) (returned (b, y))
    → a ≡ b
reported_status a b x y h = cc

zeroed :
    {m : Outcome (ℕ × ℤ)} (n : ℕ) (other : ℤ)
    → m ≡ returned (n, other)
    → n ≡ 0
    → m ≡ returned (0, other)
zeroed n other h e = cc

-- When the security test reports OK, yum ran, its output announced no kernel update that waits for
-- a reboot, the count of security updates is zero (so a count of lines, where one was taken, found
-- none), every line that is not excluded is within the total, and either the user did not ask to be
-- warned of other updates or there are none.
pub test_security_updates_ok :
    (t : Tester) (h : Host) (message : String)
    → test_security_updates t h ≡ returned (0, message)
    → (output words : List String) × (c : Counts) × (other : ℤ) × (run t h
          (yum & " --security check-update")
        ≡ returned output)
      × (any is_kernel_security output ≡ false)
      × (counts_of t h output ≡ returned c)
      × (first_words output ≡ returned words)
      × (unique words ≤ c.total)
      × (c.security ≡ 0)
      × ((t.warn_on_any_update ≡ false) ⊎ (other ≡ pos 0))
      × (get_security_updates t h ≡ returned (0, other))
unfolding test_security_updates
test_security_updates_ok t h message e =
    let ((n, other), updates, e₁) = >>=-eq-returned (get_security_updates t h) _ e in
    let (none_left, others) =
      status_ok t.warn_on_any_update n other (reported_status _ 0 _ message e₁) in
    let updates₀ = zeroed n other updates none_left in
    let (output, words, c, ran, quiet, counted, split, accounted, rest) =
      get_security_updates_lem t h 0 other updates₀ in
    let (within, no_security) = accounted_zero c (unique words) accounted in
    (output, words, c, other, ran, quiet, counted, split, within, no_security, others, updates₀)
