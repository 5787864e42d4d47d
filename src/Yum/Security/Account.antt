-- ===== src/Yum/Security/Account.antt =====
-- What a result of `get_security_updates` in check_yum.py says of yum's output.
use nagios_plugins.Base.{ℕ, ◌≤◌, ◌<◌, String, Bool, true, false, List, ◌≡◌, ◌⊎◌, refl, arith, any}
use nagios_plugins.Base.Int.{ℤ, sub_ℕ}
use nagios_plugins.Text.{◌&◌}
use nagios_plugins.Nagios.{Outcome, returned, when, ◌>>◌, >>=-eq-returned}
use nagios_plugins.Yum.Returncode.{end}
use nagios_plugins.Yum.Command.{Tester, Host, yum, run}
use nagios_plugins.Yum.All.{is_kernel_security}
use nagios_plugins.Yum.Security.Counts.{
  Counts, counts_of, first_words, unique, account, get_security_updates,
}

-- The number of security updates that the counts and the number of unique words give.
abbrev pub IsAccounted : Counts → ℕ → ℕ → Type 0
IsAccounted c words n =
    ((words ≤ c.total) × (n ≡ c.security)) ⊎ ((c.total < words) × (c.recount ≡ true) × (n ≡ words))

account_lem :
    (c : Counts) (words n : ℕ) (other : ℤ)
    → account c words ≡ returned (n, other)
    → IsAccounted c words n × (other ≡ sub_ℕ c.total c.security)
unfolding account end
account_lem c words n other h = ground arith

no_kernel :
    (b : Bool) (m : String) {A : Type 0} (k : Outcome A) (a : A)
    → (when b (end 2 m) >> k) ≡ returned a
    → (b ≡ false) × (k ≡ returned a)
unfolding end
no_kernel true m k a h = absurd (cc)
no_kernel false m k a h = (refl, h)

-- When `get_security_updates` returns two numbers, yum ran and no line of its output announced a
-- kernel security update that waits for a reboot; the lines that are not excluded begin with at
-- most as many different words as the total, and the first number is the summary's, or there are
-- more and the host's package manager is one whose lines are counted instead; the second number is
-- the total minus the summary's security updates, as an integer.
pub get_security_updates_lem :
    (t : Tester) (h : Host) (n : ℕ) (other : ℤ)
    → get_security_updates t h ≡ returned (n, other)
    → (output words : List String) × (c : Counts) × (run t h (yum & " --security check-update")
        ≡ returned output)
      × (any is_kernel_security output ≡ false)
      × (counts_of t h output ≡ returned c)
      × (first_words output ≡ returned words)
      × IsAccounted c (unique words) n
      × (other ≡ sub_ℕ c.total c.security)
unfolding get_security_updates
get_security_updates_lem t h n other e =
    let (output, ran, e₁) = >>=-eq-returned (run t h (yum & " --security check-update")) _ e in
    let (quiet, e₂) = no_kernel (any is_kernel_security output) _ _ _ e₁ in
    let (c, counted, e₃) = >>=-eq-returned (counts_of t h output) _ e₂ in
    let (words, split, e₄) = >>=-eq-returned (first_words output) _ e₃ in
    let (accounted, rest) = account_lem c (unique words) n other e₄ in
    (output, words, c, ran, quiet, counted, split, accounted, rest)
