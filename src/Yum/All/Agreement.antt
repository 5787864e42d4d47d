-- ===== src/Yum/All/Agreement.antt =====
-- `get_all_updates` of check_yum.py returns only a number on which its two counts agree.
use nagios_plugins.Base.{
  ℕ, suc, ◌+◌, String, Bool, true, false, not, ◌&&◌, List, [], ◌∷◌, ◌≡◌, arith, ◌==◌, ◌||◌, ◌∙◌,
  All, if◌then◌else◌,
}
use nagios_plugins.Text.{◌&◌, contains, starts_with, nonempty, join}
use nagios_plugins.Nagios.{returned, when, ◌>>◌, >>=-eq-returned}
use nagios_plugins.Yum.Returncode.{end}
use nagios_plugins.Yum.Command.{Tester, Host, yum, run}
use nagios_plugins.Yum.All.{
  split_sections, check_signature, packages_in, is_kernel_security, is_kernel_running,
  is_package_format, verify, get_all_updates,
}

-- The lines that the second count looks at: not excluded, and not a continuation behind the line
-- "Obsoleting Packages", nor that line.
abbrev pub seen : Bool → List String → List String
seen obsoleting [] = []
seen obsoleting (line ∷ lines) =
    if contains " excluded " line || (obsoleting && starts_with line " ")
    then seen obsoleting lines
    else if contains "Obsoleting Packages" line
    then seen true lines
    else line ∷ seen obsoleting lines

-- How many of them are packages; a note on the running kernel is not one.
abbrev pub count_formatted : List String → ℕ
count_formatted [] = 0
count_formatted (line ∷ lines) =
    if not (is_kernel_running line) && is_package_format line
    then suc (count_formatted lines)
    else count_formatted lines

verify_lem :
    (obsoleting : Bool) (count : ℕ) (lines : List String) (n : ℕ)
    → verify obsoleting count lines ≡ returned n
    → (n ≡ count + count_formatted (seen obsoleting lines))
      × All (λ l. is_kernel_security l ≡ false) (seen obsoleting lines)
unfolding verify end
verify_lem obsoleting count [] n h = ground arith
verify_lem obsoleting count (line ∷ lines) n h =
    let skipped = verify_lem obsoleting count lines n in
    let obsolete = verify_lem true count lines n in
    let plain = verify_lem obsoleting count lines n in
    let formatted = verify_lem obsoleting (count + 1) lines n in ground arith

counted_from_zero :
    (lines : List String) (n : ℕ)
    → verify false 0 lines ≡ returned n
    → (n ≡ count_formatted (seen false lines))
      × All (λ l. is_kernel_security l ≡ false) (seen false lines)
counted_from_zero lines n h =
    let (agreed, unsecured) = verify_lem false 0 lines n h in (omega (arith, agreed), unsecured)

compared :
    (count num_packages n : ℕ) (message : String)
    → (when (not (count == num_packages)) (end 3 message) >> returned num_packages) ≡ returned n
    → (n ≡ num_packages) × (n ≡ count)
unfolding end
compared count num_packages n message h = ground arith

-- When `get_all_updates` returns a number, yum ran, and the number is the count of packages in the
-- sections of its output and also the count of lines in package format, outside the lines that are
-- excluded or obsoleted; and none of the lines counted announces a kernel security update that
-- waits for a reboot.
pub get_all_updates-agree :
    (t : Tester) (h : Host) (n : ℕ)
    → get_all_updates t h ≡ returned n
    → (output : List String) × (run t h (yum & " check-update") ≡ returned output)
      × (n ≡ packages_in t.no_cache_update (nonempty (split_sections (join "\n" output))))
      × (n ≡ count_formatted (seen false output))
      × All (λ l. is_kernel_security l ≡ false) (seen false output)
unfolding get_all_updates end
get_all_updates-agree t h n e =
    let (output, ran, e₁) = >>=-eq-returned (run t h (yum & " check-update")) _ e in
    let sections = nonempty (split_sections (join "\n" output)) in
    let (_, _, e₂) = >>=-eq-returned (check_signature t.no_cache_update sections) _ e₁ in
    let (count, verified, e₃) = >>=-eq-returned (verify false 0 output) _ e₂ in
    let (agreed, unsecured) = counted_from_zero output count verified in
    let (same, counted) = compared count (packages_in t.no_cache_update sections) n _ e₃ in
    (output, ran, same, counted ∙ agreed, unsecured)
