-- ===== src/Portage/Command/Status.antt =====
-- The status that older/check_gentoo_portage.py reports.
use nagios_plugins.Base.{
  ℕ, ◌+◌, ◌≤◌, String, Bool, true, false, Option, none, some, List, [], ◌∷◌, ◌≡◌, ◌≢◌, refl, sym,
  ap₂, ◌∙◌, arith, map, All, if◌then◌else◌, Bool-cases, ◌⊎◌, inl, inr, length,
}
use nagios_plugins.Base.Int.{ℤ}
use nagios_plugins.Text.{◌&◌}
use nagios_plugins.Text.Distinct.{IsDistinct}
use nagios_plugins.Nagios.{Outcome, returned, >>=-eq-returned}
use nagios_plugins.Portage.Exclusions.{validate_exclusions}
use nagios_plugins.Portage.Exclusions.Laws.{validate_exclusions-quiet}
use nagios_plugins.Portage.Security.{
  is_security_package, is_applied_package, lines_with, security_lines, security_status,
  process_security_package_output,
}
use nagios_plugins.Portage.Security.Laws.{
  HasWord, security-HasWord, applied-HasWord, lines_with-All,
}
use nagios_plugins.Portage.Security.Exclude.{
  id_of, excluded, IsExcluded, is_left, ids_of, excluded-nil, excluded-lines_with,
  process_security_updates-excluded, security_lines-returned,
}
use nagios_plugins.Portage.Timestamp.{Float, test_portage_current}
use nagios_plugins.Portage.Updates.{Host, glsa_check, run, get_all_updates}
use nagios_plugins.Portage.Command.{
  Tester, Valid, validate_all_variables, get_security_status, add_packages, package_status,
  test_for_updates,
}

abbrev pub security_lines_of : List String → List String
security_lines_of output = lines_with is_security_package output

abbrev pub applied_lines_of : List String → List String
applied_lines_of output = lines_with is_applied_package output

abbrev pub glsa_command : String
glsa_command = glsa_check & " --nocolor --list affected"

get_security_status-excluded :
    (h : Host) (no_warn : Bool) (ids : Option (List String)) (output : List String)
    → run h glsa_command ≡ returned output
    → security_lines output ≡ returned (security_lines_of output, applied_lines_of output)
    → get_security_status h no_warn ids
      ≡ returned (
          process_security_package_output no_warn
            (length (excluded (ids_of ids) (security_lines_of output)))
            (length (excluded (ids_of ids) (applied_lines_of output))))
unfolding get_security_status
get_security_status-excluded h no_warn ids output ran known =
    rw (ran, known)
      (process_security_updates-excluded no_warn ids (security_lines_of output)
        (applied_lines_of output)
        (lines_with-All is_security_package HasWord security-HasWord output)
        (lines_with-All is_applied_package HasWord applied-HasWord output))

known_signature :
    (output : List String)
    → length output ≤ 5 + length (security_lines_of output) + length (applied_lines_of output)
    → security_lines output ≡ returned (security_lines_of output, applied_lines_of output)
unfolding security_lines
known_signature output h = ground (arith, h)

-- Where glsa-check ran, its output has at most five lines besides those of updates, and the ids of
-- the lines of each kind differ, the security check returns the status and the message of the
-- numbers of lines whose ids are not excluded.
pub get_security_status_lem :
    (h : Host) (no_warn : Bool) (ids : Option (List String)) (output : List String)
    → run h glsa_command ≡ returned output
    → length output ≤ 5 + length (security_lines_of output) + length (applied_lines_of output)
    → IsDistinct (map id_of (security_lines_of output))
    → IsDistinct (map id_of (applied_lines_of output))
    → get_security_status h no_warn ids
      ≡ returned (
          process_security_package_output no_warn
            (length (lines_with (is_left (ids_of ids)) (security_lines_of output)))
            (length (lines_with (is_left (ids_of ids)) (applied_lines_of output))))
get_security_status_lem h no_warn ids output ran short security applied =
    rw
      (
        ← excluded-lines_with (ids_of ids) (security_lines_of output) security,
        ← excluded-lines_with (ids_of ids) (applied_lines_of output) applied,
      )
      (get_security_status-excluded h no_warn ids output ran (known_signature output short))

nothing_left : (lines : List String) → length lines ≡ 0 → lines ≡ []
nothing_left [] h = refl
nothing_left (line ∷ lines) h = absurd (omega arith)

security_status_ok :
    (no_warn : Bool) (security applied : ℕ)
    → security_status no_warn security applied ≡ 0
    → (security ≡ 0) × ((no_warn ≡ true) ⊎ (applied ≡ 0))
security_status_ok no_warn security applied h = ground arith

-- what OK says of the output of glsa-check
abbrev pub IsClear : (no_warn : Bool) → (ids output : List String) → Type 0
IsClear no_warn ids output =
    All (IsExcluded ids) (security_lines_of output)
    × ((no_warn ≡ true) ⊎ All (IsExcluded ids) (applied_lines_of output))

status_of :
    {a b : ℕ} {x y : String}
    → ◌≡◌ {A = Outcome (ℕ × String)} (returned (a, x)) (returned (b, y))
    → a ≡ b
status_of h = cc

get_security_status_ok :
    (h : Host) (no_warn : Bool) (ids : Option (List String)) (status : ℕ) (message : String)
    → get_security_status h no_warn ids ≡ returned (status, message)
    → status ≡ 0
    → (output : List String) × (run h glsa_command ≡ returned output)
      × IsClear no_warn (ids_of ids) output
unfolding get_security_status process_security_package_output
get_security_status_ok h no_warn ids status message done ok =
    let (output, ran, h1) = >>=-eq-returned (run h glsa_command) _ done in
    let (found, known, h2) = >>=-eq-returned (security_lines output) _ h1 in
    let known_lines = security_lines-returned output found known in
    let result =
      status_of (sym (get_security_status-excluded h no_warn ids output ran known_lines) ∙ done) in
    let (none_left, applied_left) = security_status_ok no_warn _ _ (result ∙ ok) in
    (
      output,
      ran,
      (
        excluded-nil (ids_of ids) (security_lines_of output) (nothing_left _ none_left),
        elim applied_left [
          | inl ignored ↦ inl ignored
          | inr zero_left ↦
              inr (excluded-nil (ids_of ids) (applied_lines_of output) (nothing_left _ zero_left))
        ],
      ),
    )

add_packages_ok :
    (warn : Bool) (verbosity : ℕ) (status : ℕ) (message : String) (packages : Bool × String)
    → (add_packages warn verbosity (status, message) packages).0 ≡ 0
    → (status ≡ 0) × ((warn ≡ false) ⊎ (packages.0 ≡ false))
add_packages_ok warn verbosity status message (true, info) h = ground arith
add_packages_ok warn verbosity status message (false, info) h = (h, inr refl)

-- nothing to warn of among the packages, where the user wants to be warned of any
abbrev pub HasNoPackages : Host → Tester → Type 0
HasNoPackages h t =
    (info : String) × (get_all_updates h t.dependencies t.newuse ≡ returned (false, info))

no_packages :
    (h : Host) (t : Tester) (packages : Bool × String)
    → get_all_updates h t.dependencies t.newuse ≡ returned packages
    → packages.0 ≡ false
    → HasNoPackages h t
no_packages h t (true, info) checked unavailable = absurd (cc)
no_packages h t (false, info) checked unavailable = (info, checked)

abbrev with_packages : Host → Tester → Valid → ℕ × String → Outcome (ℕ × String)
with_packages h t v security =
    if v.all_updates then package_status h t v security else returned security

with_packages_ok :
    (h : Host) (t : Tester) (v : Valid) (security result : ℕ × String)
    → with_packages h t v security ≡ returned result
    → result.0 ≡ 0
    → (security.0 ≡ 0)
      × ((v.all_updates ≡ false) ⊎ (t.warn_any_package ≡ false) ⊎ HasNoPackages h t)
unfolding package_status
with_packages_ok h t v (status, message) result done ok = elim (Bool-cases v.all_updates) [
  | inr security_only ↦
      let same : returned (status, message) ≡ returned result = rw security_only at done in
      (status_of same ∙ ok, inl security_only)
  | inl all ↦
      let (packages, checked, added) =
        >>=-eq-returned (get_all_updates h t.dependencies t.newuse) _ (rw all at done) in
      let (clear, quiet) =
        add_packages_ok t.warn_any_package v.verbosity status message packages
          (status_of added ∙ ok) in
      (
        clear,
        inr (elim quiet [
          | inl ignored ↦ inl ignored
          | inr unavailable ↦ inr (no_packages h t packages checked unavailable)
        ]),
      )
]

-- When test_for_updates returns OK, the variables were valid, the age of the Portage tree was
-- accepted, every line of a security update that glsa-check gave has an excluded id, and so has
-- every line of an applied one unless the user ignores these; and the check of all packages was off,
-- or the user did not ask to be warned of them, or it found no changes.
pub test_for_updates_ok :
    (float : String → Option Float) (h : Host) (t : Tester) (message : String)
    → test_for_updates float h t ≡ returned (0, message)
    → (v : Valid) × (age : ℤ) × (output : List String) × (validate_all_variables float h t
        ≡ returned v)
      × (test_portage_current h.files h.clock v.max_age ≡ returned age)
      × (run h glsa_command ≡ returned output)
      × IsClear t.no_warn_applied (ids_of v.glsa_ids) output
      × ((v.all_updates ≡ false) ⊎ (t.warn_any_package ≡ false) ⊎ HasNoPackages h t)
unfolding test_for_updates
test_for_updates_ok float h t message done =
    let (v, valid, h1) = >>=-eq-returned (validate_all_variables float h t) _ done in
    let (age, current, h2) =
      >>=-eq-returned (test_portage_current h.files h.clock v.max_age) _ h1 in
    let (security, secured, h3) =
      >>=-eq-returned (get_security_status h t.no_warn_applied v.glsa_ids) _ h2 in
    let (result, packaged, h4) = >>=-eq-returned (with_packages h t v security) _ h3 in
    let (clear, quiet) = with_packages_ok h t v security result packaged (status_of h4) in
    let (output, ran, excluded_all) =
      get_security_status_ok h t.no_warn_applied v.glsa_ids security.0 security.1 secured clear in
    (v, age, output, valid, current, ran, excluded_all, quiet)

-- A run with exclusions and without -v returns no status.
pub test_for_updates-quiet :
    (float : String → Option Float) (h : Host) (t : Tester) (glsa_ids : String)
    (result : ℕ × String)
    → t.glsa_ids ≡ some glsa_ids
    → t.verbosity ≡ none
    → test_for_updates float h t ≢ returned result
unfolding test_for_updates validate_all_variables
test_for_updates-quiet float h t glsa_ids result given quiet done =
    let (v, valid, h1) = >>=-eq-returned (validate_all_variables float h t) _ done in
    let (ids, validated, h2) =
      >>=-eq-returned (validate_exclusions h.clock.this_month t.verbosity t.glsa_ids) _ valid in
    validate_exclusions-quiet h.clock.this_month glsa_ids ids
      (ap₂ (validate_exclusions h.clock.this_month) (sym quiet) (sym given) ∙ validated)
