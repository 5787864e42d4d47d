-- ===== src/Portage/Security.antt =====
-- `get_security_updates`, `process_security_updates` and `process_security_package_output` of
-- older/check_gentoo_portage.py.
pub mod Laws
pub mod Exclude
use nagios_plugins.Base.{
  ℕ, ◌+◌, String, Bool, true, false, not, ◌&&◌, Option, none, some, List, [], ◌∷◌, ◌==◌, ltb,
  str_eq, if◌then◌else◌, length,
}
use nagios_plugins.Text.{◌&◌, is_space, split, strip}
use nagios_plugins.Text.Decimal.{show}
use nagios_plugins.Regex as Regex
use nagios_plugins.Regex.{Re, bol, one, lit, repeat, all_of, re_match, found}
use nagios_plugins.Nagios.{
  ok_status, warning_status, critical_status, Outcome, returned, item, when, ◌>>=◌, ◌>>◌,
}
use nagios_plugins.Portage.Exclusions.{end}

-- ^.{1,12}\s\[N\]\s and ^.{1,12}\s\[A\]\s
abbrev pub re_package_line : (tag : String) → Re
re_package_line tag =
    all_of
      (bol ∷ one Regex.any ∷ repeat 11 (one Regex.any) ∷ one is_space ∷ lit tag ∷ one is_space ∷ [])

unfoldable pub is_security_package : String → Bool
is_security_package line = found (re_match (re_package_line "[N]") line)

unfoldable pub is_applied_package : String → Bool
is_applied_package line = found (re_match (re_package_line "[A]") line)

-- the loops over the output
abbrev pub lines_with : (String → Bool) → List String → List String
lines_with test [] = []
lines_with test (line ∷ lines) =
    if test line then line ∷ lines_with test lines else lines_with test lines

-- The two lists that `get_security_updates` returns, from the output of glsa-check.
unfoldable pub security_lines : List String → Outcome (List String × List String)
security_lines output = do
  let security_updates = lines_with is_security_package output
  let applied_updates = lines_with is_applied_package output
  when (ltb (5 + length security_updates + length applied_updates) (length output)) (
      end warning_status
        "GLSA output signature does not match current known format, please make sure you have upgraded to the latest versions of both this plugin and gentoolkit ('emerge gentoolkit'). If the problem persists, please contact the author for a fix")
  returned (security_updates, applied_updates)

-- the inner loop: the first line of this id is taken out
unfoldable pub pop_id : (exclusion : String) → List String → Outcome (List String)
pop_id exclusion [] = returned []
pop_id exclusion (line ∷ lines) =
    let rest = pop_id exclusion lines in
    item 0 (split line) >>= λ word.
    if str_eq (strip word) exclusion
    then returned lines
    else (do kept ← rest; returned (line ∷ kept))

-- the outer loop
unfoldable pub exclude :
    (glsa_ids : List String)
    → (security_updates applied_updates : List String) → Outcome (List String × List String)
exclude [] security_updates applied_updates = returned (security_updates, applied_updates)
exclude (exclusion ∷ exclusions) security_updates applied_updates = do
  security ← pop_id exclusion security_updates
  applied ← pop_id exclusion applied_updates
  exclude exclusions security applied

abbrev pub security_status : (no_warn_applied : Bool) → (num_security num_applied : ℕ) → ℕ
security_status no_warn_applied num_security num_applied =
    if not (num_security == 0)
    then critical_status
    else if not no_warn_applied && not (num_applied == 0)
    then warning_status
    else ok_status

abbrev available : ℕ → String
available n =
    if n == 0
    then "0 Security Updates Available"
    else if n == 1
    then "1 Security Update Available"
    else show n & " Security Updates Available"

abbrev applied_note : ℕ → String
applied_note n =
    if n == 0
    then ""
    else if n == 1
    then ". 1 Security Update marked as already applied"
    else ". " & show n & " Security Updates marked as already applied"

unfoldable pub process_security_package_output :
    (no_warn_applied : Bool) → (num_security num_applied : ℕ) → ℕ × String
process_security_package_output no_warn_applied num_security num_applied = (
  security_status no_warn_applied num_security num_applied,
  available num_security & applied_note num_applied,
)

-- `glsa_ids` is `None` where no exclusion was given.
unfoldable pub process_security_updates :
    (no_warn_applied : Bool)
    → (glsa_ids : Option (List String)) → (security_updates applied_updates : List String)
    → Outcome (ℕ × String)
process_security_updates no_warn none security applied =
    returned (process_security_package_output no_warn (length security) (length applied))
process_security_updates no_warn (some glsa_ids) security applied = do
  (security_left, applied_left) ← exclude glsa_ids security applied
  returned (process_security_package_output no_warn (length security_left) (length applied_left))
