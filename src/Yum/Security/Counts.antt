-- ===== src/Yum/Security/Counts.antt =====
-- The part of `get_security_updates` behind the search for a summary line.
use nagios_plugins.Base.{
  ℕ, suc, String, Bool, true, false, ◌&&◌, ◌||◌, Option, none, some, List, [], ◌∷◌, ◌==◌, str_eq,
  ltb, if◌then◌else◌, any,
}
use nagios_plugins.Base.Int.{ℤ, sub_ℕ}
use nagios_plugins.Text.{◌&◌, contains, starts_with, split, join, is_space, is_empty}
use nagios_plugins.Text.Decimal.{show, read_nat, is_digit}
use nagios_plugins.Regex as Regex
use nagios_plugins.Regex.{
  Re, bol, eol, lit, one, star, plus, optional, all_of, any_of, is_word, re_match, re_search, found,
}
use nagios_plugins.Nagios.{
  warning_status, critical_status, Outcome, returned, item, when, ◌>>=◌, ◌>>◌,
}
use nagios_plugins.Yum.Returncode.{end}
use nagios_plugins.Yum.Command.{Tester, Host, yum, run}
use nagios_plugins.Yum.All.{support_msg, is_kernel_security, re_kernel_update}
use nagios_plugins.Yum.Security.{find_summary, yum_updateinfo}

-- [\w-]+
abbrev name_part : Re
name_part = plus (λ c. is_word c || c == b'-')

-- The alternatives of `excluded_regex`, in its order; the last but two holds an alternative itself.
abbrev pub excluded_regex : Re
excluded_regex = any_of (
    all_of (lit " from " ∷ plus Regex.any ∷ lit " excluded " ∷ [])
    ∷ all_of (bol ∷ star is_space ∷ lit "*" ∷ star is_space ∷ [])
    ∷ all_of (bol ∷ star is_space ∷ eol ∷ [])
    ∷ lit "Determining fastest mirrors"
    ∷ all_of (bol ∷ lit "Including mirror:" ∷ [])
    ∷ lit "Updating Subscription Management repositories"
    ∷ lit "Last metadata expiration check"
    ∷ lit "Loaded plugins"
    ∷ lit "Loading mirror speeds from cached hostfile"
    ∷ lit "Obsoleting Packages"
    ∷ lit "Failed to set locale"
    ∷ all_of (lit "security update" ∷ optional (lit "s") ∷ lit " needed" ∷ [])
    ∷ all_of (lit "update" ∷ optional (lit "s") ∷ lit " available" ∷ [])
    ∷ all_of (lit "package" ∷ optional (lit "s") ∷ lit " available" ∷ [])
    ∷ lit "Limiting package lists to security relevant ones"
    ∷ all_of (lit "This system is receiving updates from " ∷ plus Regex.any ∷ [])
    ∷ all_of (
        lit "Repo "
        ∷ name_part
        ∷ lit " forced skip_if_unavailable="
        ∷ plus is_word
        ∷ lit " due to"
        ∷ [])
    ∷ re_kernel_update
    ∷ lit "Uploading Enabled Repositories Report"
    ∷ all_of (bol ∷ lit "Red Hat" ∷ plus is_space ∷ [])
    ∷ all_of (bol ∷ lit "EPEL" ∷ plus is_digit ∷ plus is_space ∷ [])
    ∷ all_of (bol ∷ name_part ∷ plus is_space ∷ plus Regex.any ∷ plus is_space ∷ [])
    ∷ all_of (plus is_space ∷ plus Regex.any ∷ plus is_digit ∷ lit ":" ∷ plus is_digit ∷ eol ∷ [])
    ∷ all_of (bol ∷ star is_space ∷ lit ":" ∷ plus is_space ∷ [])
    ∷ [])

unfoldable pub is_excluded : String → Bool
is_excluded line = found (re_search excluded_regex line)

-- `[_.split()[0] for _ in output if _]`, for the lines that are not excluded
unfoldable pub first_words : List String → Outcome (List String)
first_words [] = returned []
first_words (line ∷ lines) =
    let rest = first_words lines in
    if is_excluded line
    then rest
    else if is_empty line
    then rest
    else (do word ← item 0 (split line); words ← rest; returned (word ∷ words))

-- `len(set(words))`
abbrev pub unique : List String → ℕ
unique [] = 0
unique (w ∷ ws) = if any (str_eq w) ws then unique ws else suc (unique ws)

-- `num_security_updates`, `num_total_updates`, and `using_dnf or using_cloud_linux`
pub record Counts : Type 0 where
  pub security : ℕ
  pub total : ℕ
  pub recount : Bool

-- the conversion of the summary's numbers
abbrev as_counts : Option ℕ → Option ℕ → Outcome Counts
as_counts (some security) (some total) =
    returned (record { security = security; total = total; recount = false })
as_counts _ _ =
    end warning_status
      ("Error parsing package information, yum output may have changed. " & support_msg)

abbrev to_ints : String × String → Outcome Counts
to_ints (s, t) = as_counts (read_nat s) (read_nat t)

abbrev no_updates : Bool → Outcome Counts
no_updates recount = returned (record { security = 0; total = 0; recount = recount })

-- Updating Subscription Management repositories.
abbrev re_subscription : Re
re_subscription = all_of (lit "Updating Subscription Management repositories" ∷ one Regex.any ∷ [])

-- the counts when no summary line was found, from the joined output
unfoldable pub without_summary : Tester → Host → String → Outcome Counts
without_summary t h joined =
    if h.dnf_exists && starts_with joined "Last metadata expiration check: "
    then no_updates true
    else if h.dnf_exists && found (re_match re_subscription joined)
    then (do
      (security, total) ← yum_updateinfo t h
      returned (record { security = security; total = total; recount = true }))
    else if contains "This system is receiving updates from CloudLinux" joined
    then no_updates true
    else if contains "This system is receiving updates from " joined
    then no_updates false
    else end warning_status ("Cannot find summary line in yum output. " & support_msg)

unfoldable pub counts_of : Tester → Host → List String → Outcome Counts
counts_of t h output = elim (find_summary output) [
  | some summary ↦ summary >>= to_ints
  | none ↦ without_summary t h (join "" output)
]

-- The comparison with the lines that are left: security updates and other updates.
unfoldable pub account : Counts → ℕ → Outcome (ℕ × ℤ)
account c len_output =
    let num_other_updates = sub_ℕ c.total c.security in
    if ltb c.total len_output
    then (if c.recount
        then returned (len_output, num_other_updates)
        else end warning_status (
            "Yum output signature ("
            & show len_output
            & " unique lines) is larger than number of total updates ("
            & show c.total
            & "). "
            & support_msg))
    else returned (c.security, num_other_updates)

unfoldable pub get_security_updates : Tester → Host → Outcome (ℕ × ℤ)
get_security_updates t h = do
  output ← run t h (yum & " --security check-update")
  when (any is_kernel_security output)
      (end critical_status "Kernel security update is installed but requires a reboot")
  counts ← counts_of t h output
  words ← first_words output
  account counts (unique words)
