-- ===== src/Yum/Tests.antt =====
-- Runs of check_yum.py on three hosts, and the theorems there.
use nagios_plugins.Base.{
  ℕ, ◌+◌, ◌≤◌, String, true, false, none, some, List, [], ◌∷◌, ◌≡◌, ◌↔◌, ◌⊎◌, inr, refl, any, All,
  sum_of, str_eq, if◌then◌else◌,
}
use nagios_plugins.Base.Int.{ℤ, pos, negsuc}
use nagios_plugins.Text.{◌&◌, contains, join, nonempty, split, split_on, is_empty}
use nagios_plugins.Nagios.{returned, missing, number, text, Process}
use nagios_plugins.Yum.Returncode.{check_returncode}
use nagios_plugins.Yum.Returncode.Laws.{check_returncode_iff}
use nagios_plugins.Yum.Command.{
  Tester, Host, yum, default_timeout, as_int, validate_all_variables, with_options, spawned, run,
}
use nagios_plugins.Yum.Command.Laws.{IsReadable, validate_all_variables_lem, run-returned}
use nagios_plugins.Yum.All.{packages_in, split_sections, is_kernel_security, get_all_updates}
use nagios_plugins.Yum.All.Agreement.{seen, count_formatted, get_all_updates-agree}
use nagios_plugins.Yum.Security.{count_notices}
use nagios_plugins.Yum.Security.Notices.{bugfixes, last_security, count_notices_lem}
use nagios_plugins.Yum.Security.Counts.{
  Counts, counts_of, first_words, unique, get_security_updates,
}
use nagios_plugins.Yum.Updates.{test_security_updates, test_yum_updates, script}
use nagios_plugins.Yum.Updates.Laws.{test_security_updates_ok}

abbrev tester : Tester
tester = record {
  all_updates = true;
  no_cache_update = false;
  no_warn_on_lock = false;
  enable_repo = some "epel,extra";
  disable_repo = none;
  disable_plugin = none;
  yum_config = none;
  timeout = text "45";
  verbosity = missing;
  warn_on_any_update = true;
}

abbrev validated : Tester
validated = record tester { timeout = number (pos 45); verbosity = number (pos 0) }

abbrev machine : ℤ → String → Host
machine code stdout = record {
  yum_exists = true;
  yum_is_file = true;
  yum_executable = true;
  dnf_exists = false;
  popen = λ args. inr (record { returncode = code; stdout = stdout });
}

abbrev two_updates : Host
two_updates =
    machine (pos 100)
      "Loaded plugins: security\n\nbash.x86_64  4.4.19-8.el8  base\nglibc.i686  2.17-1.el8  base"

two_updates-test_yum_updates :
    test_yum_updates tester two_updates
    ≡ returned (2, "2 Updates Available | total_updates_available=2")
unfolding script
two_updates-test_yum_updates = refl

two_updates-validated : validate_all_variables tester ≡ returned validated
unfolding script
two_updates-validated = refl

validate_all_variables_lem_example :
    (timeout verbosity : ℕ) × (as_int default_timeout tester.timeout ≡ some (pos timeout))
    × (1 ≤ timeout)
    × (timeout ≤ 3600)
    × (as_int 0 tester.verbosity ≡ some (pos verbosity))
    × (validated
        ≡ record tester { timeout = number (pos timeout); verbosity = number (pos verbosity) })
validate_all_variables_lem_example =
    validate_all_variables_lem tester validated two_updates-validated

two_updates-get_all_updates : get_all_updates validated two_updates ≡ returned 2
unfolding script
two_updates-get_all_updates = refl

get_all_updates-agree_example :
    (output : List String) × (run validated two_updates (yum & " check-update") ≡ returned output)
    × (2 ≡ packages_in false (nonempty (split_sections (join "\n" output))))
    × (2 ≡ count_formatted (seen false output))
    × All (λ l. is_kernel_security l ≡ false) (seen false output)
get_all_updates-agree_example =
    get_all_updates-agree validated two_updates 2 two_updates-get_all_updates

abbrev output : List String
output = "Loaded plugins: security" ∷ "No packages needed for security; 4 packages available" ∷ []

abbrev no_security : Host
no_security = machine (pos 0) (join "\n" output)

abbrev quiet : Tester
quiet = record tester { warn_on_any_update = false }

no_security-run : run quiet no_security "/usr/bin/yum --security check-update" ≡ returned output
unfolding script
no_security-run = refl

run-returned_example :
    (p : Process) × (spawned
        (with_options quiet "/usr/bin/yum --security check-update")
        (no_security.popen (split (with_options quiet "/usr/bin/yum --security check-update")))
      ≡ returned p)
    × (is_empty "/usr/bin/yum --security check-update" ≡ false)
    × (is_empty p.stdout ≡ false)
    × (output ≡ split_on b'\n' p.stdout)
    × All IsReadable output
    × (check_returncode false false p.returncode output ≡ returned tt)
run-returned_example =
    run-returned quiet no_security "/usr/bin/yum --security check-update" output no_security-run

check_returncode_iff_example : (check_returncode false false (pos 0) output ≡ returned tt) ↔ (
    (pos 0 ≡ pos 100)
    ⊎ ((pos 0 ≡ pos 0) × (any (contains "You must run this command as root") output ≡ false)))
check_returncode_iff_example = check_returncode_iff false false (pos 0) output

abbrev ok_message : String
ok_message =
    "0 Security Updates Available. 4 Non-Security Updates Available | security_updates_available=0 non_security_updates_available=4 total_updates_available=4"

no_security-ok : test_security_updates quiet no_security ≡ returned (0, ok_message)
unfolding script
no_security-ok = refl

test_security_updates_ok_example :
    (output words : List String) × (c : Counts) × (other : ℤ) × (run quiet no_security
        (yum & " --security check-update")
      ≡ returned output)
    × (any is_kernel_security output ≡ false)
    × (counts_of quiet no_security output ≡ returned c)
    × (first_words output ≡ returned words)
    × (unique words ≤ c.total)
    × (c.security ≡ 0)
    × ((false ≡ false) ⊎ (other ≡ pos 0))
    × (get_security_updates quiet no_security ≡ returned (0, other))
test_security_updates_ok_example =
    test_security_updates_ok quiet no_security ok_message no_security-ok

no_security-get : get_security_updates quiet no_security ≡ returned (0, pos 4)
unfolding script
no_security-get = refl

abbrev notices : List String
notices =
    "Updates Information Summary: available" ∷ "    3 Security notice(s)"
    ∷ "        1 Important Security notice(s)" ∷ "    7 Bugfix notice(s)" ∷ []

notices-counted : count_notices 0 0 notices ≡ returned (3, 7)
unfolding script
notices-counted = refl

count_notices_lem_example : (7 ≡ 0 + sum_of bugfixes notices) × (3 ≡ last_security 0 notices)
count_notices_lem_example = count_notices_lem 0 0 notices 3 7 notices-counted

-- Three security notices and no bugfix notice: the number of other updates is negative.
abbrev only_security : Host
only_security = record {
  yum_exists = true;
  yum_is_file = true;
  yum_executable = true;
  dnf_exists = true;
  popen = λ args. inr (record {
    returncode = pos 0;
    stdout =
        if str_eq (join " " args) "yum updateinfo"
        then "    3 Security notice(s)"
        else "Updating Subscription Management repositories.";
  });
}

negative_updates : get_security_updates quiet only_security ≡ returned (3, negsuc 2)
unfolding script
negative_updates = refl
