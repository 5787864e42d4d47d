-- ===== src/Portage/Tests.antt =====
-- Runs of older/check_gentoo_portage.py on a host with two lines of updates, and the theorems there.
use nagios_plugins.Base.{
  ℕ, String, Bool, true, false, Option, none, some, List, [], ◌∷◌, ◌≡◌, ◌≢◌, ◌⊎◌, refl, arith,
  str_eq, if◌then◌else◌, inr, All, length, ◌≤◌, ◌+◌,
}
use nagios_plugins.Base.Int.{ℤ, pos, ◌-ℤ◌, ltb_ℤ}
use nagios_plugins.Text.Distinct.{mem, IsDistinct}
use nagios_plugins.Text.Sort.{IsAscending}
use nagios_plugins.Nagios.{returned, exited, raised, Exception}
use nagios_plugins.Portage.Exclusions.{parts, validate_exclusions}
use nagios_plugins.Portage.Exclusions.Laws.{IsAccepted, validate_exclusions_lem}
use nagios_plugins.Portage.Security.{process_security_package_output, lines_with}
use nagios_plugins.Portage.Security.Exclude.{is_left, ids_of}
use nagios_plugins.Portage.Timestamp.{Float, ratio, Files, Clock, is_older, test_portage_current}
use nagios_plugins.Portage.Timestamp.Laws.{IsNewest, test_portage_current_lem}
use nagios_plugins.Portage.Updates.{Host, run}
use nagios_plugins.Portage.Command.{
  Tester, Valid, validate_all_variables, get_security_status, test_for_updates, main, script,
}
use nagios_plugins.Portage.Command.Status.{
  security_lines_of, applied_lines_of, glsa_command, IsClear, HasNoPackages,
  get_security_status_lem, test_for_updates_ok, test_for_updates-quiet,
}

abbrev files : Files
files = record {
  exists = λ path. true;
  readable = λ path. true;
  mod_date = λ path. if str_eq path "/usr/portage/metadata/timestamp.chk" then 9 else 5;
  first_line = λ path. inr "Wed\n";
}

abbrev first_or_zero : List ℤ → ℤ
first_or_zero [] = pos 0
first_or_zero (z ∷ zs) = z

abbrev clock : Clock
clock = record {
  this_month = 202401;
  strptime = λ s. some ((if str_eq s "now" then pos 7200 else pos 0) ∷ []);
  mktime = λ fields. some (first_or_zero fields);
  now = "now";
  hours = λ age. "2.0";
}

abbrev glsa_output : String
glsa_output = "header\n200711-01 [N] foo\n200712-02 [A] bar\n"

abbrev emerge_output : String
emerge_output = "Total: 3 packages (2 upgrades, 1 new), Size of downloads: 9 KiB\n"

abbrev is_glsa_check : List String → Bool
is_glsa_check [] = false
is_glsa_check (word ∷ words) = str_eq word "/usr/bin/glsa-check"

abbrev host : Host
host = record {
  files = files;
  clock = clock;
  executable = λ path. true;
  popen = λ words. inr (record {
    returncode = pos 0;
    stdout = if is_glsa_check words then glsa_output else emerge_output;
  });
  bytes = λ s. s;
}

abbrev float : String → Option Float
float s = if str_eq s "1" then some (ratio (pos 1) 0) else none

abbrev tester : (glsa_ids : Option String) → (age : Option String) → (verbosity : Option ℕ) → Tester
tester glsa_ids age verbosity = record {
  all_updates = true;
  dependencies = false;
  glsa_ids = glsa_ids;
  max_portage_tree_age = age;
  newuse = false;
  no_warn_applied = false;
  timeout = none;
  verbosity = verbosity;
  warn_any_package = false;
}

updates_left :
    main "" float host (tester none none none) [] false
    ≡ exited 2
        "Portage CRITICAL: 1 Security Update Available. 1 Security Update marked as already applied. Package Changes Available: 3 packages "
unfolding script
updates_left = refl

excluded_update :
    main "" float host (tester (some "200711-01") none (some 1)) [] false
    ≡ exited 1
        "Portage WARNING: 0 Security Updates Available. 1 Security Update marked as already applied. Package Changes Available: 3 packages (2 upgrades, 1 new). Portage last synchronized 2.0 hours ago"
unfolding script
excluded_update = refl

quiet_exclusion :
    main "" float host (tester (some "200711-01") none none) [] false ≡ raised Exception.type_error
unfolding script
quiet_exclusion = refl

old_tree :
    main "" float host (tester none (some "1") none) [] false
    ≡ exited 2
        "Portage CRITICAL: Portage tree is 2.0 hours out of date, security package information is not reliable"
unfolding script
old_tree = refl

future_exclusion :
    main "" float host (tester (some "203001-01") none none) [] false
    ≡ exited 3
        "UNKNOWN: GLSA id '203001-01' is in the future and therefore cannot be valid (or system clock is wrong)"
unfolding script
future_exclusion = refl

abbrev output : List String
output = "header" ∷ "200711-01 [N] foo" ∷ "200712-02 [A] bar" ∷ "" ∷ []

ran : run host glsa_command ≡ returned output
unfolding script
ran = refl

security_lines_there : security_lines_of output ≡ "200711-01 [N] foo" ∷ []
unfolding script
security_lines_there = refl

applied_lines_there : applied_lines_of output ≡ "200712-02 [A] bar" ∷ []
unfolding script
applied_lines_there = refl

few_lines : length output ≤ 5 + length (security_lines_of output) + length (applied_lines_of output)
few_lines = omega arith

get_security_status_lem_example :
    get_security_status host false (some ("200711-01" ∷ []))
    ≡ returned (
        process_security_package_output false
          (length (lines_with (is_left ("200711-01" ∷ [])) (security_lines_of output)))
          (length (lines_with (is_left ("200711-01" ∷ [])) (applied_lines_of output))))
get_security_status_lem_example =
    get_security_status_lem host false (some ("200711-01" ∷ [])) output ran few_lines
      (rw security_lines_there (refl, tt)) (rw applied_lines_there (refl, tt))

abbrev both : String
both = "200712-02, 200711-01,200712-02"

abbrev ids : List String
ids = "200711-01" ∷ "200712-02" ∷ []

ids_valid : validate_exclusions 202401 (some 1) (some both) ≡ returned (some ids)
unfolding script
ids_valid = refl

validate_exclusions_lem_example :
    IsAscending ids
    × IsDistinct ids
    × All (IsAccepted 202401) ids
    × ((s : String) → mem s ids ≡ mem s (parts both))
validate_exclusions_lem_example = validate_exclusions_lem 202401 (some 1) both ids ids_valid

abbrev a_day : Float
a_day = ratio (pos 25) 0

age_there : test_portage_current files clock a_day ≡ returned (pos 7200)
unfolding script
age_there = refl

test_portage_current_lem_example :
    (timestamp : String) × (tree now : List ℤ) × (tree_time now_time : ℤ) × IsNewest files timestamp
    × (clock.strptime timestamp ≡ some tree)
    × (clock.strptime clock.now ≡ some now)
    × (clock.mktime tree ≡ some tree_time)
    × (clock.mktime now ≡ some now_time)
    × (pos 7200 ≡ now_time -ℤ tree_time)
    × (is_older (pos 7200) a_day ≡ false)
    × (ltb_ℤ (pos 7200) (pos 0) ≡ false)
test_portage_current_lem_example = test_portage_current_lem files clock a_day (pos 7200) age_there

abbrev clear_message : String
clear_message =
    "0 Security Updates Available. Package Changes Available: 3 packages (2 upgrades, 1 new). Portage last synchronized 2.0 hours ago"

abbrev clear_tester : Tester
clear_tester = tester (some both) none (some 1)

all_clear : test_for_updates float host clear_tester ≡ returned (0, clear_message)
unfolding script
all_clear = refl

test_for_updates_ok_example :
    (v : Valid) × (age : ℤ) × (output : List String) × (validate_all_variables float host
        clear_tester
      ≡ returned v)
    × (test_portage_current files clock v.max_age ≡ returned age)
    × (run host glsa_command ≡ returned output)
    × IsClear false (ids_of v.glsa_ids) output
    × ((v.all_updates ≡ false) ⊎ (false ≡ false) ⊎ HasNoPackages host clear_tester)
test_for_updates_ok_example = test_for_updates_ok float host clear_tester clear_message all_clear

test_for_updates-quiet_example :
    test_for_updates float host (tester (some both) none none) ≢ returned (0, "")
test_for_updates-quiet_example =
    test_for_updates-quiet float host (tester (some both) none none) both (0, "") refl refl
