-- ===== src/LibNagios/Tests.antt =====
-- Runs of the functions of older/lib_nagios.py, and the theorems at concrete inputs.
use nagios_plugins.Base.{
  ℕ, ◌≤◌, String, true, none, some, ◌≡◌, ◌↔◌, refl, str_eq, if◌then◌else◌, false, List, inr, ◌⊎◌,
}
use nagios_plugins.Base.Int.{pos}
use nagios_plugins.Text.{text_functions, split_on, split, is_space}
use nagios_plugins.Nagios.{returned, exited, text, Process}
use nagios_plugins.LibNagios.{
  Files, Tester, which, new_tester, validate_host, validate_timeout, sighandler, run,
}
use nagios_plugins.LibNagios.Laws.{denoted, with_timeout, validate_timeout_iff}
use nagios_plugins.LibNagios.Which.{Finds, which-Finds}

abbrev disk : Files
disk = record {
  is_file = λ p. if str_eq p "/sbin/mdadm" then true else str_eq p "/bin/ls";
  is_executable = λ p. str_eq p "/bin/ls";
}

which_ls : which none "/usr/bin:/bin" disk "ls" ≡ returned "/bin/ls"
unfolding which text_functions
which_ls = refl

which-not_executable :
    which none "/sbin:/bin" disk "mdadm"
    ≡ exited 3 "UNKNOWN: utility '/sbin/mdadm' is not executable"
unfolding which text_functions
which-not_executable = refl

named_host :
    validate_host none (record new_tester { server = some "db-1.example.com" }) ≡ returned tt
unfolding validate_host
named_host = refl

address : validate_host none (record new_tester { server = some "10.0.255.1" }) ≡ returned tt
unfolding validate_host
address = refl

bad_host :
    validate_host none (record new_tester { server = some "a b" })
    ≡ exited 3 "UNKNOWN: Server given does not appear to be a valid hostname or ip address"
unfolding validate_host
bad_host = refl

alarm :
    sighandler (some "VNC ") new_tester
    ≡ exited 2
        "VNC CRITICAL: vnc plugin has self terminated after exceeding the timeout (10 seconds)"
unfolding sighandler
alarm = refl

abbrev asked : Tester
asked = record { server = some "a"; timeout = text "3601"; verbosity = none }

validate_timeout_iff_example :
    (validate_timeout none asked ≡ returned (with_timeout 3601 asked)) ↔ (
      (n : ℕ) × (denoted (text "3601") ≡ some (pos n))
      × (1 ≤ n)
      × (n ≤ 65535)
      × (with_timeout 3601 asked ≡ with_timeout n asked))
validate_timeout_iff_example = validate_timeout_iff none asked (with_timeout 3601 asked)

which-Finds_example :
    Finds none disk "ls" (split_on b':' "/usr/bin:/bin") (which none "/usr/bin:/bin" disk "ls")
which-Finds_example = which-Finds none "/usr/bin:/bin" disk "ls"

abbrev silent : List String → String ⊎ Process
silent words = inr (record { returncode = pos 0; stdout = "" })

-- In Python 2.
no_output : run none false silent "true" ≡ exited 3 "UNKNOWN: No output from utility 'true'"
unfolding run split is_space
no_output = refl
