-- ===== src/Svn/Tests.antt =====
-- Runs of older/check_svn.py, and the theorems there.
use nagios_plugins.Base.{
  ℕ, String, Bool, true, false, Option, none, some, [], ◌≡◌, refl, ◌↔◌, str_eq, inr, or_zero,
}
use nagios_plugins.Base.Int.{ℤ, pos}
use nagios_plugins.LibNagios as Nagios
use nagios_plugins.Nagios.{returned, exited, missing}
use nagios_plugins.Svn.{
  Tester, World, Options, main, script, test_svn, validate_protocol, validate_port, generate_uri,
}
use nagios_plugins.Svn.Laws.{test_svn_iff, arguments, verdict}
use nagios_plugins.LibNagios.Laws.{printed}
use nagios_plugins.Text.{is_space}
use nagios_plugins.LibNagios.{validate_host, validate_timeout, which}

abbrev world : (is_python_3 : Bool) → (returncode : ℤ) → (output : String) → World
world is_python_3 returncode output = record {
  is_python_3 = is_python_3;
  path = "/bin:/usr/bin";
  files = record { is_file = λ path. str_eq path "/usr/bin/svn"; is_executable = λ path. true };
  popen = λ words. inr (record { returncode = returncode; stdout = output });
}

abbrev options : (https : Bool) → (port : Option String) → Options
options https port = record {
  tester = record {
    base = record { server = some "svn.example.org"; timeout = missing; verbosity = none };
    directory = some "//repos/svn";
    http = false;
    https = https;
    password = none;
    port = port;
    username = some "bob";
  };
  service = none;
  took = none;
  args = [];
  version = false;
}

online :
    main "" (world false (pos 0) "trunk/\n") (options true none)
    ≡ exited 0 "SVN OK: svn repository online - directory listing successful"
unfolding script
online = refl

eaten :
    main "" (world false (pos 1) "svn: no such host\n") (options false (some "3690"))
    ≡ exited 2 "SVN CRITICAL: Error connecting to svn server - o such host"
unfolding script
eaten = refl

no_output :
    main "" (world false (pos 0) "") (options true none)
    ≡ exited 3 "UNKNOWN: No output from utility '/usr/bin/svn'"
unfolding script
no_output = refl

bad_port :
    main "" (world false (pos 0) "trunk/\n") (options true (some "0"))
    ≡ exited 3 "UNKNOWN: port number must be a whole number between 1 and 65535"
unfolding script
bad_port = refl

abbrev bob : Tester
bob = record {
  base = record { server = some "svn.example.org"; timeout = missing; verbosity = none };
  directory = some "/repos";
  http = false;
  https = true;
  password = none;
  port = some "8443";
  username = some "bob";
}

found_svn :
    which none "/bin:/usr/bin" (world false (pos 0) "trunk/\n").files "svn"
    ≡ returned "/usr/bin/svn"
unfolding script
found_svn = refl

test_svn_iff_example :
    (test_svn none (world false (pos 0) "trunk/\n") bob
      ≡ returned (0, "svn repository online - directory listing successful"))
    ↔ ((validate_host none bob.base ≡ returned tt)
        × (protocol : String) × (validate_protocol none false true ≡ returned protocol)
        × (port : Option ℕ) × (validate_port none (some "8443") ≡ returned port)
        × (valid : Nagios.Tester) × (validate_timeout none bob.base ≡ returned valid)
        × (code : ℤ) × (output stdout : String) × (printed false stdout ≡ some output)
        × ((world false (pos 0) "trunk/\n").popen (
              arguments "/usr/bin/svn"
                (generate_uri protocol "svn.example.org" port (some "/repos"))
                (some "bob")
                none)
            ≡ inr (record { returncode = code; stdout = stdout }))
        × ((0, "svn repository online - directory listing successful")
            ≡ verdict (or_zero valid.verbosity) code output))
unfolding is_space
test_svn_iff_example =
    test_svn_iff none (world false (pos 0) "trunk/\n") bob "/usr/bin/svn" (refl, refl, refl, refl)
      found_svn (refl, refl) (0, "svn repository online - directory listing successful")

-- In Python 3 the text of no output is "b''", and the prefix that is to be stripped comes behind.
no_output_3 :
    main "" (world true (pos 0) "") (options true none)
    ≡ exited 0 "SVN OK: svn repository online - directory listing successful"
unfolding script
no_output_3 = refl

error_3 :
    main "" (world true (pos 1) "svn: no such host\n") (options false none)
    ≡ exited 2 "SVN CRITICAL: Error connecting to svn server - b'svn: no such host\\n'"
unfolding script
error_3 = refl
