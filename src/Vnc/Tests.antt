-- ===== src/Vnc/Tests.antt =====
-- Runs of older/check_vnc.py.
use nagios_plugins.Base.{
  ℕ, String, Bool, true, false, Option, none, some, [], ◌≡◌, refl, str_eq, inr,
}
use nagios_plugins.Base.Int.{ℤ, pos}
use nagios_plugins.Nagios.{exited, missing}
use nagios_plugins.Vnc.{World, Options, main, script}

abbrev world : (is_python_3 : Bool) → (returncode : ℤ) → (output : String) → World
world is_python_3 returncode output = record {
  is_python_3 = is_python_3;
  path = "/usr/bin";
  files = record { is_file = λ path. true; is_executable = λ path. true };
  exists = λ path. str_eq path "/etc/vncpasswd";
  is_readable = λ path. true;
  popen = λ words. inr (record { returncode = returncode; stdout = output });
}

abbrev options : (passwdfile : Option String) → (verbosity : Option ℕ) → Options
options passwdfile verbosity = record {
  tester = record {
    base = record { server = some "vnc1"; timeout = missing; verbosity = verbosity };
    passwdfile = passwdfile;
  };
  service = none;
  took = none;
  args = [];
  version = false;
}

logged_in :
    main ""
      (world false (pos 0) "VNC server supports protocol version 3.8\nImage saved\n")
      (options (some "/etc/vncpasswd") (some 1))
    ≡ exited 0
        "VNC OK: vnc logged in and image obtained successfully. VNC server supports protocol version 3.8"
unfolding script
logged_in = refl

refused :
    main ""
      (world false (pos 1) "connect: Connection refused\n")
      (options (some "/etc/vncpasswd") none)
    ≡ exited 2 "VNC CRITICAL: Error connecting to vnc server - Connection refused"
unfolding script
refused = refl

glued_lines :
    main ""
      (world false (pos 1) "VNC server supports protocol version 3.8\nbad\npassword\n")
      (options (some "/etc/vncpasswd") none)
    ≡ exited 2 "VNC CRITICAL: Error connecting to vnc server - badpassword"
unfolding script
glued_lines = refl

no_passwdfile :
    main "" (world false (pos 0) "x") (options (some "/tmp/none") none)
    ≡ exited 3 "UNKNOWN: vnc passwd file '/tmp/none' does not exist"
unfolding script
no_passwdfile = refl

-- In Python 3 the newlines of the output are not its lines' ends.
refused_3 :
    main ""
      (world true (pos 1) "VNC server supports protocol version 3.8\nbad\n")
      (options (some "/etc/vncpasswd") none)
    ≡ exited 2
        "VNC CRITICAL: Error connecting to vnc server - b'VNC server supports protocol version 3.8\\nbad\\n'"
unfolding script
refused_3 = refl
