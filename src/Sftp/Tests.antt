-- ===== src/Sftp/Tests.antt =====
-- Runs of older/check_sftp.py, and the theorems there.
use nagios_plugins.Base.{
  String, Bool, true, false, none, some, List, [], ◌∷◌, ◌≡◌, refl, str_eq, ◌↔◌, All,
}
use nagios_plugins.Base.Int.{pos}
use nagios_plugins.Nagios.{exited, raised, Exception}
use nagios_plugins.Sftp.Items.Laws.{IsListed}
use nagios_plugins.Sftp.Command.Laws.{ok_line, test_sftp_iff}
use nagios_plugins.Sftp.Command.{World, Options, main, command_of, test_sftp, script}

abbrev listing : String
listing =
    "Connecting to host...\nsftp> ls -la\ndrwxr-xr-x 2 a b 4096 Jan 1 10:00 pub\n-rw-r--r-- 1 a b 10 Jan 1 10:00 notes\n"

abbrev world : (orders_none : Bool) → World
world orders_none = record {
  path = "/bin:/usr/bin";
  is_file = λ path. str_eq path "/usr/bin/sftp";
  is_executable = λ path. true;
  is_readable = λ path. true;
  orders_none = orders_none;
  communicate = λ cmd. some (pos 0, listing);
}

abbrev options : (files dirs : List String) → Options
options files dirs = record {
  server = some "host";
  port = none;
  user = some "bob";
  sshkey = none;
  nostricthostkey = false;
  files = files;
  dirs = dirs;
  timeout = none;
  verbosity = none;
  args = [];
}

logged_in :
    main "" (world true) (options [] ("pub" ∷ [])) ≡ exited 0 "SFTP OK: logged in successfully"
unfolding script
logged_in = refl

plain_file_missing :
    main "" (world true) (options ("notes" ∷ []) [])
    ≡ exited 2 "CRITICAL: directory '<built-in function dir>' not found on sftp server"
unfolding script
plain_file_missing = refl

no_order : main "" (world false) (options [] []) ≡ raised Exception.type_error
unfolding script
no_order = refl

abbrev with_dir : Options
with_dir = options [] ("pub" ∷ [])

test_sftp_iff_example :
    (test_sftp (world true) "/usr/bin/sftp" "host" 22 with_dir ≡ exited 0 ok_line) ↔ (
      (ok_line ≡ ok_line)
      × (output : String) × ((world true).communicate
            (command_of "/usr/bin/sftp" "host" 22 (some "bob") none false)
          ≡ some (pos 0, output))
      × All (IsListed output) []
      × All (IsListed output) ("pub" ∷ []))
test_sftp_iff_example = test_sftp_iff (world true) "/usr/bin/sftp" "host" 22 with_dir ok_line refl
