-- ===== src/Vnc.antt =====
-- older/check_vnc.py. The class inherits from the one of older/lib_nagios.py, which
-- gives the output of a command as a text; in Python 3 that is `str` of bytes.
mod Tests
use nagios_plugins.Base.{
  ℕ, String, Bool, true, false, not, ◌&&◌, Option, none, some, List, [], ◌∷◌, ◌==◌, leb, ltb, drop,
  str_eq, if◌then◌else◌, ◌⊎◌, length, or_zero,
}
use nagios_plugins.Base.Int.{ℤ, pos, negsuc, is_zero}
use nagios_plugins.Text.{
  ◌&◌, is_empty, is_falsy, starts_with, rstrip, replace, join, split_on, contains, text_functions,
  or_empty,
}
use nagios_plugins.Text.Bytes.{str_bytes, escaped_all, escaped}
use nagios_plugins.LibNagios as Nagios
use nagios_plugins.LibNagios.{end, which, validate_host, validate_timeout, Files}
use nagios_plugins.Nagios.{
  ok_status, warning_status, critical_status, unknown_status, Outcome, returned, exited, Process,
  when, ◌>>=◌, ◌>>◌,
}

-- `VncTester`, as `main` fills it
pub record Tester : Type 0 where
  pub base : Nagios.Tester
  pub passwdfile : Option String

-- What the script meets: the interpreter, PATH, the files, what is known of the password file, and how a command
-- ends.
pub record World : Type 0 where
  pub is_python_3 : Bool
  pub path : String
  pub files : Files
  pub exists : String → Bool
  pub is_readable : String → Bool
  pub popen : List String → String ⊎ Process

-- The second message keeps its "%s".
unfoldable pub validate_passwdfile :
    (check_name : Option String) → World → (passwdfile : Option String) → Outcome (Unit {0})
unfolding end
validate_passwdfile check_name w passwdfile =
    let file = or_empty passwdfile in
    if is_empty file
    then end check_name unknown_status
        "You must supply a passwd file containing the VNC password in order to connect. See --help for details"
    else if not (w.exists file)
    then end check_name unknown_status ("vnc passwd file '" & file & "' does not exist")
    else if not (w.files.is_file file)
    then end check_name unknown_status "'%s' is not a file, cannot be used as the vnc passwd file"
    else if not (w.is_readable file)
    then end check_name unknown_status (
        "vnc passwd file '" & file & "' is not "
        & "readable, please allow read permission on this file")
    else returned tt

unfoldable pub validate_variables :
    (check_name : Option String) → World → Tester → Outcome Nagios.Tester
validate_variables check_name w t = do
  validate_host check_name t.base
  validate_passwdfile check_name w t.passwdfile
  validate_timeout check_name t.base

abbrev pub command_of : (vncsnapshot passwdfile server : String) → String
command_of vncsnapshot passwdfile server =
    vncsnapshot & " -compresslevel 0 -passwd " & passwdfile & " -vncQuality 0 " & server
    & " /dev/null"

-- `split` always gives a line.
abbrev first_line : List String → String
first_line [] = ""
first_line (line ∷ lines) = line

-- `line[:36] == "..."`, a text of 36 characters
abbrev tells_version : String → Bool
tells_version line = starts_with line "VNC server supports protocol version"

unfoldable pub success_of : (verbosity : ℕ) → (output : String) → String
success_of verbosity output =
    let line1 = first_line (split_on b'\n' output) in
    if leb 1 verbosity && tells_version line1
    then "vnc logged in and image obtained successfully. " & line1
    else "vnc logged in and image obtained successfully"

unfoldable pub failure_of : (verbosity : ℕ) → (output : String) → String
failure_of verbosity output =
    let lines = split_on b'\n' output in
    let told = if tells_version (first_line lines) then join "" (drop 1 lines) else output in
    let shown =
      if contains "Connection refused" told && verbosity == 0 then "Connection refused" else told in
    "Error connecting to vnc server - " & rstrip (λ c. c == b' ') (replace b'\n' " " shown)

-- the result, from the return code and the output
unfoldable pub conclusion : (verbosity : ℕ) → ℤ → (output : String) → ℕ × String
conclusion verbosity result output =
    if is_zero result
    then if is_empty output
      then (
        warning_status,
        "Test passed but no output was received from vncsnapshot program, abnormal condition, please check.",
      )
      else (ok_status, success_of verbosity output)
    else if is_empty output
    then (critical_status, "Connection failed. There was no output from vncsnapshot")
    else (critical_status, failure_of verbosity output)

unfoldable pub test_vnc : (check_name : Option String) → World → Tester → Outcome (ℕ × String)
test_vnc check_name w t = do
  valid ← validate_variables check_name w t
  vncsnapshot ← which check_name w.path w.files "vncsnapshot"
  (result, output) ←
      Nagios.run check_name w.is_python_3 w.popen
        (command_of vncsnapshot (or_empty t.passwdfile) (or_empty valid.server))
  returned (conclusion (or_zero valid.verbosity) result output)

-- What the option parser leaves for `main`; `took` is the time, where -T asks for it.
pub record Options : Type 0 where
  pub tester : Tester
  pub service : Option String
  pub took : Option String
  pub args : List String
  pub version : Bool

-- `nagios.CHECK_NAME`
abbrev name_of : Option String → Option String
name_of none = some "VNC"
name_of (some s) = some s

abbrev timed : Option String → String → String
timed none output = output
timed (some took) output = output & ". Test completed in " & took & " seconds"

-- `help` is the parser's help text.
unfoldable pub main : (help : String) → World → Options → Outcome (Unit {0})
main help w o =
    if ltb 0 (length o.args)
    then exited unknown_status help
    else if o.version
    then exited unknown_status "Nagios Plugin for VNC version 0.7.0"
    else (do
      (returncode, output) ← test_vnc (name_of o.service) w o.tester
      end (name_of o.service) returncode (timed o.took output))

-- For tests: computes with the whole script.
unfoldable pub script : Unit {0}
unfolding main test_vnc conclusion success_of failure_of validate_variables validate_passwdfile
    validate_host validate_timeout which Nagios.run text_functions rstrip str_bytes escaped_all
    escaped
script = tt
