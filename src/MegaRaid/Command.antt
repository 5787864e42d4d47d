-- ===== src/MegaRaid/Command.antt =====
-- The start of older/check_lsi_megaraid.py, make_megadev, and main.
use nagios_plugins.Base.{
  ℕ, String, Bool, not, Option, List, [], ◌∷◌, str_eq, if◌then◌else◌, ◌⊎◌, inl, inr, length, ltb,
}
use nagios_plugins.Base.Int.{ℤ, is_zero}
use nagios_plugins.Text.{◌&◌, split, split_on}
use nagios_plugins.Nagios.{ok_status, unknown_status, Outcome, returned, exited, when, ◌>>=◌, ◌>>◌}
use nagios_plugins.MegaRaid.Utility.{end}
use nagios_plugins.MegaRaid.Arrays.{test_raid}

-- What the script meets: the user, whether the interpreter orders `None`, the files, the text of /proc/devices or of the error of reading
-- it, how mknod answers or the text of the error of running it, and how the utility answers.
pub record Host : Type 0 where
  pub is_root : Bool
  pub orders_none : Bool
  pub srcdir : String
  pub exists : String → Bool
  pub is_executable : String → Bool
  pub proc_devices : String ⊎ String
  pub mknod : String → String ⊎ (ℤ × String)
  pub shell : String → ℤ × String

pub record Options : Type 0 where
  pub no_summary : Bool
  pub verbosity : Option ℕ
  pub version : Bool
  pub args : List String

abbrev megadev : String
megadev = "/dev/megadev0"

-- The loop of `make_megadev`: `device` and `major_number`, from their values before.
unfoldable pub find_device : List String → String × String → String × String
find_device [] found = found
find_device (line ∷ lines) found = elim (split line) [
  | [] ↦ find_device lines found
  | number ∷ rest ↦ elim rest [
    | [] ↦ find_device lines found
    | device ∷ words ↦
        if str_eq device "megadev" then (device, number) else find_device lines (device, number)
  ]
]

abbrev read_devices : (devicenode : String) → String ⊎ String → Outcome String
read_devices devicenode (inr lines) = returned lines
read_devices devicenode (inl error) = end unknown_status (
    "Error reading /proc/devices while trying to create device node '" & devicenode & "' - "
    & error)

abbrev made : (devicenode : String) → String ⊎ (ℤ × String) → Outcome (Unit {0})
made devicenode (inl error) =
    end unknown_status ("Error making '" & devicenode & "' device node - " & error)
made devicenode (inr (result, output)) =
    when (not (is_zero result))
      (end unknown_status ("Error making device node '" & devicenode & "' - " & output))

-- The major number is unbound before the loop, but then the device is not "megadev".
unfoldable pub make_megadev : Host → (devicenode : String) → Outcome (Unit {0})
unfolding end find_device split_on
make_megadev h devicenode = do
  lines ← read_devices devicenode h.proc_devices
  (device, major_number) ← returned (find_device (split_on b'\n' lines) ("", ""))
  when (not (str_eq device "megadev")) (
      end unknown_status
        "Unable to create device node /dev/megadev0. Megadev not found in /proc/devices. Please make sure you have an Lsi MegaRaid card detected by your kernel first")
  made devicenode (h.mknod ("mknod /dev/megadev0 c " & major_number & " 2"))

abbrev pub bin_of : Host → String
bin_of h = h.srcdir & "/megarc.bin"

-- the statements at the top of the script
unfoldable pub prepare : Host → Outcome (Unit {0})
unfolding end
prepare h =
    if not h.is_root
    then end unknown_status "You must be root to run this plugin"
    else if not (h.exists (bin_of h))
    then end unknown_status ("Lsi MegaRaid utility '" & bin_of h & "' was not found")
    else if not (h.is_executable (bin_of h))
    then end unknown_status ("Lsi MegaRaid utility '" & bin_of h & "' is not executable")
    else if not (h.exists megadev)
    then make_megadev h megadev
    else returned tt

-- `help` is the parser's help text.
unfoldable pub main : (help : String) → Host → Options → Outcome (Unit {0})
main help h o =
    if ltb 0 (length o.args)
    then exited unknown_status help
    else if o.version
    then exited ok_status "0.9.0"
    else (do
      (result, message) ← test_raid (bin_of h) h.shell h.orders_none o.verbosity o.no_summary
      end result message)

-- the whole script
unfoldable pub run_script : (help : String) → Host → Options → Outcome (Unit {0})
run_script help h o = prepare h >> main help h o
