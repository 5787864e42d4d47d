-- ===== src/Dhcpd/Command.antt =====
-- `validate_variables`, `test_leases` and `main` of check_dhcpd_leases.py.
pub mod Status
use nagios_plugins.Base.{
  ℕ, String, Bool, true, false, not, ◌||◌, Option, none, some, List, [], ◌∷◌, ltb, if◌then◌else◌,
  length,
}
use nagios_plugins.Base.Int.{ℤ}
use nagios_plugins.Text.{◌&◌, is_falsy, text_functions, or_empty}
use nagios_plugins.Text.Decimal.{parse_int, show, is_digit}
use nagios_plugins.Text.Sort.{sort}
use nagios_plugins.Regex.{re_search, re_match, repeat}
use nagios_plugins.Nagios.{
  ok_status, critical_status, unknown_status, Outcome, returned, exited, ◌>>=◌, ◌>>◌,
}
use nagios_plugins.Dhcpd.Leases.{
  end, Addresses, open_lease_file, is_lease_file, is_active, is_ip_address, is_mac_line, get_ip,
  get_hostname, get_mac, add_lease, add_leases,
}
use nagios_plugins.Dhcpd.Lists.{
  Lists, is_nil, validate_normalize_macs, check_macs, is_mac_format, normalize_mac, is_hex,
  hosts_of, add_offenders, check_mac_whitelist, check_mac_blacklist, check_host_whitelist,
  check_host_blacklist, security_checks_on, check_unauthorized_leases,
}
use nagios_plugins.Dhcpd.Sorting.{sort_keys_by_host}
use nagios_plugins.Dhcpd.Format.{
  Style, name_part, mac_part, sorted_keys, list_leases, format_leases, format_unauthorized_leases,
}

-- `DhcpdLeaseTester`, as `main` fills it; a flag of `None` is false.
pub record Tester : Type 0 where
  pub style : Style
  pub leasefile : Option String
  pub host_whitelist : Option String
  pub host_blacklist : Option String
  pub mac_whitelist : Option String
  pub mac_blacklist : Option String

-- the name of the lease file
abbrev file_of : Option String → Outcome String
file_of none = end unknown_status "No leasefile to test"
file_of (some s) = returned s

unfoldable pub validate_variables : Tester → Outcome (String × Lists)
validate_variables t = do
  leasefile ← file_of t.leasefile
  mac_whitelist ← validate_normalize_macs (or_empty t.mac_whitelist)
  mac_blacklist ← validate_normalize_macs (or_empty t.mac_blacklist)
  returned (
    leasefile,
    record {
      host_whitelist = or_empty t.host_whitelist;
      host_blacklist = or_empty t.host_blacklist;
      mac_whitelist = mac_whitelist;
      mac_blacklist = mac_blacklist;
    },
  )

-- the loop of `parse_leases`, from the blocks of the file
unfoldable pub addresses_of : Style → Lists → List String → Addresses
addresses_of s l leases =
    add_leases (not s.no_name || security_checks_on l) (s.show_mac || security_checks_on l) leases
      []

-- `test_leases` behind the validation and the file.
unfoldable pub report : Style → Lists → List String → Outcome (ℕ × String)
report s l leases = do
  let addresses = addresses_of s l leases
  output ← format_leases s addresses
  let unauthorized = check_unauthorized_leases l addresses
  (if is_nil unauthorized then returned (ok_status, output) else (do
    unauthorized_output ← format_unauthorized_leases s unauthorized addresses
    returned (critical_status, unauthorized_output & " || " & output)))

-- `read_file` gives the text of a file, or nothing for an IOError.
unfoldable pub test_leases : (read_file : String → Option String) → Tester → Outcome (ℕ × String)
test_leases read_file t = do
  (leasefile, lists) ← validate_variables t
  leases ← open_lease_file leasefile (read_file leasefile)
  report t.style lists leases

-- What the option parser leaves for `main`.
pub record Options : Type 0 where
  pub tester : Tester
  pub timeout : Option String
  pub args : List String
  pub version : Bool

-- `int(timeout)`
abbrev as_timeout : Option String → Outcome (Unit {0})
as_timeout none = returned tt
as_timeout (some s) = elim (parse_int s) [
  | none ↦ end unknown_status "timeout must be a numeric integer. See --help for details"
  | some n ↦ returned tt
]

-- `help` is the parser's help text.
unfoldable pub main :
    (help : String) → (read_file : String → Option String) → Options → Outcome (Unit {0})
main help read_file o =
    if ltb 0 (length o.args)
    then exited unknown_status help
    else if o.version
    then exited unknown_status "0.8.4"
    else if is_falsy o.tester.leasefile
    then exited unknown_status
        ("UNKNOWN: no lease file specified. See --help for details\n\n" & help)
    else (do
      as_timeout o.timeout
      (result, output) ← test_leases read_file o.tester
      end result output)

-- For tests: computes with the whole script.
unfoldable pub script : Unit {0}
unfolding main test_leases report addresses_of validate_variables format_leases
    format_unauthorized_leases list_leases name_part mac_part sorted_keys sort_keys_by_host
    check_unauthorized_leases security_checks_on check_mac_whitelist check_mac_blacklist
    check_host_whitelist check_host_blacklist add_offenders hosts_of validate_normalize_macs
    check_macs is_mac_format normalize_mac is_hex open_lease_file is_lease_file add_leases add_lease
    is_active is_ip_address is_mac_line get_ip get_hostname get_mac end sort re_search re_match
    repeat show parse_int is_digit text_functions
script = tt
