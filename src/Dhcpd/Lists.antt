-- ===== src/Dhcpd/Lists.antt =====
-- The white- and blacklists of check_dhcpd_leases.py: `validate_normalize_macs`,
-- `check_unauthorized_leases` and the four checks that it calls.
pub mod Laws
pub mod Dashes
use nagios_plugins.Base.{
  ℕ, String, Bool, true, false, not, ◌&&◌, ◌||◌, Option, none, some, List, [], ◌∷◌, ◌==◌, leb,
  str_eq, if◌then◌else◌, any, map,
}
use nagios_plugins.Base.Dict.{Dict, insert}
use nagios_plugins.Text.{◌&◌, split, replace, upper, is_empty}
use nagios_plugins.Text.Decimal.{is_digit}
use nagios_plugins.Regex.{Re, bol, eol, one, optional, times, all_of, re_match, found}
use nagios_plugins.Nagios.{unknown_status, Outcome, returned, when, ◌>>=◌, ◌>>◌}
use nagios_plugins.Dhcpd.Leases.{end, Addresses}

pub record Lists : Type 0 where
  pub host_whitelist : String
  pub host_blacklist : String
  pub mac_whitelist : List String
  pub mac_blacklist : List String

unfoldable pub is_hex : ℕ → Bool
is_hex c = is_digit c || (leb b'A' c && leb c b'F') || (leb b'a' c && leb c b'f')

abbrev hex_pair : Re
hex_pair = all_of (one is_hex ∷ one is_hex ∷ [])

-- ^([\dA-Fa-f]{2}[:-]?){5}[\dA-Fa-f]{2}$
unfoldable pub is_mac_format : String → Bool
is_mac_format mac = found (
    re_match
      (all_of (
        bol
        ∷ times 5 (all_of (hex_pair ∷ optional (one (λ c. c == b':' || c == b'-')) ∷ []))
        ∷ hex_pair
        ∷ eol
        ∷ []))
      mac)

-- the normalized form of a MAC
unfoldable pub normalize_mac : String → String
normalize_mac mac = upper (replace b':' "" mac)

unfoldable pub check_macs : List String → Outcome (Unit {0})
check_macs [] = returned tt
check_macs (mac ∷ macs) = do
  when (not (is_mac_format mac))
      (end unknown_status ("'" & mac & "' was given as a Mac address but is not a valid Mac"))
  check_macs macs

unfoldable pub validate_normalize_macs : String → Outcome (List String)
validate_normalize_macs maclist = do
  let macs = map normalize_mac (split (replace b',' " " maclist))
  check_macs macs
  returned macs

-- the entries of a list of hosts
unfoldable pub hosts_of : String → List String
hosts_of list = map upper (split (replace b',' " " list))

abbrev pub mem : String → List String → Bool
mem s list = any (str_eq s) list

abbrev pub is_nil {ℓ} : {A : Type ℓ} → List A → Bool
is_nil [] = true
is_nil (x ∷ xs) = false

-- A check adds the entries of which `test` holds, changed by `change`.
unfoldable pub add_offenders :
    (test : String × String → Bool) (change : String × String → String × String)
    → Addresses
    → Addresses
    → Addresses
add_offenders test change [] d = d
add_offenders test change ((ip, e) ∷ addresses) d =
    add_offenders test change addresses (if test e then insert ip (change e) d else d)

abbrev unchanged : String × String → String × String
unchanged e = e

abbrev pub with_normal_mac : String × String → String × String
with_normal_mac (hostname, mac) = (hostname, normalize_mac mac)

unfoldable pub check_mac_whitelist : Lists → Addresses → Addresses → Addresses
check_mac_whitelist l =
    add_offenders (λ e. not (mem (normalize_mac e.1) l.mac_whitelist)) with_normal_mac

unfoldable pub check_mac_blacklist : Lists → Addresses → Addresses → Addresses
check_mac_blacklist l = add_offenders (λ e. mem (normalize_mac e.1) l.mac_blacklist) with_normal_mac

unfoldable pub check_host_whitelist : Lists → Addresses → Addresses → Addresses
check_host_whitelist l =
    add_offenders (λ e. not (mem (upper e.0) (hosts_of l.host_whitelist))) unchanged

unfoldable pub check_host_blacklist : Lists → Addresses → Addresses → Addresses
check_host_blacklist l = add_offenders (λ e. mem (upper e.0) (hosts_of l.host_blacklist)) unchanged

abbrev pub check_if : Bool → (Addresses → Addresses) → Addresses → Addresses
check_if true check d = check d
check_if false check d = d

-- `unauthorized_dict`, from the addresses
unfoldable pub check_unauthorized_leases : Lists → Addresses → Addresses
check_unauthorized_leases l addresses =
    check_if (not (is_empty l.host_blacklist)) (check_host_blacklist l addresses) (
      check_if (not (is_empty l.host_whitelist)) (check_host_whitelist l addresses) (
        check_if (not (is_nil l.mac_blacklist)) (check_mac_blacklist l addresses)
          (check_if (not (is_nil l.mac_whitelist)) (check_mac_whitelist l addresses) [])))

-- whether `parse_leases` reads names and MACs for the checks
unfoldable pub security_checks_on : Lists → Bool
security_checks_on l =
    not (is_empty l.host_whitelist)
    || not (is_empty l.host_blacklist)
    || not (is_nil l.mac_whitelist)
    || not (is_nil l.mac_blacklist)
