-- ===== src/Dhcpd/Leases.antt =====
-- `end`, `open_lease_file`, `parse_leases`, `get_ip`, `get_hostname` and `get_mac` of
-- check_dhcpd_leases.py.
pub mod Laws
pub mod Hidden
use nagios_plugins.Base.{
  ℕ, String, Bool, true, false, not, ◌&&◌, ◌||◌, Option, none, some, List, [], ◌∷◌, ◌==◌, str_eq,
  if◌then◌else◌,
}
use nagios_plugins.Base.Dict.{Dict, insert}
use nagios_plugins.Text.{◌&◌, contains, split, split_on, rstrip, lstrip, is_space, is_empty}
use nagios_plugins.Text.Decimal.{is_digit}
use nagios_plugins.Regex as Regex
use nagios_plugins.Regex.{
  Re, one, star, plus, lit, optional, any_case, repeat, times, all_of, re_match, re_search, found,
}
use nagios_plugins.Nagios.{
  ok_status, warning_status, critical_status, Outcome, returned, exited, when, ◌>>=◌, ◌>>◌,
}

unfoldable pub end {ℓ} : {A : Type ℓ} → ℕ → String → Outcome A
end status message =
    if status == ok_status
    then exited ok_status ("DHCP LEASES: " & message)
    else if status == warning_status
    then exited warning_status ("WARNING: " & message)
    else if status == critical_status
    then exited critical_status ("CRITICAL: " & message)
    else exited 3 ("UNKNOWN: " & message)

-- \n\s*lease .+{\s*\n
abbrev re_block : Re
re_block = all_of (
    lit "\n"
    ∷ star is_space
    ∷ lit "lease "
    ∷ plus Regex.any
    ∷ lit "{"
    ∷ star is_space
    ∷ lit "\n"
    ∷ [])

-- (?i)\n#.*lease[s]? file .* written by.*\n
abbrev re_written_by : Re
re_written_by = all_of (
    lit "\n#"
    ∷ star Regex.any
    ∷ any_case "LEASE"
    ∷ optional (any_case "S")
    ∷ lit " "
    ∷ any_case "FILE"
    ∷ lit " "
    ∷ star Regex.any
    ∷ lit " "
    ∷ any_case "WRITTEN"
    ∷ lit " "
    ∷ any_case "BY"
    ∷ star Regex.any
    ∷ lit "\n"
    ∷ [])

-- \n#.*dhcpd.leases.*\n
abbrev re_dhcpd_leases : Re
re_dhcpd_leases = all_of (
    lit "\n#"
    ∷ star Regex.any
    ∷ lit "dhcpd"
    ∷ one Regex.any
    ∷ lit "leases"
    ∷ star Regex.any
    ∷ lit "\n"
    ∷ [])

-- \n(?i)#.*isc-dhcp.*\n
abbrev re_isc_dhcp : Re
re_isc_dhcp = all_of (
    lit "\n#"
    ∷ star Regex.any
    ∷ any_case "ISC"
    ∷ lit "-"
    ∷ any_case "DHCP"
    ∷ star Regex.any
    ∷ lit "\n"
    ∷ [])

unfoldable pub is_lease_file : String → Bool
is_lease_file leases =
    found (re_search re_block leases)
    || found (re_search re_written_by leases)
    || found (re_search re_dhcpd_leases leases)
    || found (re_search re_isc_dhcp leases)

-- `xs[:-1]`
abbrev pub without_last : List String → List String
without_last [] = []
without_last (x ∷ []) = []
without_last (x ∷ y ∷ xs) = x ∷ without_last (y ∷ xs)

-- `contents` is the text of the file, or nothing for an IOError.
unfoldable pub open_lease_file :
    (leasefile : String) → (contents : Option String) → Outcome (List String)
open_lease_file leasefile none =
    end critical_status ("Error reading lease file '" & leasefile & "'")
open_lease_file leasefile (some leases) = do
  when (not (is_lease_file leases))
      (end critical_status ("'" & leasefile & "' is not recognized as a valid dhcpd lease file"))
  returned (without_last (split_on b'}' leases))

-- RE_BINDING_STATE_ACTIVE: \s*binding state active;
unfoldable pub is_active : String → Bool
is_active lease =
    found (re_search (all_of (star is_space ∷ lit "binding state active;" ∷ [])) lease)

-- RE_IP_ADDRESS: (\d{1,3}.){3}\d{1,3}
abbrev digits : Re
digits = all_of (one is_digit ∷ repeat 2 (one is_digit) ∷ [])

unfoldable pub is_ip_address : String → Bool
is_ip_address ip =
    found (re_match (all_of (times 3 (all_of (digits ∷ one Regex.any ∷ [])) ∷ digits ∷ [])) ip)

-- RE_MAC: hardware\sethernet
unfoldable pub is_mac_line : String → Bool
is_mac_line line =
    found (re_search (all_of (lit "hardware" ∷ one is_space ∷ lit "ethernet" ∷ [])) line)

abbrev pub ip_in : List String → String
ip_in (a ∷ ip ∷ c ∷ []) = ip
ip_in _ = "UNKNOWN"

-- the loop of `get_ip`
abbrev pub last_ip : String → List String → String
last_ip ip [] = ip
last_ip ip (line ∷ lines) = last_ip (if contains "lease" line then ip_in (split line) else ip) lines

unfoldable pub get_ip : List String → String
get_ip lines = let ip = last_ip "" lines in if is_ip_address ip then ip else "UNKNOWN"

abbrev strip_quotes : String → String
strip_quotes s = rstrip (λ c. c == b'"') (lstrip (λ c. c == b'"') s)

abbrev hostname_in : List String → String
hostname_in (a ∷ hostname ∷ []) = strip_quotes (rstrip (λ c. c == b';') hostname)
hostname_in _ = "UNKNOWN"

abbrev last_hostname : String → List String → String
last_hostname hostname [] = hostname
last_hostname hostname (line ∷ lines) =
    last_hostname (if contains "client-hostname" line then hostname_in (split line) else hostname)
      lines

abbrev or_unknown : String → String
or_unknown s = if is_empty s then "UNKNOWN" else s

unfoldable pub get_hostname : List String → String
get_hostname lines = or_unknown (last_hostname "" lines)

abbrev mac_in : List String → String
mac_in (a ∷ b ∷ mac ∷ []) = rstrip (λ c. c == b';') mac
mac_in _ = "UNKNOWN"

abbrev last_mac : String → List String → String
last_mac mac [] = mac
last_mac mac (line ∷ lines) = last_mac (if is_mac_line line then mac_in (split line) else mac) lines

unfoldable pub get_mac : List String → String
get_mac lines = or_unknown (last_mac "" lines)

-- `address_dict`: the hostname and the MAC of an address
abbrev pub Addresses : Type 0
Addresses = Dict (String × String)

-- the entry of a lease; the Booleans say whether the hostname and the MAC are wanted
abbrev pub entry_of : (names macs : Bool) → List String → String × String
entry_of names macs lines = (
  if names then get_hostname lines else "Unknown Hostname",
  if macs then get_mac lines else "Unknown Mac",
)

-- one round of the loop of `parse_leases`
unfoldable pub add_lease : (names macs : Bool) → String → Addresses → Addresses
add_lease names macs lease d =
    let lines = split_on b'\n' lease in
    if is_active lease && not (str_eq (get_ip lines) "UNKNOWN")
    then insert (get_ip lines) (entry_of names macs lines) d
    else d

unfoldable pub add_leases : (names macs : Bool) → List String → Addresses → Addresses
add_leases names macs [] d = d
add_leases names macs (lease ∷ leases) d =
    add_leases names macs leases (add_lease names macs lease d)
