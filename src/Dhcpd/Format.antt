-- ===== src/Dhcpd/Format.antt =====
-- `format_leases` and `format_unauthorized_leases` of check_dhcpd_leases.py.
use nagios_plugins.Base.{ℕ, String, Bool, ◌||◌, List, [], ◌∷◌, ◌==◌, if◌then◌else◌, length}
use nagios_plugins.Base.Dict.{lookup, keys}
use nagios_plugins.Text.{◌&◌, rstrip}
use nagios_plugins.Text.Decimal.{show}
use nagios_plugins.Text.Sort.{sort}
use nagios_plugins.Nagios.{Outcome, returned, key_error, or_raise, ◌>>=◌}
use nagios_plugins.Dhcpd.Leases.{Addresses}
use nagios_plugins.Dhcpd.Sorting.{sort_keys_by_host}

pub record Style : Type 0 where
  pub compact_output : Bool
  pub no_name : Bool
  pub no_summary : Bool
  pub show_mac : Bool
  pub sort_by_ip : Bool

-- `no_name` sorts by address
unfoldable pub sorted_keys : Style → Addresses → List String
sorted_keys s d = if s.no_name || s.sort_by_ip then sort (keys d) else sort_keys_by_host d

abbrev pub comma_or_space : ℕ → Bool
comma_or_space c = c == b',' || c == b' '

-- an address with its name, unless names are off; a key that is missing is a KeyError
unfoldable pub name_part : Style → Addresses → String → Outcome String
name_part s d ip =
    if s.no_name
    then returned ip
    else (do e ← or_raise key_error (lookup ip d); returned (e.0 & " = " & ip))

-- the MAC, if it is wanted
unfoldable pub mac_part : Style → Addresses → String → Outcome String
mac_part s d ip =
    if s.show_mac
    then (do e ← or_raise key_error (lookup ip d); returned (" (" & e.1 & ")"))
    else returned ""

-- the loop: names come from `d`, MACs from `macs`
unfoldable pub list_leases : Style → (d macs : Addresses) → List String → String → Outcome String
list_leases s d macs [] msg = returned msg
list_leases s d macs (ip ∷ ips) msg = do
  name ← name_part s d ip
  mac ← mac_part s macs ip
  list_leases s d macs ips (msg & name & mac & ", ")

abbrev pub summary : Style → ℕ → String
summary s n =
    if s.no_summary
    then ""
    else (if n == 1 then show n & " lease" else show n & " leases")
      & (if s.compact_output then "" else " - ")

unfoldable pub format_leases : Style → Addresses → Outcome String
format_leases s d = do
  let ips = sorted_keys s d
  (if length ips == 0 then returned "No dhcp leases recorded" else (do
    msg ←
        (if s.compact_output then returned (summary s (length ips)) else (do
          listed ← list_leases s d d ips (summary s (length ips))
          returned (rstrip comma_or_space listed)))
    returned (msg & " | 'DHCP Leases'=" & show (length ips))))

abbrev pub headline : ℕ → String
headline n = if n == 1 then show n & " Unauthorized Host! " else show n & " Unauthorized Hosts! "

unfoldable pub format_unauthorized_leases :
    Style → (unauthorized addresses : Addresses) → Outcome String
format_unauthorized_leases s unauthorized addresses = do
  let ips = sorted_keys s unauthorized
  (if length ips == 0 then returned "" else (do
    listed ← list_leases s unauthorized addresses ips (headline (length ips))
    returned (rstrip comma_or_space listed)))
