-- ===== src/Dhcpd/Sorting.antt =====
-- `sort_keys_by_host` of check_dhcpd_leases.py.
pub mod Laws
use nagios_plugins.Base.{
  String, Bool, true, false, Option, none, some, List, [], ◌∷◌, ◌++◌, str_eq, if◌then◌else◌, any,
  map,
}
use nagios_plugins.Base.Dict.{Dict, lookup, keys}
use nagios_plugins.Text.Sort.{sort}
use nagios_plugins.Dhcpd.Leases.{Addresses}

abbrev pub host_or_empty : Option (String × String) → String
host_or_empty none = ""
host_or_empty (some e) = e.0

-- `dictionary[key][0]`, for a key of the dictionary
abbrev pub host_of : Addresses → String → String
host_of d key = host_or_empty (lookup key d)

-- the inner loop, for one host
abbrev pub keys_with : (String → String) → String → List String → List String
keys_with host h [] = []
keys_with host h (key ∷ ks) =
    if str_eq (host key) h then key ∷ keys_with host h ks else keys_with host h ks

-- the outer loop
abbrev pub keys_by_host : (String → String) → List String → List String → List String
keys_by_host host [] ks = []
keys_by_host host (h ∷ hosts) ks = keys_with host h ks ++ keys_by_host host hosts ks

-- the removal of duplicates, with `keys_sorted2` as `kept`
abbrev pub dedup : (kept : List String) → List String → List String
dedup kept [] = kept
dedup kept (key ∷ ks) = dedup (if any (str_eq key) kept then kept else kept ++ key ∷ []) ks

unfoldable pub sort_keys_by_host : Addresses → List String
sort_keys_by_host d =
    let ks = sort (keys d) in dedup [] (keys_by_host (host_of d) (sort (map (host_of d) ks)) ks)
