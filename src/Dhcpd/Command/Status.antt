-- ===== src/Dhcpd/Command/Status.antt =====
-- The status that check_dhcpd_leases.py reports.
use nagios_plugins.Base.{
  String, true, not, ◌||◌, some, List, [], ◌∷◌, ◌++◌, ◌≡◌, refl, sym, ◌∙◌, arith, eq_iff,
  if◌then◌else◌, any, All, length, ◌==◌, Bool-cases, Option-cases, inl, inr,
}
use nagios_plugins.Base.Dict.{lookup, keys}
use nagios_plugins.Text.{◌&◌, rstrip}
use nagios_plugins.Text.Decimal.{show}
use nagios_plugins.Text.Sort.{sort-All}
use nagios_plugins.Nagios.{returned}
use nagios_plugins.Dhcpd.Leases.{Addresses}
use nagios_plugins.Dhcpd.Leases.Hidden.{IsHidden, add_leases-hidden}
use nagios_plugins.Dhcpd.Lists.{Lists, check_unauthorized_leases, security_checks_on}
use nagios_plugins.Dhcpd.Lists.Laws.{
  violates, has, breaks-has, check_unauthorized_leases-has, check_unauthorized_leases-nil,
}
use nagios_plugins.Dhcpd.Sorting.Laws.{sort_keys_by_host-All}
use nagios_plugins.Dhcpd.Format.{
  Style, comma_or_space, name_part, mac_part, summary, headline, sorted_keys, list_leases,
  format_leases, format_unauthorized_leases,
}
use nagios_plugins.Dhcpd.Command.{addresses_of, report}

-- a key of a dictionary
abbrev IsIn : Addresses → String → Type 0
IsIn d ip = has ip d ≡ true

later-IsIn :
    (k : String) (e : String × String) (d : Addresses) (ips : List String)
    → All (IsIn d) ips
    → All (IsIn ((k, e) ∷ d)) ips
later-IsIn k e d [] h = tt
later-IsIn k e d (ip ∷ ips) h = (ground arith, later-IsIn k e d ips h.1)

keys-IsIn : (d : Addresses) → All (IsIn d) (keys d)
keys-IsIn [] = tt
keys-IsIn ((k, e) ∷ d) = (rw ((eq_iff k k).1 refl) refl, later-IsIn k e d (keys d) (keys-IsIn d))

sorted_keys-IsIn : (s : Style) (d : Addresses) → All (IsIn d) (sorted_keys s d)
unfolding sorted_keys
sorted_keys-IsIn s d = elim (Bool-cases (s.no_name || s.sort_by_ip)) [
  | inl by_ip ↦ rw by_ip (sort-All (IsIn d) (keys d) (keys-IsIn d))
  | inr by_host ↦ rw by_host (sort_keys_by_host-All (IsIn d) d (keys-IsIn d))
]

found_entry :
    (ip : String) (d : Addresses) → has ip d ≡ true → (e : String × String) × (lookup ip d ≡ some e)
found_entry ip d h = elim (Option-cases (lookup ip d)) [
  | inl missing ↦ absurd (ground (arith, missing, h))
  | inr found ↦ found
]

name_part_total :
    (s : Style) (d : Addresses) (ip : String)
    → IsIn d ip
    → (text : String) × (name_part s d ip ≡ returned text)
unfolding name_part
name_part_total s d ip h =
    let (e, found) = found_entry ip d h in
    elim (Bool-cases s.no_name) [
      | inl bare ↦ (ip, rw bare refl)
      | inr named ↦ (e.0 & " = " & ip, rw (named, found) refl)
    ]

mac_part_total :
    (s : Style) (d : Addresses) (ip : String)
    → IsIn d ip
    → (text : String) × (mac_part s d ip ≡ returned text)
unfolding mac_part
mac_part_total s d ip h =
    let (e, found) = found_entry ip d h in
    elim (Bool-cases s.show_mac) [
      | inl shown ↦ (" (" & e.1 & ")", rw (shown, found) refl)
      | inr hidden ↦ ("", rw hidden refl)
    ]

list_leases_total :
    (s : Style) (d macs : Addresses) (ips : List String) (msg : String)
    → All (IsIn d) ips
    → All (IsIn macs) ips
    → (text : String) × (list_leases s d macs ips msg ≡ returned text)
unfolding list_leases
list_leases_total s d macs [] msg h k = (msg, refl)
list_leases_total s d macs (ip ∷ ips) msg h k =
    let (name, named) = name_part_total s d ip h.0 in
    let (mac, shown) = mac_part_total s macs ip k.0 in
    let (text, rest) = list_leases_total s d macs ips (msg & name & mac & ", ") h.1 k.1 in
    (text, rw (named, shown) rest)

format_leases_total :
    (s : Style) (d : Addresses) → (text : String) × (format_leases s d ≡ returned text)
unfolding format_leases
format_leases_total s d =
    let ips = sorted_keys s d in
    let known = sorted_keys-IsIn s d in
    let (listed, e) = list_leases_total s d d ips (summary s (length ips)) known known in
    elim (Bool-cases (length ips == 0)) [
      | inl empty ↦ ("No dhcp leases recorded", rw empty refl)
      | inr some_left ↦ elim (Bool-cases s.compact_output) [
        | inl compact ↦ (
          summary s (length ips) & " | 'DHCP Leases'=" & show (length ips),
          rw (some_left, compact) refl,
        )
        | inr long ↦ (
          rstrip comma_or_space listed & " | 'DHCP Leases'=" & show (length ips),
          rw (e, some_left, long) refl,
        )
      ]
    ]

All-IsIn :
    (l : Lists) (addresses : Addresses) (ips : List String)
    → All (IsIn (check_unauthorized_leases l addresses)) ips
    → All (IsIn addresses) ips
All-IsIn l addresses [] h = tt
All-IsIn l addresses (ip ∷ ips) h = (
  breaks-has ip (violates l) addresses (sym (check_unauthorized_leases-has l addresses ip) ∙ h.0),
  All-IsIn l addresses ips h.1,
)

format_unauthorized_leases_total :
    (s : Style) (l : Lists) (addresses : Addresses)
    → (text : String) × (format_unauthorized_leases s
          (check_unauthorized_leases l addresses)
          addresses
        ≡ returned text)
unfolding format_unauthorized_leases
format_unauthorized_leases_total s l addresses =
    let unauthorized = check_unauthorized_leases l addresses in
    let ips = sorted_keys s unauthorized in
    let known = sorted_keys-IsIn s unauthorized in
    let (listed, e) =
      list_leases_total s unauthorized addresses ips (headline (length ips)) known
        (All-IsIn l addresses ips known) in
    elim (Bool-cases (length ips == 0)) [
      | inl empty ↦ ("", rw empty refl)
      | inr some_left ↦ (rstrip comma_or_space listed, rw (e, some_left) refl)
    ]

-- `report` always returns, never raises: the status is CRITICAL (2) if some address that was read
-- has an entry that breaks a rule in force, and OK (0) otherwise.
pub report_lem :
    (s : Style) (l : Lists) (leases : List String)
    → (output : String) × (report s l leases
        ≡ returned (if any (λ kv. violates l kv.1) (addresses_of s l leases) then 2 else 0, output))
unfolding report
report_lem s l leases =
    let addresses = addresses_of s l leases in
    let (output, e) = format_leases_total s addresses in
    let (unauthorized_output, u) = format_unauthorized_leases_total s l addresses in
    let reported = check_unauthorized_leases-nil l addresses in
    elim (Bool-cases (any (λ kv. violates l kv.1) addresses)) [
      | inl bad ↦ (unauthorized_output & " || " & output, rw (e, u, reported, bad) refl)
      | inr good ↦ (output, rw (e, reported, good) refl)
    ]

-- A lease whose block has a later line with the text "lease", as in a hostname, that is not made of
-- three words, does not count: the report is the same as without the block, whatever its MAC and
-- hostname and whatever the lists.
pub report-hidden :
    (s : Style) (l : Lists) (xs : List String) (lease : String) (ys : List String)
    → IsHidden lease
    → report s l (xs ++ lease ∷ ys) ≡ report s l (xs ++ ys)
unfolding report addresses_of
report-hidden s l xs lease ys h =
    rw
      (add_leases-hidden (not s.no_name || security_checks_on l)
        (s.show_mac || security_checks_on l) xs lease ys [] h)
      refl
