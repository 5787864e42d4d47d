-- ===== src/Dhcpd/Tests.antt =====
-- Runs of check_dhcpd_leases.py on a file with three leases, and the theorems there.
use mathlib.Core.List.{Perm}
use nagios_plugins.Base.{
  String, true, false, Option, none, some, [], ◌∷◌, ◌≡◌, refl, arith, any, if◌then◌else◌,
}
use nagios_plugins.Base.Dict.{lookup}
use nagios_plugins.Nagios.{returned, exited}
use nagios_plugins.Dhcpd.Leases.{Addresses, is_active, add_leases}
use nagios_plugins.Dhcpd.Leases.Laws.{last_lease, lookup-add_leases}
use nagios_plugins.Dhcpd.Leases.Hidden.{IsHidden}
use nagios_plugins.Dhcpd.Lists.{Lists, check_unauthorized_leases}
use nagios_plugins.Dhcpd.Lists.Laws.{violates, has, breaks, check_unauthorized_leases-has}
use nagios_plugins.Dhcpd.Lists.Dashes.{dashed_whitelist}
use nagios_plugins.Dhcpd.Sorting.{host_of, sort_keys_by_host}
use nagios_plugins.Dhcpd.Sorting.Laws.{IsByHost, sort_keys_by_host_lem}
use nagios_plugins.Dhcpd.Command.Status.{report_lem, report-hidden}
use nagios_plugins.Dhcpd.Format.{Style}
use nagios_plugins.Dhcpd.Command.{Tester, Options, addresses_of, report, main, script}

abbrev contents : String
contents =
    "# dhcpd.leases\nlease 10.0.0.2 {\n  binding state active;\n  hardware ethernet 52:54:00:aa:bb:01;\n  client-hostname \"web\";\n}\nlease 10.0.0.1 {\n  binding state active;\n  hardware ethernet 52:54:00:aa:bb:02;\n  client-hostname \"db\";\n}\nlease 10.0.0.3 {\n  binding state free;\n}\n"

abbrev file : String → Option String
file name = some contents

abbrev style : Style
style = record {
  compact_output = false;
  no_name = false;
  no_summary = false;
  show_mac = false;
  sort_by_ip = false;
}

abbrev tester : Option String → Tester
tester whitelist = record {
  style = style;
  leasefile = some "leases";
  host_whitelist = none;
  host_blacklist = none;
  mac_whitelist = whitelist;
  mac_blacklist = none;
}

abbrev options : Option String → Options
options whitelist = record { tester = tester whitelist; timeout = none; args = []; version = false }

unchecked :
    main "" file (options none)
    ≡ exited 0 "DHCP LEASES: 2 leases - db = 10.0.0.1, web = 10.0.0.2 | 'DHCP Leases'=2"
unfolding script
unchecked = refl

one_unknown :
    main "" file (options (some "52:54:00:AA:BB:01"))
    ≡ exited 2
        "CRITICAL: 1 Unauthorized Host! db = 10.0.0.1 || 2 leases - db = 10.0.0.1, web = 10.0.0.2 | 'DHCP Leases'=2"
unfolding script
one_unknown = refl

dashed_macs :
    main "" file (options (some "52-54-00-aa-bb-01,52-54-00-aa-bb-02"))
    ≡ exited 2
        "CRITICAL: 2 Unauthorized Hosts! db = 10.0.0.1, web = 10.0.0.2 || 2 leases - db = 10.0.0.1, web = 10.0.0.2 | 'DHCP Leases'=2"
unfolding script
dashed_macs = refl

bad_mac :
    main "" file (options (some "52-54"))
    ≡ exited 3 "UNKNOWN: '52-54' was given as a Mac address but is not a valid Mac"
unfolding script
bad_mac = refl

abbrev lists : Lists
lists = record {
  host_whitelist = "";
  host_blacklist = "";
  mac_whitelist = "52-54-00-AA-BB-01" ∷ [];
  mac_blacklist = [];
}

abbrev web_lease : String
web_lease =
    "\nlease 10.0.0.2 {\n  binding state active;\n  hardware ethernet 52:54:00:aa:bb:01;\n  client-hostname \"web\";\n"

abbrev hidden_lease : String
hidden_lease =
    "\nlease 10.0.0.9 {\n  binding state active;\n  hardware ethernet 66:66:66:66:66:66;\n  client-hostname \"lease\";\n"

abbrev web : String × String
web = ("web", "52:54:00:aa:bb:01")

abbrev addresses : Addresses
addresses = ("10.0.0.2", web) ∷ ("10.0.0.1", ("db", "52:54:00:aa:bb:02")) ∷ []

check_unauthorized_leases-has_example :
    has "10.0.0.1" (check_unauthorized_leases lists addresses)
    ≡ breaks "10.0.0.1" (violates lists) addresses
check_unauthorized_leases-has_example = check_unauthorized_leases-has lists addresses "10.0.0.1"

sort_keys_by_host_lem_example :
    Perm (sort_keys_by_host addresses) ("10.0.0.2" ∷ "10.0.0.1" ∷ [])
    × IsByHost (host_of addresses) (sort_keys_by_host addresses)
sort_keys_by_host_lem_example = sort_keys_by_host_lem addresses (refl, (refl, tt))

sorted_by_host : sort_keys_by_host addresses ≡ "10.0.0.1" ∷ "10.0.0.2" ∷ []
unfolding script
sorted_by_host = refl

lookup-add_leases_example :
    lookup "10.0.0.2" (add_leases true true (web_lease ∷ web_lease ∷ []) [])
    ≡ last_lease true true "10.0.0.2" none (web_lease ∷ web_lease ∷ [])
lookup-add_leases_example = lookup-add_leases true true "10.0.0.2" (web_lease ∷ web_lease ∷ []) []

last_lease-web : last_lease true true "10.0.0.2" none (web_lease ∷ web_lease ∷ []) ≡ some web
unfolding script
last_lease-web = refl

report_lem_example :
    (output : String) × (report style lists (web_lease ∷ [])
      ≡ returned (
        if any (λ kv. violates lists kv.1) (addresses_of style lists (web_lease ∷ []))
            then 2
            else 0,
        output,
      ))
report_lem_example = report_lem style lists (web_lease ∷ [])

hidden_lease-IsHidden : IsHidden hidden_lease
unfolding script
hidden_lease-IsHidden = record {
  before =
      "" ∷ "lease 10.0.0.9 {" ∷ "  binding state active;" ∷ "  hardware ethernet 66:66:66:66:66:66;"
      ∷ [];
  line = "  client-hostname \"lease\";";
  after = "" ∷ [];
  lines = refl;
  is_lease_line = refl;
  words = λ h. absurd (omega (arith, h));
  last = (refl, tt);
}

report-hidden_example :
    report style lists (web_lease ∷ hidden_lease ∷ []) ≡ report style lists (web_lease ∷ [])
report-hidden_example =
    report-hidden style lists (web_lease ∷ []) hidden_lease [] hidden_lease-IsHidden

-- The block of the hidden lease is one of an active lease.
hidden_lease-active : is_active hidden_lease ≡ true
unfolding script
hidden_lease-active = refl

dashed_whitelist_example : has "10.0.0.2" (check_unauthorized_leases lists addresses) ≡ true
dashed_whitelist_example =
    dashed_whitelist lists addresses "10.0.0.2" web refl (λ h. cc h, tt) refl refl
