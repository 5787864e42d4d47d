-- ===== src/Dhcpd/Lists/Dashes.antt =====
-- MACs with dashes in the lists of check_dhcpd_leases.py.
use nagios_plugins.Base.{
  ℕ, code, String, Bool, true, false, some, List, [], ◌∷◌, ◌==◌, ◌≡◌, ◌≢◌, refl, ◌∙◌, arith, str_eq,
  eq_iff, All, Bool-cases, inl, inr,
}
use Prim.Native.String.{[], ◌∷◌}
use nagios_plugins.Base.Dict.{lookup}
use nagios_plugins.Text.{replace}
use nagios_plugins.Text.Occurrences.{occurrences, occurrences-append, Lacks, upper-Lacks}
use nagios_plugins.Dhcpd.Leases.{Addresses}
use nagios_plugins.Dhcpd.Lists.{Lists, normalize_mac, is_nil, mem, check_unauthorized_leases}
use nagios_plugins.Dhcpd.Lists.Laws.{violates, has, breaks, check_unauthorized_leases-has}

abbrev pub is_dash : ℕ → Bool
is_dash c = c == b'-'

replace-Lacks : (s : String) → Lacks is_dash s → Lacks is_dash (replace b':' "" s)
unfolding replace
replace-Lacks [] h = refl
replace-Lacks (c ∷ s) h =
    let rest = replace-Lacks s in
    let glued = occurrences-append is_dash "" (replace b':' "" s) in
    elim (Bool-cases (code c == b':')) [
      | inl colon ↦ rw colon (ground arith)
      | inr other ↦ rw other (ground arith)
    ]

normalize_mac-Lacks : (mac : String) → Lacks is_dash mac → Lacks is_dash (normalize_mac mac)
unfolding normalize_mac
normalize_mac-Lacks mac h = upper-Lacks is_dash (replace b':' "" mac) refl (replace-Lacks mac h)

-- an entry with a dash
abbrev pub IsDashed : String → Type 0
IsDashed mac = occurrences is_dash mac ≢ 0

dashed-mem :
    (mac : String) (macs : List String)
    → Lacks is_dash mac
    → All IsDashed macs
    → mem mac macs ≡ false
dashed-mem mac [] h k = refl
dashed-mem mac (m ∷ macs) h k = elim (Bool-cases (str_eq mac m)) [
  | inl same ↦ absurd (k.0 (rw (← (eq_iff mac m).0 same) h))
  | inr other ↦ rw other (dashed-mem mac macs h k.1)
]

some_eq : (e f : String × String) → some e ≡ some f → e ≡ f
some_eq e f h = cc

breaks-lookup :
    (test : String × String → Bool) (ip : String) (e : String × String) (addresses : Addresses)
    → test e ≡ true
    → lookup ip addresses ≡ some e
    → breaks ip test addresses ≡ true
breaks-lookup test ip e [] h k = absurd (cc)
breaks-lookup test ip e ((j, f) ∷ addresses) h k = elim (Bool-cases (str_eq j ip)) [
  | inl same ↦ let f_is = some_eq f e (rw same at k) in rw (same, f_is, h) refl
  | inr other ↦ rw other (breaks-lookup test ip e addresses h (rw other at k))
]

-- When every MAC on the whitelist is written with dashes, and there is one, every lease whose MAC
-- has no dash is reported as unauthorized, also one with the same hexadecimal digits.
pub dashed_whitelist :
    (l : Lists) (addresses : Addresses) (ip : String) (e : String × String)
    → is_nil l.mac_whitelist ≡ false
    → All IsDashed l.mac_whitelist
    → lookup ip addresses ≡ some e
    → Lacks is_dash e.1
    → has ip (check_unauthorized_leases l addresses) ≡ true
dashed_whitelist l addresses ip e some_macs dashed found lacks =
    check_unauthorized_leases-has l addresses ip
    ∙ breaks-lookup (violates l) ip e addresses
        (rw
          (
            dashed-mem (normalize_mac e.1) l.mac_whitelist (normalize_mac-Lacks e.1 lacks) dashed,
            some_macs,
          )
          refl)
        found
