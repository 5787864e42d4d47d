-- ===== src/Dhcpd/Leases/Hidden.antt =====
-- Leases that `parse_leases` of check_dhcpd_leases.py does not see.
use nagios_plugins.Base.{
  String, Bool, true, false, List, [], ◌∷◌, ◌++◌, ◌≡◌, ◌≢◌, refl, ap, ◌∙◌, arith, if◌then◌else◌,
  All, length, Bool-cases, inl, inr,
}
use nagios_plugins.Text.{contains, split, split_on}
use nagios_plugins.Dhcpd.Leases.{
  Addresses, ip_in, last_ip, get_ip, is_ip_address, add_lease, add_leases,
}

ip_in-unknown : (words : List String) → length words ≢ 3 → ip_in words ≡ "UNKNOWN"
ip_in-unknown [] h = refl
ip_in-unknown (a ∷ []) h = refl
ip_in-unknown (a ∷ b ∷ []) h = refl
ip_in-unknown (a ∷ b ∷ c ∷ []) h = absurd (h (omega arith))
ip_in-unknown (a ∷ b ∷ c ∷ d ∷ words) h = refl

last_ip-rest :
    (ip : String) (lines : List String)
    → All (λ l. contains "lease" l ≡ false) lines
    → last_ip ip lines ≡ ip
last_ip-rest ip [] h = refl
last_ip-rest ip (line ∷ lines) h = rw h.0 (last_ip-rest ip lines h.1)

-- A block in which the last line with the text "lease" is not made of three words, as when a
-- hostname contains that text.
pub record IsHidden (lease : String) : Type 0 where
  pub before : List String
  pub line : String
  pub after : List String
  pub lines : split_on b'\n' lease ≡ before ++ line ∷ after
  pub is_lease_line : contains "lease" line ≡ true
  pub words : length (split line) ≢ 3
  pub last : All (λ l. contains "lease" l ≡ false) after

last_ip-hidden :
    (ip : String) (before : List String) (line : String) (after : List String)
    → contains "lease" line ≡ true
    → length (split line) ≢ 3
    → All (λ l. contains "lease" l ≡ false) after
    → last_ip ip (before ++ line ∷ after) ≡ "UNKNOWN"
last_ip-hidden ip [] line after found words last =
    ap (λ b. last_ip (if b then ip_in (split line) else ip) after) found
    ∙ ap (λ w. last_ip w after) (ip_in-unknown (split line) words)
    ∙ last_ip-rest "UNKNOWN" after last
last_ip-hidden ip (l ∷ before) line after found words last =
    last_ip-hidden (if contains "lease" l then ip_in (split l) else ip) before line after found
      words last

get_ip-hidden : (lease : String) → IsHidden lease → get_ip (split_on b'\n' lease) ≡ "UNKNOWN"
unfolding get_ip
get_ip-hidden lease h =
    let unknown = last_ip-hidden "" h.before h.line h.after h.is_lease_line h.words h.last in
    elim (Bool-cases (is_ip_address "UNKNOWN")) [
      | inl is_ip ↦ rw (h.lines, unknown, is_ip) refl
      | inr no_ip ↦ rw (h.lines, unknown, no_ip) refl
    ]

add_lease-hidden :
    (names macs : Bool) (lease : String) (d : Addresses)
    → IsHidden lease
    → add_lease names macs lease d ≡ d
unfolding add_lease
add_lease-hidden names macs lease d h = rw (get_ip-hidden lease h) (ground arith)

-- Such a block has no effect, whether or not its lease is active.
pub add_leases-hidden :
    (names macs : Bool) (xs : List String) (lease : String) (ys : List String) (d : Addresses)
    → IsHidden lease
    → add_leases names macs (xs ++ lease ∷ ys) d ≡ add_leases names macs (xs ++ ys) d
unfolding add_leases
add_leases-hidden names macs [] lease ys d h =
    ap (λ e. add_leases names macs ys e) (add_lease-hidden names macs lease d h)
add_leases-hidden names macs (x ∷ xs) lease ys d h =
    add_leases-hidden names macs xs lease ys (add_lease names macs x d) h
