-- ===== src/Dhcpd/Lists/Laws.antt =====
-- Which addresses the checks of check_dhcpd_leases.py report.
use nagios_plugins.Base.{
  String, Bool, true, false, not, ◌&&◌, ◌||◌, Option, none, some, [], ◌∷◌, ◌≡◌, refl, sym, ◌∙◌, ap,
  arith, str_eq, eq_iff, any, Bool-cases, inl, inr,
}
use nagios_plugins.Base.Dict.{lookup, insert, lookup-insert}
use nagios_plugins.Text.{upper, is_empty}
use nagios_plugins.Dhcpd.Leases.{Addresses}
use nagios_plugins.Dhcpd.Lists.{
  Lists, normalize_mac, hosts_of, mem, is_nil, add_offenders, unchanged, with_normal_mac, check_if,
  check_mac_whitelist, check_mac_blacklist, check_host_whitelist, check_host_blacklist,
  check_unauthorized_leases,
}

-- An independent account: whether an entry breaks one of the rules that are in force.
abbrev pub off_mac_whitelist : Lists → String × String → Bool
off_mac_whitelist l e =
    not (is_nil l.mac_whitelist) && not (mem (normalize_mac e.1) l.mac_whitelist)

abbrev pub on_mac_blacklist : Lists → String × String → Bool
on_mac_blacklist l e = not (is_nil l.mac_blacklist) && mem (normalize_mac e.1) l.mac_blacklist

abbrev pub off_host_whitelist : Lists → String × String → Bool
off_host_whitelist l e =
    not (is_empty l.host_whitelist) && not (mem (upper e.0) (hosts_of l.host_whitelist))

abbrev pub on_host_blacklist : Lists → String × String → Bool
on_host_blacklist l e =
    not (is_empty l.host_blacklist) && mem (upper e.0) (hosts_of l.host_blacklist)

abbrev pub violates : Lists → String × String → Bool
violates l e =
    off_mac_whitelist l e || on_mac_blacklist l e || off_host_whitelist l e || on_host_blacklist l e

abbrev is_some : Option (String × String) → Bool
is_some none = false
is_some (some e) = true

abbrev pub has : String → Addresses → Bool
has ip d = is_some (lookup ip d)

has-insert :
    (k ip : String) (e : String × String) (d : Addresses)
    → has ip (insert k e d) ≡ str_eq k ip || has ip d
has-insert k ip e d = elim (Bool-cases (str_eq k ip)) [
  | inl same ↦ rw (lookup-insert k ip e d, same) refl
  | inr other ↦ rw (lookup-insert k ip e d, other) refl
]

module _ (ip : String) where
  -- some entry for the address of which the test holds
  abbrev pub breaks : (String × String → Bool) → Addresses → Bool
  breaks test d = any (λ kv. str_eq kv.0 ip && test kv.1) d

  add_offenders-has :
      (test : String × String → Bool) (change : String × String → String × String)
      (addresses d : Addresses)
      → has ip (add_offenders test change addresses d) ≡ has ip d || breaks test addresses
  unfolding add_offenders
  add_offenders-has test change [] d = ground arith
  add_offenders-has test change ((k, e) ∷ addresses) d = elim (Bool-cases (test e)) [
    | inl bad ↦
        let rest = add_offenders-has test change addresses (insert k (change e) d) in
        rw bad (rest ∙ rw (has-insert k ip (change e) d) (ground arith))
    | inr good ↦
        let rest = add_offenders-has test change addresses d in rw good (rest ∙ ground arith)
  ]

  breaks-none : (addresses : Addresses) → breaks (λ e. false) addresses ≡ false
  breaks-none [] = refl
  breaks-none ((k, e) ∷ addresses) = let rest = breaks-none addresses in ground arith

  check_if-has :
      (b : Bool) (test : String × String → Bool) (change : String × String → String × String)
      (addresses d : Addresses)
      → has ip (check_if b (add_offenders test change addresses) d)
        ≡ has ip d || breaks (λ e. b && test e) addresses
  check_if-has true test change addresses d = add_offenders-has test change addresses d
  check_if-has false test change addresses d =
      let none_breaks = breaks-none addresses in ground arith

  breaks-or :
      (p q : String × String → Bool) (addresses : Addresses)
      → breaks p addresses || breaks q addresses ≡ breaks (λ e. p e || q e) addresses
  breaks-or p q [] = refl
  breaks-or p q ((k, e) ∷ addresses) = let rest = breaks-or p q addresses in ground arith

  pub breaks-any :
      (test : String × String → Bool) (addresses : Addresses)
      → breaks test addresses ≡ true
      → any (λ kv. test kv.1) addresses ≡ true
  breaks-any test [] h = h
  breaks-any test ((k, e) ∷ addresses) h = let rest = breaks-any test addresses in ground arith

  pub breaks-has :
      (test : String × String → Bool) (addresses : Addresses)
      → breaks test addresses ≡ true
      → has ip addresses ≡ true
  breaks-has test [] h = absurd (cc)
  breaks-has test ((k, e) ∷ addresses) h = let rest = breaks-has test addresses in ground arith

any-breaks :
    (test : String × String → Bool) (addresses : Addresses)
    → any (λ kv. test kv.1) addresses ≡ true
    → (ip : String) × (breaks ip test addresses ≡ true)
any-breaks test [] h = absurd (cc)
any-breaks test ((k, e) ∷ addresses) h = elim (Bool-cases (test e)) [
  | inl bad ↦ (k, rw ((eq_iff k k).1 refl, bad) refl)
  | inr good ↦
      let (ip, found) = any-breaks test addresses (rw good at h) in
      (ip, rw (found, good) (ground arith))
]

-- An address is reported as unauthorized exactly if the leases give it an entry that breaks a rule
-- in force: its MAC is not on a whitelist or is on the blacklist, or its hostname, without regard
-- to case, is.
pub check_unauthorized_leases-has :
    (l : Lists) (addresses : Addresses) (ip : String)
    → has ip (check_unauthorized_leases l addresses) ≡ breaks ip (violates l) addresses
unfolding check_unauthorized_leases check_mac_whitelist check_mac_blacklist check_host_whitelist
    check_host_blacklist
check_unauthorized_leases-has l addresses ip =
    let B = λ (test : Lists → String × String → Bool). breaks ip (test l) addresses in
    let d₁ = check_if (not (is_nil l.mac_whitelist)) (check_mac_whitelist l addresses) [] in
    let d₂ = check_if (not (is_nil l.mac_blacklist)) (check_mac_blacklist l addresses) d₁ in
    let d₃ = check_if (not (is_empty l.host_whitelist)) (check_host_whitelist l addresses) d₂ in
    let e₁ =
      check_if-has ip (not (is_nil l.mac_whitelist))
        (λ e. not (mem (normalize_mac e.1) l.mac_whitelist)) with_normal_mac addresses [] in
    let e₂ =
      check_if-has ip (not (is_nil l.mac_blacklist)) (λ e. mem (normalize_mac e.1) l.mac_blacklist)
        with_normal_mac addresses d₁ in
    let e₃ =
      check_if-has ip (not (is_empty l.host_whitelist))
        (λ e. not (mem (upper e.0) (hosts_of l.host_whitelist))) unchanged addresses d₂ in
    let e₄ =
      check_if-has ip (not (is_empty l.host_blacklist))
        (λ e. mem (upper e.0) (hosts_of l.host_blacklist)) unchanged addresses d₃ in
    e₄
    ∙ ap (λ b. b || B on_host_blacklist)
        (e₃ ∙ ap (λ b. b || B off_host_whitelist) (e₂ ∙ ap (λ b. b || B on_mac_blacklist) e₁))
    ∙ ap (λ b. b || B off_host_whitelist || B on_host_blacklist)
        (breaks-or ip (off_mac_whitelist l) (on_mac_blacklist l) addresses)
    ∙ ap (λ b. b || B on_host_blacklist)
        (breaks-or ip (λ e. off_mac_whitelist l e || on_mac_blacklist l e) (off_host_whitelist l)
          addresses)
    ∙ breaks-or ip (λ e. off_mac_whitelist l e || on_mac_blacklist l e || off_host_whitelist l e)
        (on_host_blacklist l) addresses

reported :
    (l : Lists) (addresses d : Addresses)
    → check_unauthorized_leases l addresses ≡ d
    → is_nil d ≡ not (any (λ kv. violates l kv.1) addresses)
reported l addresses [] h = elim (Bool-cases (any (λ kv. violates l kv.1) addresses)) [
  | inl bad ↦
      let (ip, found) = any-breaks (violates l) addresses bad in
      absurd (cc (check_unauthorized_leases-has l addresses ip, h, found))
  | inr good ↦ rw good refl
]
reported l addresses ((k, e) ∷ d) h =
    let found : has k ((k, e) ∷ d) ≡ true = rw ((eq_iff k k).1 refl) refl in
    let bad =
      breaks-any k (violates l) addresses
        (sym (check_unauthorized_leases-has l addresses k) ∙ ap (has k) h ∙ found) in
    rw bad refl

-- Nothing is reported exactly if no entry breaks a rule.
pub check_unauthorized_leases-nil :
    (l : Lists) (addresses : Addresses)
    → is_nil (check_unauthorized_leases l addresses) ≡ not (any (λ kv. violates l kv.1) addresses)
check_unauthorized_leases-nil l addresses =
    reported l addresses (check_unauthorized_leases l addresses) refl
