-- ===== src/Dhcpd/Sorting/Laws.antt =====
-- The order in which check_dhcpd_leases.py lists its leases.
use mathlib.Core.List.{Perm, append-nil, append_assoc}
use nagios_plugins.Base.{
  String, Bool, true, false, not, List, [], ◌∷◌, ◌++◌, ◌≡◌, ◌&&◌, refl, sym, ap, ◌∙◌, arith, str_eq,
  eq_iff, if◌then◌else◌, any, map, All, Bool-cases, inl, inr,
}
use nagios_plugins.Base.Dict.{keys}
use nagios_plugins.Text.{str_leb}
use nagios_plugins.Text.Sort.{sort, str_leb_refl, sort-All, sort-IsAscending, IsAscending, any-sort}
use nagios_plugins.Text.Distinct.{mem, IsDistinct, any-append, perm_of_same_members}
use nagios_plugins.Dhcpd.Leases.{Addresses}
use nagios_plugins.Dhcpd.Sorting.{host_of, keys_with, keys_by_host, dedup, sort_keys_by_host}

-- `dedup`, without its accumulator
abbrev fresh : (kept : List String) → List String → List String
fresh kept [] = []
fresh kept (key ∷ ks) =
    if any (str_eq key) kept then fresh kept ks else key ∷ fresh (kept ++ key ∷ []) ks

module _ (P : String → Type 0) where
  All-append : (xs ys : List String) → All P xs → All P ys → All P (xs ++ ys)
  All-append [] ys h k = k
  All-append (x ∷ xs) ys h k = (h.0, All-append xs ys h.1 k)

  keys_with-All :
      (host : String → String) (h : String) (ks : List String)
      → All P ks
      → All P (keys_with host h ks)
  keys_with-All host h [] k = tt
  keys_with-All host h (key ∷ ks) k = elim (Bool-cases (str_eq (host key) h)) [
    | inl same ↦ rw same (k.0, keys_with-All host h ks k.1)
    | inr other ↦ rw other (keys_with-All host h ks k.1)
  ]

  keys_by_host-All :
      (host : String → String) (hosts ks : List String)
      → All P ks
      → All P (keys_by_host host hosts ks)
  keys_by_host-All host [] ks k = tt
  keys_by_host-All host (h ∷ hosts) ks k =
      All-append (keys_with host h ks) (keys_by_host host hosts ks) (keys_with-All host h ks k)
        (keys_by_host-All host hosts ks k)

  dedup-All : (kept ks : List String) → All P kept → All P ks → All P (dedup kept ks)
  dedup-All kept [] h k = h
  dedup-All kept (key ∷ ks) h k = elim (Bool-cases (any (str_eq key) kept)) [
    | inl old ↦ rw old (dedup-All kept ks h k.1)
    | inr new ↦
        rw new (dedup-All (kept ++ key ∷ []) ks (All-append kept (key ∷ []) h (k.0, tt)) k.1)
  ]

  -- What holds of all keys holds of all keys in the list.
  pub sort_keys_by_host-All : (d : Addresses) → All P (keys d) → All P (sort_keys_by_host d)
  unfolding sort_keys_by_host
  sort_keys_by_host-All d h =
      let ks = sort (keys d) in
      dedup-All [] (keys_by_host (host_of d) (sort (map (host_of d) ks)) ks) tt
        (keys_by_host-All (host_of d) (sort (map (host_of d) ks)) ks (sort-All P (keys d) h))

-- Every key of the result has the host `h`.
keys_with-host :
    (host : String → String) (h : String) (ks : List String)
    → All (λ k. host k ≡ h) (keys_with host h ks)
keys_with-host host h [] = tt
keys_with-host host h (key ∷ ks) = elim (Bool-cases (str_eq (host key) h)) [
  | inl same ↦ rw same ((eq_iff (host key) h).0 same, keys_with-host host h ks)
  | inr other ↦ rw other (keys_with-host host h ks)
]

module _ (host : String → String) where
  -- the hosts of the keys ascend
  abbrev pub IsByHost : List String → Type 0
  IsByHost [] = Unit
  IsByHost (k ∷ ks) = All (λ j. str_leb (host k) (host j) ≡ true) ks × IsByHost ks

  same-below :
      (s h : String) (ks : List String)
      → str_leb s h ≡ true
      → All (λ k. host k ≡ h) ks
      → All (λ k. str_leb s (host k) ≡ true) ks
  same-below s h [] e hosts = tt
  same-below s h (k ∷ ks) e hosts = (rw (hosts.0) e, same-below s h ks e hosts.1)

  keys_by_host-below :
      (s : String) (hosts ks : List String)
      → All (λ h. str_leb s h ≡ true) hosts
      → All (λ k. str_leb s (host k) ≡ true) (keys_by_host host hosts ks)
  keys_by_host-below s [] ks h = tt
  keys_by_host-below s (x ∷ hosts) ks h =
      All-append (λ k. str_leb s (host k) ≡ true) (keys_with host x ks) (keys_by_host host hosts ks)
        (same-below s x (keys_with host x ks) h.0 (keys_with-host host x ks))
        (keys_by_host-below s hosts ks h.1)

  IsByHost-append :
      (h : String) (xs ys : List String)
      → All (λ k. host k ≡ h) xs
      → All (λ k. str_leb h (host k) ≡ true) ys
      → IsByHost ys
      → IsByHost (xs ++ ys)
  IsByHost-append h [] ys same above sorted = sorted
  IsByHost-append h (x ∷ xs) ys same above sorted = (
    All-append (λ j. str_leb (host x) (host j) ≡ true) xs ys
        (same-below (host x) h xs (rw same.0 (str_leb_refl h)) same.1) (rw same.0 above),
    IsByHost-append h xs ys same.1 above sorted,
  )

  keys_by_host-IsByHost :
      (hosts ks : List String) → IsAscending hosts → IsByHost (keys_by_host host hosts ks)
  keys_by_host-IsByHost [] ks h = tt
  keys_by_host-IsByHost (x ∷ hosts) ks h =
      IsByHost-append x (keys_with host x ks) (keys_by_host host hosts ks)
        (keys_with-host host x ks) (keys_by_host-below x hosts ks h.0)
        (keys_by_host-IsByHost hosts ks h.1)

  fresh-All : (P : String → Type 0) (kept ks : List String) → All P ks → All P (fresh kept ks)
  fresh-All P kept [] h = tt
  fresh-All P kept (key ∷ ks) h = elim (Bool-cases (any (str_eq key) kept)) [
    | inl old ↦ rw old (fresh-All P kept ks h.1)
    | inr new ↦ rw new (h.0, fresh-All P (kept ++ key ∷ []) ks h.1)
  ]

  fresh-IsByHost : (kept ks : List String) → IsByHost ks → IsByHost (fresh kept ks)
  fresh-IsByHost kept [] h = tt
  fresh-IsByHost kept (key ∷ ks) h = elim (Bool-cases (any (str_eq key) kept)) [
    | inl old ↦ rw old (fresh-IsByHost kept ks h.1)
    | inr new ↦ rw new (
      fresh-All (λ j. str_leb (host key) (host j) ≡ true) (kept ++ key ∷ []) ks h.0,
      fresh-IsByHost (kept ++ key ∷ []) ks h.1,
    )
  ]

  mem-keys_with :
      (k h : String) (ks : List String)
      → mem k (keys_with host h ks) ≡ mem k ks && str_eq (host k) h
  mem-keys_with k h [] = refl
  mem-keys_with k h (key ∷ ks) = let rest = mem-keys_with k h ks in ground (arith, eq_iff k key)

  mem-keys_by_host :
      (k : String) (hosts ks : List String)
      → mem k (keys_by_host host hosts ks) ≡ mem k ks && mem (host k) hosts
  mem-keys_by_host k [] ks = ground arith
  mem-keys_by_host k (h ∷ hosts) ks =
      any-append (str_eq k) (keys_with host h ks) (keys_by_host host hosts ks)
      ∙ rw (mem-keys_with k h ks, mem-keys_by_host k hosts ks) (ground arith)

  mem-map-host :
      (k : String) (ks : List String) → mem k ks ≡ true → mem (host k) (map host ks) ≡ true
  mem-map-host k [] h = h
  mem-map-host k (key ∷ ks) h = elim (Bool-cases (str_eq k key)) [
    | inl same ↦
        let e : host k ≡ host key = ap host ((eq_iff k key).0 same) in
        rw ((eq_iff (host k) (host key)).1 e) refl
    | inr other ↦ rw (mem-map-host k ks (rw other at h)) (ground arith)
  ]

dedup-fresh : (kept ks : List String) → dedup kept ks ≡ kept ++ fresh kept ks
dedup-fresh kept [] = sym (append-nil kept)
dedup-fresh kept (key ∷ ks) = elim (Bool-cases (any (str_eq key) kept)) [
  | inl old ↦ rw old (dedup-fresh kept ks)
  | inr new ↦ rw new (
      dedup-fresh (kept ++ key ∷ []) ks
      ∙ append_assoc kept (key ∷ []) (fresh (kept ++ key ∷ []) ks))
]

mem-fresh :
    (k : String) (kept ks : List String) → mem k (fresh kept ks) ≡ mem k ks && not (mem k kept)
mem-fresh k kept [] = refl
mem-fresh k kept (key ∷ ks) = elim (Bool-cases (mem key kept)) [
  | inl old ↦ let rest = mem-fresh k kept ks in rw old (ground (arith, eq_iff k key))
  | inr new ↦
      let rest = mem-fresh k (kept ++ key ∷ []) ks in
      let both = any-append (str_eq k) kept (key ∷ []) in rw new (ground (arith, eq_iff k key))
]

fresh-IsDistinct : (kept ks : List String) → IsDistinct (fresh kept ks)
fresh-IsDistinct kept [] = tt
fresh-IsDistinct kept (key ∷ ks) = elim (Bool-cases (mem key kept)) [
  | inl old ↦ rw old (fresh-IsDistinct kept ks)
  | inr new ↦
      let both = any-append (str_eq key) kept (key ∷ []) in
      let there = mem-fresh key (kept ++ key ∷ []) ks in
      rw new (ground (arith, (eq_iff key key).1 refl), fresh-IsDistinct (kept ++ key ∷ []) ks)
]

both_true : (a b c : Bool) → (a ≡ true → b ≡ true) → a && b && not false ≡ a
both_true true b c h = rw (h refl) refl
both_true false b c h = refl

mem-sorted : (d : Addresses) (k : String) → mem k (sort_keys_by_host d) ≡ mem k (keys d)
unfolding sort_keys_by_host
mem-sorted d k =
    let ks = sort (keys d) in
    let hosts = map (host_of d) ks in
    let flat = keys_by_host (host_of d) (sort hosts) ks in
    ap (mem k) (dedup-fresh [] flat)
    ∙ mem-fresh k [] flat
    ∙ ap (λ b. b && true) (mem-keys_by_host (host_of d) k (sort hosts) ks)
    ∙ both_true (mem k ks) (mem (host_of d k) (sort hosts)) true
        (λ m. any-sort (str_eq (host_of d k)) hosts ∙ mem-map-host (host_of d) k ks m)
    ∙ any-sort (str_eq k) (keys d)

-- For a dictionary, in which no key stands twice, `sort_keys_by_host` gives each key exactly once,
-- and the hosts of the keys ascend.
pub sort_keys_by_host_lem :
    (d : Addresses)
    → IsDistinct (keys d)
    → Perm (sort_keys_by_host d) (keys d) × IsByHost (host_of d) (sort_keys_by_host d)
unfolding sort_keys_by_host
sort_keys_by_host_lem d h =
    let ks = sort (keys d) in
    let hosts = sort (map (host_of d) ks) in
    let flat = keys_by_host (host_of d) hosts ks in
    let distinct : IsDistinct (sort_keys_by_host d) =
      rw (dedup-fresh [] flat) (fresh-IsDistinct [] flat) in
    let sorted : IsByHost (host_of d) (sort_keys_by_host d) = rw (dedup-fresh [] flat) (
      fresh-IsByHost (host_of d) [] flat
        (keys_by_host-IsByHost (host_of d) hosts ks (sort-IsAscending (map (host_of d) ks)))) in
    (perm_of_same_members (sort_keys_by_host d) (keys d) distinct h (mem-sorted d), sorted)
