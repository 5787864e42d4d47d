-- ===== src/Dhcpd/Leases/Laws.antt =====
-- What `parse_leases` of check_dhcpd_leases.py keeps of the lease file.
use nagios_plugins.Base.{
  String, Bool, not, ◌&&◌, ◌||◌, Option, some, List, [], ◌∷◌, ◌≡◌, refl, ap, ◌∙◌, arith, str_eq,
  eq_iff, if◌then◌else◌, Bool-cases, inl, inr,
}
use nagios_plugins.Base.Dict.{lookup, insert, keys, lookup-insert}
use nagios_plugins.Text.{split_on}
use nagios_plugins.Text.Distinct.{mem, IsDistinct}
use nagios_plugins.Dhcpd.Leases.{Addresses, is_active, get_ip, entry_of, add_lease, add_leases}

mem-insert :
    (s k : String) (e : String × String) (d : Addresses)
    → mem s (keys (insert k e d)) ≡ mem s (keys d) || str_eq s k
mem-insert s k e [] = ground arith
mem-insert s k e ((j, f) ∷ d) = elim (Bool-cases (str_eq j k)) [
  | inl same ↦ let j_is = (eq_iff j k).0 same in rw (same, j_is) (ground arith)
  | inr other ↦ rw other (let rest = mem-insert s k e d in ground arith)
]

insert-IsDistinct :
    (k : String) (e : String × String) (d : Addresses)
    → IsDistinct (keys d)
    → IsDistinct (keys (insert k e d))
insert-IsDistinct k e [] h = (refl, tt)
insert-IsDistinct k e ((j, f) ∷ d) h = elim (Bool-cases (str_eq j k)) [
  | inl same ↦ rw same h
  | inr other ↦ rw other (rw (mem-insert j k e d, h.0, other) refl, insert-IsDistinct k e d h.1)
]

module _ (names macs : Bool) where
  add_lease-IsDistinct :
      (lease : String) (d : Addresses)
      → IsDistinct (keys d)
      → IsDistinct (keys (add_lease names macs lease d))
  unfolding add_lease
  add_lease-IsDistinct lease d h =
      let lines = split_on b'\n' lease in
      elim (Bool-cases (is_active lease && not (str_eq (get_ip lines) "UNKNOWN"))) [
        | inl kept ↦ rw kept (insert-IsDistinct (get_ip lines) (entry_of names macs lines) d h)
        | inr skipped ↦ rw skipped h
      ]

  -- No address stands twice in the dictionary.
  pub add_leases-IsDistinct :
      (leases : List String) (d : Addresses)
      → IsDistinct (keys d)
      → IsDistinct (keys (add_leases names macs leases d))
  unfolding add_leases
  add_leases-IsDistinct [] d h = h
  add_leases-IsDistinct (lease ∷ leases) d h =
      add_leases-IsDistinct leases (add_lease names macs lease d) (add_lease-IsDistinct lease d h)

  -- whether a block is an active lease for the address
  abbrev pub is_for : String → String → Bool
  is_for ip lease =
      is_active lease
      && not (str_eq (get_ip (split_on b'\n' lease)) "UNKNOWN")
      && str_eq (get_ip (split_on b'\n' lease)) ip

  -- An independent account: the last active lease for an address, if there is one.
  abbrev pub last_lease : String → Option (String × String) → List String → Option (String × String)
  last_lease ip o [] = o
  last_lease ip o (lease ∷ leases) =
      last_lease ip
        (if is_for ip lease then some (entry_of names macs (split_on b'\n' lease)) else o) leases

  lookup-add_lease :
      (ip lease : String) (d : Addresses)
      → lookup ip (add_lease names macs lease d) ≡ (
          if is_for ip lease
          then some (entry_of names macs (split_on b'\n' lease))
          else lookup ip d)
  unfolding add_lease
  lookup-add_lease ip lease d =
      let lines = split_on b'\n' lease in
      elim (Bool-cases (is_active lease && not (str_eq (get_ip lines) "UNKNOWN"))) [
        | inl kept ↦ rw kept (lookup-insert (get_ip lines) ip (entry_of names macs lines) d)
        | inr skipped ↦ rw skipped refl
      ]

  -- After the loop an address has the entry of its last active lease in the file, and else the one
  -- that it had before.
  pub lookup-add_leases :
      (ip : String) (leases : List String) (d : Addresses)
      → lookup ip (add_leases names macs leases d) ≡ last_lease ip (lookup ip d) leases
  unfolding add_leases
  lookup-add_leases ip [] d = refl
  lookup-add_leases ip (lease ∷ leases) d =
      lookup-add_leases ip leases (add_lease names macs lease d)
      ∙ ap (λ o. last_lease ip o leases) (lookup-add_lease ip lease d)
