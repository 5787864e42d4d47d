-- ===== src/Hbase/Count.antt =====
-- What check_hbase_table_region_balance.py counts.
use nagios_plugins.Base.{
  ℕ, zero, suc, ◌+◌, String, Option, none, some, List, [], ◌∷◌, ◌++◌, map, ◌≡◌, refl, sym, ap, ◌∙◌,
  arith, All, str_eq, eq_iff, if◌then◌else◌, Bool-cases, inl, inr,
}
use nagios_plugins.Base.Dict.{Dict, lookup, insert, lookup-insert}
use nagios_plugins.Nagios.{returned}
use nagios_plugins.Hbase.{
  World, regions_are, regions_on, count_regions, process_table, process_tables,
}

-- An independent account: how many of the regions a server has, from the names of their servers.
abbrev pub hosted : String → List String → ℕ
hosted server [] = 0
hosted server (name ∷ names) =
    if str_eq name server then suc (hosted server names) else hosted server names

abbrev pub tally : ℕ → Option ℕ
tally zero = none
tally (suc n) = some (suc n)

-- no key twice
abbrev pub IsDict : Dict ℕ → Type 0
IsDict [] = Unit
IsDict ((k, v) ∷ d) = (lookup k d ≡ none) × IsDict d

insert-IsDict : (k : String) (v : ℕ) (d : Dict ℕ) → IsDict d → IsDict (insert k v d)
insert-IsDict k v [] h = (refl, tt)
insert-IsDict k v ((j, u) ∷ d) h = elim (Bool-cases (str_eq j k)) [
  | inl same ↦ rw same h
  | inr other ↦
      let rest = insert-IsDict k v d h.1 in
      let found = lookup-insert k j v d in
      rw other (ground (arith, eq_iff j k, eq_iff k j, found, h.0), rest)
]

-- The dict has the counts that `f` gives, and no server twice.
abbrev pub Holds : Dict ℕ → (String → ℕ) → Type 0
Holds counts f = IsDict counts × ((server : String) → lookup server counts ≡ tally (f server))

abbrev pub plus : (String → ℕ) → List String → String → ℕ
plus f names server = f server + hosted server names

regions_on-tally : (n : ℕ) → regions_on (tally n) ≡ n
regions_on-tally n = ground arith

tally-suc : (n : ℕ) → tally (n + 1) ≡ some (n + 1)
tally-suc n = ground arith

count_one :
    (name : String) (counts : Dict ℕ) (f : String → ℕ)
    → Holds counts f
    → Holds (insert name (regions_on (lookup name counts) + 1) counts) (plus f (name ∷ []))
count_one name counts f (dict, holds) = (
  insert-IsDict name (regions_on (lookup name counts) + 1) counts dict,
  λ server.
      let found = lookup-insert name server (regions_on (lookup name counts) + 1) counts in
      let before = ap regions_on (holds name) ∙ regions_on-tally (f name) in
      found ∙ elim (Bool-cases (str_eq name server)) [
        | inl same ↦
            let names = (eq_iff name server).0 same in
            rw (same, before, names) (sym (tally-suc (f server)))
        | inr other ↦
            let unchanged : f server + 0 ≡ f server = omega arith in
            rw (other, unchanged) (holds server)
      ],
)

pub Holds-same :
    (counts : Dict ℕ) (f g : String → ℕ)
    → ((server : String) → f server ≡ g server)
    → Holds counts f
    → Holds counts g
Holds-same counts f g same (dict, holds) = (dict, λ server. holds server ∙ ap tally (same server))

plus-append :
    (f : String → ℕ) (xs ys : List String) (server : String)
    → plus (plus f xs) ys server ≡ plus f (xs ++ ys) server
plus-append f [] ys server = omega arith
plus-append f (x ∷ xs) ys server = let rest = plus-append f xs ys server in ground arith

module _ (w : World) where
  count_all :
      (names : List String) (counts : Dict ℕ) (f : String → ℕ)
      → Holds counts f
      → (counts' : Dict ℕ) × (count_regions w (map some names) counts ≡ returned counts')
        × Holds counts' (plus f names)
  unfolding count_regions
  count_all [] counts f holds =
      (counts, refl, Holds-same counts f (plus f []) (λ server. omega arith) holds)
  count_all (name ∷ names) counts f holds =
      let (counts', ran, rest) =
        count_all names (insert name (regions_on (lookup name counts) + 1) counts)
          (plus f (name ∷ [])) (count_one name counts f holds) in
      (counts', ran, Holds-same counts' _ _ (plus-append f (name ∷ []) names) rest)

  module _ (servers : String → List String) where
    -- The table has regions, on these servers.
    abbrev pub HasRegions : (table : String) → Type 0
    HasRegions table =
        (name : String) × (names : List String) × (servers table ≡ name ∷ names)
        × (w.regions table ≡ regions_are (some name ∷ map some names))

    process_one :
        (table : String) (counts : Dict ℕ) (f : String → ℕ)
        → HasRegions table
        → Holds counts f
        → (counts' : Dict ℕ) × (process_table w table counts ≡ returned counts')
          × Holds counts' (plus f (servers table))
    unfolding process_table
    process_one table counts f (name, names, listed, told) holds =
        let (counts', ran, rest) = count_all (name ∷ names) counts f holds in
        (counts', rw told ran, rw listed rest)

    -- the servers of the regions of all tables
    abbrev pub all_servers : List String → List String
    all_servers [] = []
    all_servers (table ∷ tables) = servers table ++ all_servers tables

    pub counts_of_tables :
        (tables : List String) (counts : Dict ℕ) (f : String → ℕ)
        → All HasRegions tables
        → Holds counts f
        → (counts' : Dict ℕ) × (process_tables w tables counts ≡ returned counts')
          × Holds counts' (plus f (all_servers tables))
    unfolding process_tables
    counts_of_tables [] counts f h holds =
        (counts, refl, Holds-same counts f (plus f []) (λ server. omega arith) holds)
    counts_of_tables (table ∷ tables) counts f h holds =
        let (counts', ran, mid) = process_one table counts f h.0 holds in
        let (counts'', ran', rest) =
          counts_of_tables tables counts' (plus f (servers table)) h.1 mid in
        (
          counts'',
          rw ran ran',
          Holds-same counts'' _ _ (plus-append f (servers table) (all_servers tables)) rest,
        )
