-- ===== src/Hbase/Laws.antt =====
-- What check_hbase_table_region_balance.py reports.
use nagios_plugins.Base.{
  ℕ, zero, suc, ◌-◌, ◌*◌, ◌≤◌, String, none, some, List, [], ◌∷◌, ◌++◌, ◌≡◌, refl, sym, ap, ◌∙◌,
  arith, All, max, eq_iff,
}
use nagios_plugins.Base.Dict.{Dict, lookup}
use nagios_plugins.Base.Float.{Float, ratio, scale}
use nagios_plugins.Base.Int.{pos, ◌-ℤ◌}
use nagios_plugins.Nagios.{Outcome, returned, ◌>>=◌}
use nagios_plugins.Hbase.{
  World, Options, start, find_extremes, imbalance_of, report, selected, process_tables, run,
  connect, summary,
}
use nagios_plugins.Hbase.Count.{
  hosted, tally, Holds, Holds-same, plus, HasRegions, all_servers, counts_of_tables,
}
use nagios_plugins.Hbase.Bounds.{held, find_extremes_lem}

tally-some : (n m : ℕ) → tally n ≡ some m → (m ≡ n) × (1 ≤ m)
tally-some zero m h = absurd (cc)
tally-some (suc n) m h = (cc, ground (arith, h))

tally_there : (n : ℕ) → 1 ≤ n → tally n ≡ some n
tally_there zero h = absurd (omega (arith, h))
tally_there (suc n) h = refl

-- `least` and `most` host the fewest and the most of the regions that are on the servers `names`.
abbrev pub IsBalance : (names : List String) → (least most : String) → Type 0
IsBalance names least most =
    (1 ≤ hosted least names)
    × ((server : String)
        → 1 ≤ hosted server names
        → (hosted least names ≤ hosted server names) × (hosted server names ≤ hosted most names))

-- the distance in percent of the larger number
abbrev pub percent : (least most : ℕ) → Float
percent least most = ratio (pos ((most - least) * 100)) (most - 1)

imbalance_of-percent :
    (a b : String) (m x : ℕ) → 1 ≤ m → m ≤ x → imbalance_of (held a m b x) ≡ percent m x
unfolding imbalance_of scale ◌-ℤ◌
imbalance_of-percent a b m x low high =
    let difference : (pos x -ℤ pos m) ≡ pos (x - m) = ground arith in
    let largest : max x 1 ≡ x = omega arith in rw (difference, largest) refl

module _ (counts : Dict ℕ) (names : List String)
    (holds : Holds counts (λ server. hosted server names)) where
  entry :
      (server : String) (n : ℕ)
      → lookup server counts ≡ some n
      → (n ≡ hosted server names) × (1 ≤ n)
  entry server n h = tally-some (hosted server names) n (sym (holds.1 server) ∙ h)

hosted_first : (name : String) (names : List String) → 1 ≤ hosted name (name ∷ names)
hosted_first name names = let itself = (eq_iff name name).1 refl in ground arith

balance :
    (counts : Dict ℕ) (names : List String) (name : String)
    → 1 ≤ hosted name names
    → Holds counts (λ server. hosted server names)
    → (least most : String) × (find_extremes counts start
        ≡ held least (hosted least names) most (hosted most names))
      × IsBalance names least most
balance [] names name one holds =
    let there = holds.1 name ∙ tally_there (hosted name names) one in absurd (cc)
balance ((k, v) ∷ d) names name one holds =
    let (a, m, b, x, same, least, most, between) = find_extremes_lem k v d holds.0 in
    let (m_is, m_pos) = entry ((k, v) ∷ d) names holds a m least in
    let (x_is, x_pos) = entry ((k, v) ∷ d) names holds b x most in
    (
      a,
      b,
      same ∙ ap (λ n. held a n b x) m_is ∙ ap (λ n. held a (hosted a names) b n) x_is,
      (
        omega (arith, m_is, m_pos),
        λ server hosts.
            let inside =
              between server (hosted server names)
                (holds.1 server ∙ tally_there (hosted server names) hosts) in
            (omega (arith, inside.0, m_is), omega (arith, inside.1, x_is)),
      ),
    )

then_returned {ℓ κ} :
    {A : Type ℓ} {B : Type κ} (m : Outcome A) (f : A → Outcome B) {a : A}
    → m ≡ returned a
    → (m >>= f) ≡ f a
then_returned m f h = ap (λ n. n >>= f) h

module _ (w : World) (o : Options) (servers : String → List String) where
  some_table :
      (table : String) (tables : List String)
      → HasRegions w servers table
      → (name : String) × (1 ≤ hosted name (all_servers w servers (table ∷ tables)))
  some_table table tables (name, names, listed, told) =
      (name, rw listed (hosted_first name (names ++ all_servers w servers tables)))

  -- Where the settings are valid, HBase can be reached, and each table that is to be checked has
  -- regions, the check returns: there is a server that hosts the fewest of their regions, at
  -- least one, and a server that hosts the most, the report names these two numbers, and the
  -- imbalance is their difference in percent of the larger one.
  pub run_lem :
      (tables : List String) (table : String) (more : List String)
      → w.validated ≡ returned tt
      → w.connection ≡ none
      → w.tables ≡ returned tables
      → selected o tables ≡ returned (table ∷ more)
      → All (HasRegions w servers) (table ∷ more)
      → w.closed ≡ returned tt
      → (least most : String) × IsBalance (all_servers w servers (table ∷ more)) least most
        × (run w o
            ≡ returned (
                report w o.table
                  (percent
                    (hosted least (all_servers w servers (table ∷ more)))
                    (hosted most (all_servers w servers (table ∷ more))))
                  (hosted least (all_servers w servers (table ∷ more)))
                  (hosted most (all_servers w servers (table ∷ more)))))
  unfolding run
  run_lem tables table more valid connected listed chosen regions closed =
      let names = all_servers w servers (table ∷ more) in
      let (name, one) = some_table table more regions.0 in
      let (counts, ran, held_counts) =
        counts_of_tables w servers (table ∷ more) [] (λ server. 0) regions (tt, λ server. refl) in
      let holds : Holds counts (λ server. hosted server names) =
        Holds-same counts (plus (λ server. 0) names) (λ server. hosted server names)
          (λ server. omega arith) held_counts in
      let (least, most, same, fair) = balance counts names name one holds in
      let share =
        imbalance_of-percent least most (hosted least names) (hosted most names) fair.0
          (fair.1 least fair.0).1 in
      (
        least,
        most,
        fair,
        then_returned w.validated _ valid
            ∙ then_returned (connect w.connection) _ (ap connect connected)
            ∙ then_returned w.tables _ listed
            ∙ then_returned (selected o tables) _ chosen
            ∙ then_returned (process_tables w (table ∷ more) []) _ ran
            ∙ then_returned w.closed _ closed
            ∙ ap (λ e. returned (summary w o.table e)) same
            ∙ ap
                (λ share.
                  returned (report w o.table share (hosted least names) (hosted most names)))
                share,
      )
