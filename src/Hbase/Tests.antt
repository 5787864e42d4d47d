-- ===== src/Hbase/Tests.antt =====
-- Runs of check_hbase_table_region_balance.py, and the theorem there.
use nagios_plugins.Base.{String, false, none, some, List, [], ◌∷◌, ◌≡◌, refl, str_eq, if◌then◌else◌}
use nagios_plugins.Nagios.{returned, exited}
use nagios_plugins.Hbase.{World, Options, Regions, regions_are, report, selected, run, script}
use nagios_plugins.Hbase.Count.{hosted, all_servers}
use nagios_plugins.Hbase.Laws.{IsBalance, percent, run_lem}

abbrev servers : String → List String
servers table = if str_eq table "users" then "a" ∷ "b" ∷ "a" ∷ [] else "b" ∷ "a" ∷ "a" ∷ []

abbrev regions_of : String → Regions
regions_of table =
    if str_eq table "users"
    then regions_are (some "a" ∷ some "b" ∷ some "a" ∷ [])
    else if str_eq table "empty"
    then regions_are []
    else regions_are (some "b" ∷ some "a" ∷ some "a" ∷ [])

abbrev world : World
world = record {
  validated = returned tt;
  connection = none;
  tables = returned ("users" ∷ "logs" ∷ "empty" ∷ []);
  regions = regions_of;
  closed = returned tt;
  float_text = λ x. "50.0";
  check_thresholds = λ x. (2, " (w=10, c=20)");
  perf_thresholds = ";10;20";
  support_msg_api = "";
}

abbrev one_table : Options
one_table = record { table = some "users"; list_tables = false }

unbalanced :
    run world one_table
    ≡ returned (
      2,
      "50.0% region imbalance (w=10, c=20) between HBase RegionServers hosting the most vs least number of regions for table 'users' (min = 1, max = 2) | '% region imbalance'=50.0%;10;20 min_regions=1 max_regions=2",
    )
unfolding script
unbalanced = refl

empty_table :
    run world (record { table = none; list_tables = false })
    ≡ exited 3 "no regions found for table 'empty'"
unfolding script
empty_table = refl

missing_table :
    run world (record { table = some "x"; list_tables = false })
    ≡ exited 2 "HBase table 'x' does not exist!"
unfolding script
missing_table = refl

abbrev two : List String
two = all_servers world servers ("users" ∷ "logs" ∷ [])

abbrev full : World
full = record world { tables = returned ("users" ∷ "logs" ∷ []) }

abbrev every : Options
every = record { table = none; list_tables = false }

run_lem_example :
    (least most : String) × IsBalance two least most
    × (run full every
        ≡ returned (
            report full none
              (percent (hosted least two) (hosted most two))
              (hosted least two)
              (hosted most two)))
unfolding selected
run_lem_example =
    run_lem full every servers ("users" ∷ "logs" ∷ []) "users" ("logs" ∷ []) refl refl refl refl
      (("a", "b" ∷ "a" ∷ [], refl, refl), (("b", "a" ∷ "a" ∷ [], refl, refl), tt)) refl
