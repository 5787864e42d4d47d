-- ===== src/Hbase.antt =====
-- check_hbase_table_region_balance.py: how evenly the regions of the tables of HBase are spread over
-- its servers. The connection is happybase's, and the options, the thresholds and the end of the
-- script are pylib's: what they give is a parameter.
pub mod Bounds
pub mod Count
pub mod Laws
mod Tests
use nagios_plugins.Base.{
  ℕ, ◌+◌, ◌-◌, String, Bool, true, false, not, ◌||◌, Option, none, some, List, [], ◌∷◌, any, ltb,
  max, str_eq, if◌then◌else◌,
}
use nagios_plugins.Base.Dict.{Dict, lookup, insert}
use nagios_plugins.Base.Float.{Float, ratio, times}
use nagios_plugins.Base.Int.{pos, ◌-ℤ◌}
use nagios_plugins.Text.{◌&◌, is_falsy, join, or_empty}
use nagios_plugins.Text.Decimal.{show}
use nagios_plugins.Nagios.{
  ok_status, critical_status, unknown_status, Outcome, returned, exited, when, ◌>>=◌, ◌>>◌,
}

-- What `regions` of a table gives: the `server_name` of each region, `none` where the key is
-- missing, or an exception that the handler names, with its text.
pub data Regions : Type 0 where
  regions_are : List (Option String) → Regions
  failed : String → Regions

-- What the libraries give: the validations, the text of an error of the connection, its tables and
-- their regions, and how it closes; the text of a float; the status and the text that the thresholds
-- make of an imbalance, and their part of the performance data; the advice of `support_msg_api`.
pub record World : Type 0 where
  pub validated : Outcome (Unit {0})
  pub connection : Option String
  pub tables : Outcome (List String)
  pub regions : String → Regions
  pub closed : Outcome (Unit {0})
  pub float_text : Float → String
  pub check_thresholds : Float → ℕ × String
  pub perf_thresholds : String
  pub support_msg_api : String

pub record Options : Type 0 where
  pub table : Option String
  pub list_tables : Bool

-- `d.get(server, 0)`
abbrev pub regions_on : Option ℕ → ℕ
regions_on none = 0
regions_on (some n) = n

-- the loop over the regions of a table
unfoldable pub count_regions :
    World → List (Option String) → (server_region_counts : Dict ℕ) → Outcome (Dict ℕ)
count_regions w [] counts = returned counts
count_regions w (none ∷ regions) counts =
    exited unknown_status ("failed to process region information. " & w.support_msg_api)
count_regions w (some server ∷ regions) counts =
    count_regions w regions (insert server (regions_on (lookup server counts) + 1) counts)

abbrev process_regions : World → (table : String) → Regions → Dict ℕ → Outcome (Dict ℕ)
process_regions w table (failed error) counts = exited critical_status error
process_regions w table (regions_are []) counts =
    exited unknown_status ("no regions found for table '" & table & "'")
process_regions w table (regions_are (region ∷ regions)) counts =
    count_regions w (region ∷ regions) counts

unfoldable pub process_table : World → (table : String) → Dict ℕ → Outcome (Dict ℕ)
unfolding count_regions
process_table w table counts = process_regions w table (w.regions table) counts

-- `for table in tables`
unfoldable pub process_tables : World → (tables : List String) → Dict ℕ → Outcome (Dict ℕ)
process_tables w [] counts = returned counts
process_tables w (table ∷ tables) counts =
    process_table w table counts >>= λ counts'. process_tables w tables counts'

-- `server_min_regions` and `server_max_regions`
pub record Extremes : Type 0 where
  pub min_regions : Option String × ℕ
  pub max_regions : Option String × ℕ

abbrev pub start : Extremes
start = record { min_regions = (none, 0); max_regions = (none, 0) }

abbrev is_none : Option String → Bool
is_none none = true
is_none (some s) = false

abbrev pub more : String → ℕ → Option String × ℕ → Option String × ℕ
more server n top = if is_none top.0 || ltb top.1 n then (some server, n) else top

abbrev pub fewer : String → ℕ → Option String × ℕ → Option String × ℕ
fewer server n low = if is_none low.0 || ltb n low.1 then (some server, n) else low

-- the loop of `calculate_imbalance`
unfoldable pub find_extremes : Dict ℕ → Extremes → Extremes
find_extremes [] e = e
find_extremes ((server, n) ∷ counts) e = find_extremes counts (record {
  min_regions = fewer server n e.min_regions;
  max_regions = more server n e.max_regions;
})

-- what `calculate_imbalance` returns; the quotient is not rounded here
unfoldable pub imbalance_of : Extremes → Float
imbalance_of e =
    times (ratio (pos e.max_regions.1 -ℤ pos e.min_regions.1) (max e.max_regions.1 1 - 1)) 100

-- the message, behind its first part
abbrev scope_of : Option String → String
scope_of table =
    if is_falsy table then " across all tables" else " for table '" & or_empty table & "'"

-- the status and the message that `run` leaves
abbrev pub report : World → Option String → Float → (least most : ℕ) → ℕ × String
report w table imbalance least most =
    let (status, told) = w.check_thresholds imbalance in
    (
      status,
      w.float_text imbalance
          & "% region imbalance"
          & told
          & " between HBase RegionServers hosting the most vs least number of regions"
          & scope_of table
          & " (min = "
          & show least
          & ", max = "
          & show most
          & ")"
          & " | '% region imbalance'="
          & w.float_text imbalance
          & "%"
          & w.perf_thresholds
          & " min_regions="
          & show least
          & " max_regions="
          & show most,
    )

abbrev summary : World → (table : Option String) → Extremes → ℕ × String
summary w table e = report w table (imbalance_of e) e.min_regions.1 e.max_regions.1

abbrev connect : Option String → Outcome (Unit {0})
connect none = returned tt
connect (some error) = exited critical_status ("error connecting: " & error)

abbrev is_empty_list : List String → Bool
is_empty_list [] = true
is_empty_list (x ∷ xs) = false

-- the tables that are processed
unfoldable pub selected : Options → (tables : List String) → Outcome (List String)
selected o tables =
    if is_empty_list tables
    then exited critical_status "no HBase tables found!"
    else if o.list_tables
    then exited unknown_status ("Tables:\n\n" & join "\n" tables)
    else if is_falsy o.table
    then returned tables
    else if any (str_eq (or_empty o.table)) tables
    then returned (or_empty o.table ∷ [])
    else exited critical_status ("HBase table '" & or_empty o.table & "' does not exist!")

unfoldable pub run : World → Options → Outcome (ℕ × String)
run w o = do
  w.validated
  connect w.connection
  tables ← w.tables
  chosen ← selected o tables
  counts ← process_tables w chosen []
  w.closed
  returned (summary w o.table (find_extremes counts start))

-- For tests: computes with the whole script.
unfoldable pub script : Unit {0}
unfolding run selected process_tables process_table count_regions find_extremes imbalance_of show
    join ◌-ℤ◌
script = tt
