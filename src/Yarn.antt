-- ===== src/Yarn.antt =====
-- check_hadoop_yarn_queue_apps.py: the applications that run on the queues of Yarn.
--
-- An application is the part of the JSON that the check reads. The three regular expressions come
-- from the user, so each is a test on texts.
pub mod Counts
mod Tests
use Prim.Native.String.{String}
use nagios_plugins.Base.{
  ℕ, suc, ◌+◌, ◌-◌, Bool, true, false, not, ◌&&◌, ◌||◌, Option, none, some, List, [], ◌∷◌, ◌++◌,
  ◌==◌, ltb, str_eq, if◌then◌else◌, length, or_zero,
}
use nagios_plugins.Base.Dict.{Dict, lookup, insert, keys}
use nagios_plugins.Text.{◌&◌}
use nagios_plugins.Text.Decimal.{show}
use nagios_plugins.Nagios.{Outcome, returned, raised, type_error, ◌>>=◌}

pub record App : Type 0 where
  pub name : String
  pub queue : String

pub record Options : Type 0 where
  pub queue_matches : String → Bool
  pub allow : Option (String → Bool)
  pub disallow : Option (String → Bool)
  pub verbose : Bool

-- `queue_stats`
pub record Stats : Type 0 where
  pub allowed : Dict ℕ
  pub disallowed : Dict ℕ
  pub non_allowed : Dict ℕ

-- the statistics, and whether `warning` was called
pub record State : Type 0 where
  pub stats : Stats
  pub is_warning : Bool

abbrev no_apps : Dict ℕ
no_apps = ("total", 0) ∷ []

abbrev pub start : State
start = record {
  stats = record { allowed = no_apps; disallowed = no_apps; non_allowed = no_apps };
  is_warning = false;
}

abbrev pub get : String → Dict ℕ → ℕ
get k d = or_zero (lookup k d)

-- the two counters of one kind, the total first
unfoldable pub count_app : String → Dict ℕ → Dict ℕ
count_app queue d =
    let d' = insert "total" (get "total" d + 1) d in insert queue (get queue d' + 1) d'

-- a regular expression that was given and is found
abbrev pub is_found : Option (String → Bool) → String → Bool
is_found none name = false
is_found (some search) name = search name

-- one that was given and is not found
abbrev pub is_missed : Option (String → Bool) → String → Bool
is_missed none name = false
is_missed (some search) name = not (search name)

-- one round of the loop
unfoldable pub check_app : Options → App → State → State
check_app o app s =
    if not (o.queue_matches app.queue)
    then s
    else if is_found o.disallow app.name
    then record {
      stats = record s.stats { disallowed = count_app app.queue s.stats.disallowed };
      is_warning = true;
    }
    else if is_missed o.allow app.name
    then record {
      stats = record s.stats { non_allowed = count_app app.queue s.stats.non_allowed };
      is_warning = true;
    }
    else record s { stats = record s.stats { allowed = count_app app.queue s.stats.allowed } }

unfoldable pub check_apps : Options → List App → State → State
check_apps o [] s = s
check_apps o (app ∷ apps) s = check_apps o apps (check_app o app s)

-- The queues of the three kinds; each dict also holds its total.
unfoldable pub matching_queues : Stats → ℕ
matching_queues s = length s.allowed + length s.non_allowed + length s.disallowed - 3

-- `plural` is pylib's.
abbrev pub summary : (plural : ℕ → String) → (queues disallowed non_allowed allowed : ℕ) → String
summary plural n disallowed non_allowed allowed =
    show n
    & " matching queue"
    & plural n
    & ", disallowed = "
    & show disallowed
    & ", non-allowed = "
    & show non_allowed
    & ", allowed = "
    & show allowed
    & " | 'disallowed'="
    & show disallowed
    & " 'non-allowed'="
    & show non_allowed
    & " 'allowed'="
    & show allowed

-- `msg_queue_stats`. The sum of two views of keys, in the part for verbose mode, is a TypeError.
unfoldable pub msg_queue_stats : (plural : ℕ → String) → Bool → Stats → Outcome String
msg_queue_stats plural verbose s =
    if verbose && ltb 1 (matching_queues s)
    then raised type_error
    else returned (
        summary plural (matching_queues s) (get "total" s.disallowed) (get "total" s.non_allowed)
          (get "total" s.allowed))

-- `check_queue_apps`: whether the status was raised to WARNING, and the message.
unfoldable pub check_queue_apps :
    (plural : ℕ → String) → Options → List App → Outcome (Bool × String)
check_queue_apps plural o apps = do
  let s = check_apps o apps start
  message ← msg_queue_stats plural o.verbose s.stats
  returned (s.is_warning, message)
