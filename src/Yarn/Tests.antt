-- ===== src/Yarn/Tests.antt =====
-- Runs of check_hadoop_yarn_queue_apps.py.
use nagios_plugins.Base.{
  ℕ, ◌+◌, String, Bool, true, false, ◌||◌, none, some, List, [], ◌∷◌, ◌≡◌, refl, any, ◌==◌,
  if◌then◌else◌,
}
use nagios_plugins.Text.{starts_with, text_functions}
use nagios_plugins.Text.Decimal.{show}
use nagios_plugins.Nagios.{returned, raised, type_error}
use nagios_plugins.Yarn.{
  App, Options, count_app, check_app, check_apps, matching_queues, summary, msg_queue_stats,
  check_queue_apps,
}
use nagios_plugins.Yarn.Counts.{
  is_disallowed, is_non_allowed, is_allowed, number_of, check_queue_apps_lem,
}

abbrev options : Bool → Options
options verbose = record {
  queue_matches = λ s. true;
  allow = none;
  disallow = some (λ s. starts_with s "spark");
  verbose = verbose;
}

abbrev plural : ℕ → String
plural n = if n == 1 then "" else "s"

abbrev apps : List App
apps =
    record { name = "spark-shell"; queue = "default" }
    ∷ record { name = "etl"; queue = "batch" }
    ∷ record { name = "report"; queue = "batch" }
    ∷ []

abbrev line : String
line =
    "2 matching queues, disallowed = 1, non-allowed = 0, allowed = 2 | 'disallowed'=1 'non-allowed'=0 'allowed'=2"

one_disallowed : check_queue_apps plural (options false) apps ≡ returned (true, line)
unfolding check_queue_apps check_apps check_app count_app msg_queue_stats matching_queues show
    text_functions
one_disallowed = refl

-- The same in verbose mode.
verbose_raises : check_queue_apps plural (options true) apps ≡ raised type_error
unfolding check_queue_apps check_apps check_app count_app msg_queue_stats matching_queues show
    text_functions
verbose_raises = refl

-- A queue called "total": its one application is counted twice.
total_queue :
    check_queue_apps plural (options false) (record { name = "etl"; queue = "total" } ∷ [])
    ≡ returned (
      false,
      "0 matching queues, disallowed = 0, non-allowed = 0, allowed = 2 | 'disallowed'=0 'non-allowed'=0 'allowed'=2",
    )
unfolding check_queue_apps check_apps check_app count_app msg_queue_stats matching_queues show
    text_functions
total_queue = refl

check_queue_apps_lem_example :
    (queues : ℕ) × (check_queue_apps plural (options false) apps
      ≡ returned (
        any (λ a. is_disallowed (options false) a || is_non_allowed (options false) a) apps,
        summary plural queues
            (number_of (is_disallowed (options false)) apps)
            (number_of (is_non_allowed (options false)) apps)
            (number_of (is_allowed (options false)) apps),
      ))
    × (number_of (is_allowed (options false)) apps
          + number_of (is_disallowed (options false)) apps
          + number_of (is_non_allowed (options false)) apps
        ≡ number_of (λ a. true) apps)
check_queue_apps_lem_example =
    check_queue_apps_lem plural (options false) apps (refl, (refl, (refl, tt))) refl
