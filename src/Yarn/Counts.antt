-- ===== src/Yarn/Counts.antt =====
-- What the counters of check_hadoop_yarn_queue_apps.py hold.
use nagios_plugins.Base.{
  ℕ, suc, ◌+◌, String, Bool, false, not, ◌&&◌, ◌||◌, List, [], ◌∷◌, ◌≡◌, refl, ◌∙◌, arith, eq_iff,
  str_eq, if◌then◌else◌, All, any, Bool-cases, inl, inr,
}
use nagios_plugins.Base.Dict.{Dict, insert, lookup-insert}
use nagios_plugins.Nagios.{returned}
use nagios_plugins.Yarn.{
  App, Options, State, start, get, count_app, is_found, is_missed, check_app, check_apps,
  matching_queues, summary, msg_queue_stats, check_queue_apps,
}

-- An independent account: which applications are of which kind.
abbrev pub is_disallowed : Options → App → Bool
is_disallowed o a = o.queue_matches a.queue && is_found o.disallow a.name

abbrev pub is_non_allowed : Options → App → Bool
is_non_allowed o a =
    o.queue_matches a.queue && not (is_found o.disallow a.name) && is_missed o.allow a.name

abbrev pub is_allowed : Options → App → Bool
is_allowed o a =
    o.queue_matches a.queue && not (is_found o.disallow a.name) && not (is_missed o.allow a.name)

abbrev pub number_of : (App → Bool) → List App → ℕ
number_of p [] = 0
number_of p (a ∷ apps) = if p a then suc (number_of p apps) else number_of p apps

-- no queue has the name of the counter of totals
abbrev pub IsQueue : App → Type 0
IsQueue a = str_eq a.queue "total" ≡ false

get-insert :
    (k j : String) (v : ℕ) (d : Dict ℕ) → get j (insert k v d) ≡ (if str_eq k j then v else get j d)
get-insert k j v d = elim (Bool-cases (str_eq k j)) [
  | inl same ↦ rw (lookup-insert k j v d, same) refl
  | inr other ↦ rw (lookup-insert k j v d, other) refl
]

count_app-total :
    (queue : String) (d : Dict ℕ)
    → str_eq queue "total" ≡ false
    → get "total" (count_app queue d) ≡ get "total" d + 1
unfolding count_app
count_app-total queue d h =
    let d' = insert "total" (get "total" d + 1) d in
    let outer = get-insert queue "total" (get queue d' + 1) d' in
    let inner = get-insert "total" "total" (get "total" d + 1) d in rw (outer, h, inner) refl

count_app-queue :
    (queue j : String) (d : Dict ℕ)
    → str_eq "total" j ≡ false
    → get j (count_app queue d) ≡ (if str_eq queue j then get j d + 1 else get j d)
unfolding count_app
count_app-queue queue j d h =
    let d' = insert "total" (get "total" d + 1) d in
    let outer = get-insert queue j (get queue d' + 1) d' in
    let inner = get-insert "total" j (get "total" d + 1) d in
    elim (Bool-cases (str_eq queue j)) [
      | inl same ↦
          let queue_is = (eq_iff queue j).0 same in rw (outer, same, queue_is, inner, h) refl
      | inr other ↦ rw (outer, other, inner, h) refl
    ]

-- what one round adds to the total of each kind, and to the warning
abbrev one_if : Bool → ℕ
one_if b = if b then 1 else 0

check_app-totals :
    (o : Options) (a : App) (s : State)
    → IsQueue a
    → (get "total" (check_app o a s).stats.allowed
        ≡ get "total" s.stats.allowed + one_if (is_allowed o a))
      × (get "total" (check_app o a s).stats.disallowed
          ≡ get "total" s.stats.disallowed + one_if (is_disallowed o a))
      × (get "total" (check_app o a s).stats.non_allowed
          ≡ get "total" s.stats.non_allowed + one_if (is_non_allowed o a))
      × ((check_app o a s).is_warning ≡ s.is_warning || (is_disallowed o a || is_non_allowed o a))
unfolding check_app
check_app-totals o a s h =
    let x = count_app-total a.queue s.stats.allowed h in
    let y = count_app-total a.queue s.stats.disallowed h in
    let z = count_app-total a.queue s.stats.non_allowed h in
    elim (Bool-cases (o.queue_matches a.queue)) [
      | inr unmatched ↦ rw unmatched (omega arith, omega arith, omega arith, ground arith)
      | inl matched ↦ elim (Bool-cases (is_found o.disallow a.name)) [
        | inl found ↦ rw (matched, found) (omega arith, omega (arith, y), omega arith, ground arith)
        | inr unfound ↦ elim (Bool-cases (is_missed o.allow a.name)) [
          | inl missed ↦
              rw (matched, unfound, missed)
                (omega arith, omega arith, omega (arith, z), ground arith)
          | inr hit ↦
              rw (matched, unfound, hit) (omega (arith, x), omega arith, omega arith, ground arith)
        ]
      ]
    ]

regroup : (a b c d : Bool) → d ≡ a || b → d || c ≡ a || (b || c)
regroup a b c h = ground arith

check_apps-totals :
    (o : Options) (apps : List App) (s : State)
    → All IsQueue apps
    → (get "total" (check_apps o apps s).stats.allowed
        ≡ get "total" s.stats.allowed + number_of (is_allowed o) apps)
      × (get "total" (check_apps o apps s).stats.disallowed
          ≡ get "total" s.stats.disallowed + number_of (is_disallowed o) apps)
      × (get "total" (check_apps o apps s).stats.non_allowed
          ≡ get "total" s.stats.non_allowed + number_of (is_non_allowed o) apps)
      × ((check_apps o apps s).is_warning
          ≡ s.is_warning || any (λ a. is_disallowed o a || is_non_allowed o a) apps)
unfolding check_apps
check_apps-totals o [] s h = (omega arith, omega arith, omega arith, ground arith)
check_apps-totals o (a ∷ apps) s h =
    let (x, y, z, w) = check_app-totals o a s h.0 in
    let (x', y', z', w') = check_apps-totals o apps (check_app o a s) h.1 in
    (
      ground arith,
      ground arith,
      ground arith,
      w'
          ∙ regroup s.is_warning (is_disallowed o a || is_non_allowed o a) _
              (check_app o a s).is_warning w,
    )

-- Every application that is selected is of exactly one kind.
kinds-sum :
    (o : Options) (apps : List App)
    → number_of (is_allowed o) apps
        + number_of (is_disallowed o) apps
        + number_of (is_non_allowed o) apps
      ≡ number_of (λ a. o.queue_matches a.queue) apps
kinds-sum o [] = omega arith
kinds-sum o (a ∷ apps) = let rest = kinds-sum o apps in ground arith

-- When no queue is called "total" and the check is not verbose, it returns: WARNING is raised
-- exactly if some application on a matching queue is disallowed, or not allowed, and the message
-- gives the numbers of applications of the three kinds, which add up to all on matching queues.
pub check_queue_apps_lem :
    (plural : ℕ → String) (o : Options) (apps : List App)
    → All IsQueue apps
    → o.verbose ≡ false
    → (queues : ℕ) × (check_queue_apps plural o apps
        ≡ returned (
          any (λ a. is_disallowed o a || is_non_allowed o a) apps,
          summary plural queues
              (number_of (is_disallowed o) apps)
              (number_of (is_non_allowed o) apps)
              (number_of (is_allowed o) apps),
        ))
      × (number_of (is_allowed o) apps
            + number_of (is_disallowed o) apps
            + number_of (is_non_allowed o) apps
          ≡ number_of (λ a. o.queue_matches a.queue) apps)
unfolding check_queue_apps msg_queue_stats
check_queue_apps_lem plural o apps h quiet =
    let (x, y, z, w) = check_apps-totals o apps start h in
    let (x', y', z') : (get "total" (check_apps o apps start).stats.allowed
          ≡ number_of (is_allowed o) apps)
        × (get "total" (check_apps o apps start).stats.disallowed
            ≡ number_of (is_disallowed o) apps)
        × (get "total" (check_apps o apps start).stats.non_allowed
            ≡ number_of (is_non_allowed o) apps) =
      (omega (arith, x), omega (arith, y), omega (arith, z)) in
    (
      matching_queues (check_apps o apps start).stats,
      rw (w, x', y', z', quiet) refl,
      kinds-sum o apps,
    )
