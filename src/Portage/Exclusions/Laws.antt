-- ===== src/Portage/Exclusions/Laws.antt =====
-- The exclusions that older/check_gentoo_portage.py accepts.
use nagios_plugins.Base.{
  ℕ, ◌≤◌, String, true, Option, none, some, List, [], ◌∷◌, ◌≡◌, ◌≢◌, refl, sym, ◌∙◌, arith, All,
  str_eq, eq_iff, Bool-cases, inl, inr, or_zero,
}
use nagios_plugins.Text.{tail_from, head_to, last_chars, str_leb}
use nagios_plugins.Text.Decimal.{read_nat}
use nagios_plugins.Text.Sort.{
  sort, sort-All, sort-IsAscending, IsAscending, any-sort, sort-IsDistinct,
}
use nagios_plugins.Text.Distinct.{mem, IsDistinct}
use nagios_plugins.Nagios.{returned, ◌>>◌, >>=-eq-returned}
use nagios_plugins.Portage.Exclusions.{
  end, is_glsa, first_glsa, check_exclusion, check_exclusions, as_set, parts, compared,
  validate_exclusions,
}

-- An id of the right form, of a month up to this one, and not before the first of all.
abbrev pub IsAccepted : ℕ → String → Type 0
IsAccepted this_month s =
    (is_glsa s ≡ true)
    × (1 ≤ or_zero (read_nat (tail_from 4 (head_to 6 s))))
    × (or_zero (read_nat (tail_from 4 (head_to 6 s))) ≤ 12)
    × (1 ≤ or_zero (read_nat (last_chars 2 s)))
    × (or_zero (read_nat (head_to 6 s)) ≤ this_month)
    × (str_leb first_glsa s ≡ true)

check_exclusion-IsAccepted :
    (this_month : ℕ) (s : String)
    → check_exclusion this_month s ≡ returned tt
    → IsAccepted this_month s
unfolding check_exclusion end
check_exclusion-IsAccepted this_month s h = ground (arith, h)

check_exclusions-IsAccepted :
    (this_month : ℕ) (ss : List String)
    → check_exclusions this_month ss ≡ returned tt
    → All (IsAccepted this_month) ss
unfolding check_exclusions
check_exclusions-IsAccepted this_month [] h = tt
check_exclusions-IsAccepted this_month (s ∷ ss) h =
    let (u, first, others) = >>=-eq-returned _ _ h in
    (
      check_exclusion-IsAccepted this_month s first,
      check_exclusions-IsAccepted this_month ss others,
    )

as_set-All : (P : String → Type 0) (ss : List String) → All P ss → All P (as_set ss)
unfolding as_set
as_set-All P [] h = tt
as_set-All P (s ∷ ss) h = elim (Bool-cases (mem s (as_set ss))) [
  | inl old ↦ rw old (as_set-All P ss h.1)
  | inr new ↦ rw new (h.0, as_set-All P ss h.1)
]

as_set-IsDistinct : (ss : List String) → IsDistinct (as_set ss)
unfolding as_set
as_set-IsDistinct [] = tt
as_set-IsDistinct (s ∷ ss) = elim (Bool-cases (mem s (as_set ss))) [
  | inl old ↦ rw old (as_set-IsDistinct ss)
  | inr new ↦ rw new (new, as_set-IsDistinct ss)
]

mem-as_set : (t : String) (ss : List String) → mem t (as_set ss) ≡ mem t ss
unfolding as_set
mem-as_set t [] = refl
mem-as_set t (s ∷ ss) = elim (Bool-cases (mem s (as_set ss))) [
  | inl old ↦ elim (Bool-cases (str_eq t s)) [
    | inl same ↦
        let member = rw (← (eq_iff t s).0 same) at old in
        rw (old, mem-as_set t ss, same) (sym (mem-as_set t ss) ∙ member)
    | inr other ↦ rw (old, mem-as_set t ss, other) refl
  ]
  | inr new ↦ rw (new, mem-as_set t ss) refl
]

-- The exclusions that validation returns are those given, each once and in ascending order; and each
-- has the form of a GLSA id, of a month up to this one and not before the first GLSA.
pub validate_exclusions_lem :
    (this_month : ℕ) (verbosity : Option ℕ) (glsa_ids : String) (ids : List String)
    → validate_exclusions this_month verbosity (some glsa_ids) ≡ returned (some ids)
    → IsAscending ids
      × IsDistinct ids
      × All (IsAccepted this_month) ids
      × ((s : String) → mem s ids ≡ mem s (parts glsa_ids))
unfolding validate_exclusions
validate_exclusions_lem this_month none glsa_ids ids h = ground (arith, h)
validate_exclusions_lem this_month (some v) glsa_ids ids h =
    let set = as_set (parts glsa_ids) in
    let (u, checked, later) =
      >>=-eq-returned (check_exclusions this_month (parts glsa_ids))
        (λ u. compared (some v) >> returned (some (sort set))) h in
    let result : sort set ≡ ids = ground (arith, later) in
    rw (← result) (
      sort-IsAscending set,
      sort-IsDistinct set (as_set-IsDistinct (parts glsa_ids)),
      sort-All (IsAccepted this_month) set (
          as_set-All (IsAccepted this_month) (parts glsa_ids)
            (check_exclusions-IsAccepted this_month (parts glsa_ids) checked)),
      λ s. any-sort (str_eq s) set ∙ mem-as_set s (parts glsa_ids),
    )

-- Without `-v` a run with exclusions returns nothing.
pub validate_exclusions-quiet :
    (this_month : ℕ) (glsa_ids : String) (ids : Option (List String))
    → validate_exclusions this_month none (some glsa_ids) ≢ returned ids
unfolding validate_exclusions
validate_exclusions-quiet this_month glsa_ids ids h = ground (arith, h)
