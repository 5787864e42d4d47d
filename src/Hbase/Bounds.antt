-- ===== src/Hbase/Bounds.antt =====
-- The servers with the fewest and with the most regions.
use nagios_plugins.Base.{
  ℕ, ◌≤◌, String, Option, none, some, [], ◌∷◌, ◌≡◌, refl, sym, subst, ◌∙◌, arith, ◌⊎◌, str_eq,
  eq_iff, Bool-cases, inl, inr, ltb,
}
use nagios_plugins.Base.Dict.{Dict, lookup}
use nagios_plugins.Hbase.{Extremes, start, more, fewer, find_extremes}
use nagios_plugins.Hbase.Count.{IsDict}

-- the extremes so far, which are those of the servers `a` and `b`
abbrev pub held : (a : String) (m : ℕ) (b : String) (x : ℕ) → Extremes
held a m b x = record { min_regions = (some a, m); max_regions = (some b, x) }

-- The pair is the one that was held, or an entry of the dict.
abbrev Stands : Dict ℕ → (old : String × ℕ) → (new : String × ℕ) → Type 0
Stands d old new = (new ≡ old) ⊎ (lookup new.0 d ≡ some new.1)

-- what the loop makes of the extremes that it starts with
abbrev Found : Dict ℕ → (low top : String × ℕ) → Extremes → Type 0
Found d low top e =
    (a : String) × (m : ℕ) × (b : String) × (x : ℕ) × (e ≡ held a m b x)
    × (m ≤ low.1)
    × (top.1 ≤ x)
    × ((server : String) (n : ℕ) → lookup server d ≡ some n → (m ≤ n) × (n ≤ x))
    × Stands d low (a, m)
    × Stands d top (b, x)

lookup-later :
    (k s : String) (v n : ℕ) (d : Dict ℕ)
    → lookup k d ≡ none
    → lookup s d ≡ some n
    → lookup s ((k, v) ∷ d) ≡ some n
lookup-later k s v n d h e = ground (arith, eq_iff k s, h, e)

lookup-first : (k : String) (v : ℕ) (d : Dict ℕ) → lookup k ((k, v) ∷ d) ≡ some v
lookup-first k v d = let itself = (eq_iff k k).1 refl in rw itself refl

Stands-later :
    (k : String) (v : ℕ) (d : Dict ℕ) (old mid new : String × ℕ)
    → lookup k d ≡ none
    → (mid ≡ old) ⊎ (mid ≡ (k, v))
    → Stands d mid new
    → Stands ((k, v) ∷ d) old new
Stands-later k v d old mid new h from (inr there) = inr (lookup-later k new.0 v new.1 d h there)
Stands-later k v d old mid new h (inl kept) (inl same) = inl (same ∙ kept)
Stands-later k v d old mid new h (inr taken) (inl same) =
    inr (subst (λ p. lookup p.0 ((k, v) ∷ d) ≡ some p.1) (sym (same ∙ taken)) (lookup-first k v d))

-- how one server changes an extreme
abbrev Picks : (k : String) (v : ℕ) (old new : String × ℕ) → Option String × ℕ → Type 0
Picks k v old new e = (e ≡ (some new.0, new.1)) × ((new ≡ old) ⊎ (new ≡ (k, v)))

fewer-Picks :
    (k : String) (v : ℕ) (a : String) (m : ℕ)
    → (low : String × ℕ) × Picks k v (a, m) low (fewer k v (some a, m)) × (low.1 ≤ m) × (low.1 ≤ v)
fewer-Picks k v a m = elim (Bool-cases (ltb v m)) [
  | inl less ↦ ((k, v), rw less (refl, inr refl), ground (arith, less), omega arith)
  | inr other ↦ ((a, m), rw other (refl, inl refl), omega arith, ground (arith, other))
]

more-Picks :
    (k : String) (v : ℕ) (b : String) (x : ℕ)
    → (top : String × ℕ) × Picks k v (b, x) top (more k v (some b, x)) × (x ≤ top.1) × (v ≤ top.1)
more-Picks k v b x = elim (Bool-cases (ltb x v)) [
  | inl less ↦ ((k, v), rw less (refl, inr refl), ground (arith, less), omega arith)
  | inr other ↦ ((b, x), rw other (refl, inl refl), omega arith, ground (arith, other))
]

either_entry :
    (k s : String) (v n m x : ℕ) (d : Dict ℕ)
    → (m ≤ v) × (v ≤ x)
    → (lookup s d ≡ some n → (m ≤ n) × (n ≤ x))
    → lookup s ((k, v) ∷ d) ≡ some n
    → (m ≤ n) × (n ≤ x)
either_entry k s v n m x d first rest e = elim (Bool-cases (str_eq k s)) [
  | inl same ↦ ground (arith, same, e, first)
  | inr other ↦ rest (ground (arith, other, e))
]

find_extremes-Found :
    (d : Dict ℕ) (low top : String × ℕ)
    → IsDict d
    → Found d low top (find_extremes d (held low.0 low.1 top.0 top.1))
unfolding find_extremes
find_extremes-Found [] low top h = (
  low.0,
  low.1,
  top.0,
  top.1,
  refl,
  omega arith,
  omega arith,
  λ s n e. absurd (cc),
  inl refl,
  inl refl,
)
find_extremes-Found ((k, v) ∷ d) low top h =
    let (low', (lower, low_from), low_old, low_new) = fewer-Picks k v low.0 low.1 in
    let (top', (higher, top_from), top_old, top_new) = more-Picks k v top.0 top.1 in
    let (a, m, b, x, same, least, most, all, stands_low, stands_top) =
      find_extremes-Found d low' top' h.1 in
    (
      a,
      m,
      b,
      x,
      rw (lower, higher) same,
      omega (arith, least, low_old),
      omega (arith, most, top_old),
      λ s n e.
          either_entry k s v n m x d (omega (arith, least, low_new), omega (arith, most, top_new))
            (all s n) e,
      Stands-later k v d low low' (a, m) h.0 low_from stands_low,
      Stands-later k v d top top' (b, x) h.0 top_from stands_top,
    )

entry_found :
    (k : String) (v : ℕ) (d : Dict ℕ)
    → lookup k d ≡ none
    → (p : String × ℕ) → Stands d (k, v) p
    → lookup p.0 ((k, v) ∷ d) ≡ some p.1
entry_found k v d h p (inl same) =
    subst (λ p. lookup p.0 ((k, v) ∷ d) ≡ some p.1) (sym same) (lookup-first k v d)
entry_found k v d h p (inr there) = lookup-later k p.0 v p.1 d h there

-- The extremes of a dict that is not empty: both are entries, and every entry is between them.
pub find_extremes_lem :
    (k : String) (v : ℕ) (d : Dict ℕ)
    → IsDict ((k, v) ∷ d)
    → (a : String) × (m : ℕ) × (b : String) × (x : ℕ) × (find_extremes ((k, v) ∷ d) start
        ≡ held a m b x)
      × (lookup a ((k, v) ∷ d) ≡ some m)
      × (lookup b ((k, v) ∷ d) ≡ some x)
      × ((server : String) (n : ℕ) → lookup server ((k, v) ∷ d) ≡ some n → (m ≤ n) × (n ≤ x))
unfolding find_extremes
find_extremes_lem k v d h =
    let (a, m, b, x, same, least, most, all, stands_low, stands_top) =
      find_extremes-Found d (k, v) (k, v) h.1 in
    (
      a,
      m,
      b,
      x,
      same,
      entry_found k v d h.0 (a, m) stands_low,
      entry_found k v d h.0 (b, x) stands_top,
      λ s n e. either_entry k s v n m x d (least, most) (all s n) e,
    )
