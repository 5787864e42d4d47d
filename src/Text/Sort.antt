-- ===== src/Text/Sort.antt =====
-- `list.sort()` on strings, as an insertion sort: equal strings are the same string, so every
-- stable sort returns this list.
use Prim.Native.String.{[], ◌∷◌}
use mathlib.Core.List.{Perm}
use mathlib.Core.List.Perm
use nagios_plugins.Base.{
  String, Bool, true, ◌||◌, any, List, [], ◌∷◌, ◌≡◌, ◌≢◌, inl, inr, refl, arith, Bool-cases,
  if◌then◌else◌, All, str_eq, eq_iff, ◌∙◌, false,
}
use nagios_plugins.Text.Distinct.{mem, IsDistinct}
use nagios_plugins.Text.{str_leb}

insert : String → List String → List String
unfolding str_leb
insert s [] = s ∷ []
insert s (t ∷ ts) = if str_leb s t then s ∷ t ∷ ts else t ∷ insert s ts

unfoldable pub sort : List String → List String
unfolding insert
sort [] = []
sort (s ∷ ss) = insert s (sort ss)

-- Each string is at most the one behind it.
abbrev pub IsSorted : List String → Type 0
IsSorted [] = Unit
IsSorted (s ∷ []) = Unit
IsSorted (s ∷ t ∷ ts) = (str_leb s t ≡ true) × IsSorted (t ∷ ts)

str_leb_total : (s t : String) → str_leb s t ≡ false → str_leb t s ≡ true
unfolding str_leb
str_leb_total [] t h = absurd (cc)
str_leb_total (c ∷ s) [] h = refl
str_leb_total (c ∷ s) (d ∷ t) h = ground (arith, str_leb_total s t)

insert-IsSorted_head :
    (s t : String) (ts : List String)
    → str_leb t s ≡ true
    → IsSorted (t ∷ ts)
    → IsSorted (insert s ts)
    → IsSorted (t ∷ insert s ts)
unfolding insert
insert-IsSorted_head s t [] h sorted rest = (h, tt)
insert-IsSorted_head s t (u ∷ us) h sorted rest = elim (Bool-cases (str_leb s u)) [
  | inl e ↦ ground arith
  | inr e ↦ ground arith
]

tail-IsSorted : (t : String) (ts : List String) → IsSorted (t ∷ ts) → IsSorted ts
tail-IsSorted t [] h = tt
tail-IsSorted t (u ∷ us) h = h.1

insert-IsSorted : (s : String) (ts : List String) → IsSorted ts → IsSorted (insert s ts)
unfolding insert
insert-IsSorted s [] h = tt
insert-IsSorted s (t ∷ ts) h = elim (Bool-cases (str_leb s t)) [
  | inl e ↦ rw e (e, h)
  | inr e ↦ rw e (
      insert-IsSorted_head s t ts (str_leb_total s t e) h
        (insert-IsSorted s ts (tail-IsSorted t ts h)))
]

pub sort-IsSorted : (ss : List String) → IsSorted (sort ss)
unfolding sort
sort-IsSorted [] = tt
sort-IsSorted (s ∷ ss) = insert-IsSorted s (sort ss) (sort-IsSorted ss)

insert-perm : (s : String) (ts : List String) → Perm (insert s ts) (s ∷ ts)
unfolding insert
insert-perm s [] = Perm.refl _
insert-perm s (t ∷ ts) = elim (Bool-cases (str_leb s t)) [
  | inl e ↦ rw e (Perm.refl _)
  | inr e ↦ rw e (Perm.trans (Perm.cons t (insert-perm s ts)) (Perm.swap s t ts))
]

pub sort-perm : (ss : List String) → Perm (sort ss) ss
unfolding sort
sort-perm [] = Perm.refl _
sort-perm (s ∷ ss) = Perm.trans (insert-perm s (sort ss)) (Perm.cons s (sort-perm ss))

insert-ne-nil : (s : String) (ts : List String) → insert s ts ≢ []
unfolding insert
insert-ne-nil s [] = ground arith
insert-ne-nil s (t ∷ ts) = ground arith

pub sort-ne-nil : (ss : List String) → ss ≢ [] → sort ss ≢ []
unfolding sort
sort-ne-nil [] h = h
sort-ne-nil (s ∷ ss) h = insert-ne-nil s (sort ss)

insert-All :
    (P : String → Type 0) (s : String) (ts : List String) → P s → All P ts → All P (insert s ts)
unfolding insert
insert-All P s [] h k = (h, tt)
insert-All P s (t ∷ ts) h k = elim (Bool-cases (str_leb s t)) [
  | inl e ↦ rw e (h, k)
  | inr e ↦ rw e (k.0, insert-All P s ts h k.1)
]

-- What holds of all strings of a list holds of all strings of the sorted one.
pub sort-All : (P : String → Type 0) (ss : List String) → All P ss → All P (sort ss)
unfolding sort
sort-All P [] h = tt
sort-All P (s ∷ ss) h = insert-All P s (sort ss) h.0 (sort-All P ss h.1)

str_leb_trans : (s t u : String) → str_leb s t ≡ true → str_leb t u ≡ true → str_leb s u ≡ true
unfolding str_leb
str_leb_trans [] t u h k = refl
str_leb_trans (c ∷ s) [] u h k = absurd (cc)
str_leb_trans (c ∷ s) (d ∷ t) [] h k = absurd (cc)
str_leb_trans (c ∷ s) (d ∷ t) (e ∷ u) h k = ground (arith, str_leb_trans s t u)

-- Each string is at most every one behind it.
abbrev pub IsAscending : List String → Type 0
IsAscending [] = Unit
IsAscending (s ∷ ts) = All (λ t. str_leb s t ≡ true) ts × IsAscending ts

below-All :
    (s t : String) (ts : List String)
    → str_leb s t ≡ true
    → All (λ u. str_leb t u ≡ true) ts
    → All (λ u. str_leb s u ≡ true) ts
below-All s t [] h k = tt
below-All s t (u ∷ ts) h k = (str_leb_trans s t u h k.0, below-All s t ts h k.1)

IsAscending-of_IsSorted : (ts : List String) → IsSorted ts → IsAscending ts
IsAscending-of_IsSorted [] h = tt
IsAscending-of_IsSorted (s ∷ []) h = (tt, tt)
IsAscending-of_IsSorted (s ∷ t ∷ ts) h =
    let rest = IsAscending-of_IsSorted (t ∷ ts) h.1 in ((h.0, below-All s t ts h.0 rest.0), rest)

pub sort-IsAscending : (ss : List String) → IsAscending (sort ss)
sort-IsAscending ss = IsAscending-of_IsSorted (sort ss) (sort-IsSorted ss)

any-insert :
    (p : String → Bool) (s : String) (ts : List String) → any p (insert s ts) ≡ p s || any p ts
unfolding insert
any-insert p s [] = refl
any-insert p s (t ∷ ts) = let rest = any-insert p s ts in ground arith

pub any-sort : (p : String → Bool) (ss : List String) → any p (sort ss) ≡ any p ss
unfolding sort
any-sort p [] = refl
any-sort p (s ∷ ss) = rw (any-insert p s (sort ss), any-sort p ss) refl

pub str_leb_refl : (s : String) → str_leb s s ≡ true
unfolding str_leb
str_leb_refl [] = refl
str_leb_refl (c ∷ s) = let rest = str_leb_refl s in ground arith

insert-IsDistinct :
    (s : String) (ts : List String) → mem s ts ≡ false → IsDistinct ts → IsDistinct (insert s ts)
unfolding insert
insert-IsDistinct s [] h k = (refl, tt)
insert-IsDistinct s (t ∷ ts) h k = elim (Bool-cases (str_leb s t)) [
  | inl e ↦ rw e (h, k)
  | inr e ↦
      let members = any-insert (str_eq t) s ts in
      rw e (
        ground (arith, members, (eq_iff s t).1, (eq_iff t s).0, k.0, h),
        insert-IsDistinct s ts (ground (arith, h)) k.1,
      )
]

pub sort-IsDistinct : (ss : List String) → IsDistinct ss → IsDistinct (sort ss)
unfolding sort
sort-IsDistinct [] h = tt
sort-IsDistinct (s ∷ ss) h =
    insert-IsDistinct s (sort ss) (any-sort (str_eq s) ss ∙ h.0) (sort-IsDistinct ss h.1)
