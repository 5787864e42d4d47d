-- ===== src/Text/Distinct.antt =====
-- Lists of different texts, by tests; and what they say of the library's `Perm`.
use mathlib.Core.Logic.Or
use mathlib.Core.Bool.{Bool-set}
use mathlib.Core.List.{
  Mem, Nodup, Perm, mem-cons, not-mem-nil, Nodup-cons, Nodup-nil, perm_ext_iff_of_Nodup,
}
use nagios_plugins.Base.{
  String, Bool, true, false, ◌||◌, List, [], ◌∷◌, ◌++◌, ◌≡◌, refl, sym, ◌∙◌, arith, str_eq, eq_iff,
  any, Bool-cases, inl, inr,
}

abbrev pub mem : String → List String → Bool
mem s list = any (str_eq s) list

abbrev pub IsDistinct : List String → Type 0
IsDistinct [] = Unit
IsDistinct (s ∷ ss) = (mem s ss ≡ false) × IsDistinct ss

pub any-append : (p : String → Bool) (xs ys : List String) → any p (xs ++ ys) ≡ any p xs || any p ys
any-append p [] ys = refl
any-append p (x ∷ xs) ys = let rest = any-append p xs ys in ground arith

Mem-of_mem : (s : String) (xs : List String) → mem s xs ≡ true → Mem s xs
Mem-of_mem s [] h = absurd (cc)
Mem-of_mem s (x ∷ xs) h = elim (Bool-cases (str_eq s x)) [
  | inl same ↦ mem-cons.1 (Or.inl ((eq_iff s x).0 same))
  | inr other ↦ mem-cons.1 (Or.inr (Mem-of_mem s xs (rw other at h)))
]

mem_of_Mem : (s : String) (xs : List String) → Mem s xs → mem s xs ≡ true
mem_of_Mem s [] h = absurd (not-mem-nil h)
mem_of_Mem s (x ∷ xs) h =
    Or.elim (Bool-set _ _) (mem-cons.0 h) (λ e. rw ((eq_iff s x).1 e) refl)
      (λ m. rw (mem_of_Mem s xs m) (ground arith))

Nodup-of_IsDistinct : (xs : List String) → IsDistinct xs → Nodup xs
Nodup-of_IsDistinct [] h = Nodup-nil
Nodup-of_IsDistinct (x ∷ xs) h =
    Nodup-cons.1 (λ m. cc (mem_of_Mem x xs m, h.0), Nodup-of_IsDistinct xs h.1)

-- Two lists without duplicates that have the same members are permutations of one another.
pub perm_of_same_members :
    (xs ys : List String)
    → IsDistinct xs
    → IsDistinct ys
    → ((s : String) → mem s xs ≡ mem s ys)
    → Perm xs ys
perm_of_same_members xs ys h k same =
    (perm_ext_iff_of_Nodup (Nodup-of_IsDistinct xs h) (Nodup-of_IsDistinct ys k)).1 (λ s. (
      λ m. Mem-of_mem s ys (sym (same s) ∙ mem_of_Mem s xs m),
      λ m. Mem-of_mem s xs (same s ∙ mem_of_Mem s ys m),
    ))
