-- ===== src/Text/Occurrences.antt =====
-- How many characters of a class a text has, and what the string methods leave of them.
use Prim.Native.String.{[], ◌∷◌}
use Prim.Native.String.append.{nil, cons}
use nagios_plugins.Base.{
  ℕ, suc, ◌+◌, ◌≤◌, Char, code, String, Bool, true, false, ◌==◌, List, [], ◌∷◌, ◌≡◌, refl, ap,
  arith, if◌then◌else◌, length, All,
}
use nagios_plugins.Text.{
  ◌&◌, split_on, lead, lstrip, rstrip, cons_kept, strip, is_space, nonempty, split, split_spaces,
  translate, translate_all, lowers, uppers, upper, lower, is_empty,
}

module _ (p : ℕ → Bool) where
  abbrev pub occurrences : String → ℕ
  occurrences [] = 0
  occurrences (c ∷ s) = if p (code c) then suc (occurrences s) else occurrences s

  pub occurrences-append : (s t : String) → occurrences (s & t) ≡ occurrences s + occurrences t
  occurrences-append [] t = omega (arith, ap occurrences (nil t))
  occurrences-append (c ∷ s) t =
      let h = occurrences-append s t in let front = ap occurrences (cons c s t) in ground arith

  pub occurrences-lstrip : (q : ℕ → Bool) (s : String) → occurrences (lstrip q s) ≤ occurrences s
  unfolding lstrip
  occurrences-lstrip q [] = omega arith
  occurrences-lstrip q (c ∷ s) = let h = occurrences-lstrip q s in ground arith

  occurrences-cons_kept :
      (b : Bool) (c : Char) (s : String) → occurrences (cons_kept b c s) ≤ occurrences (c ∷ s)
  occurrences-cons_kept true c [] = ground arith
  occurrences-cons_kept true c (d ∷ s) = omega arith
  occurrences-cons_kept false c s = omega arith

  pub occurrences-rstrip : (q : ℕ → Bool) (s : String) → occurrences (rstrip q s) ≤ occurrences s
  unfolding rstrip
  occurrences-rstrip q [] = omega arith
  occurrences-rstrip q (c ∷ s) =
      let h = occurrences-rstrip q s in
      let k = occurrences-cons_kept (q (code c)) c (rstrip q s) in ground arith

  pub occurrences-strip : (s : String) → occurrences (strip s) ≤ occurrences s
  unfolding strip
  occurrences-strip s =
      omega (arith, occurrences-rstrip is_space (lstrip is_space s), occurrences-lstrip is_space s)

  -- none in any part of a text that has none
  abbrev pub Lacks : String → Type 0
  Lacks s = occurrences s ≡ 0

  lead-Lacks : (c : Char) (ws : List String) → Lacks (c ∷ []) → All Lacks ws → All Lacks (lead c ws)
  lead-Lacks c [] h k = ground arith
  lead-Lacks c (w ∷ ws) h k = ground arith

  nonempty-Lacks : (ws : List String) → All Lacks ws → All Lacks (nonempty ws)
  nonempty-Lacks [] h = tt
  nonempty-Lacks ([] ∷ ws) h = nonempty-Lacks ws h.1
  nonempty-Lacks ((c ∷ w) ∷ ws) h = (h.0, nonempty-Lacks ws h.1)

  split_spaces-Lacks : (s : String) → Lacks s → All Lacks (split_spaces s)
  unfolding split_spaces
  split_spaces-Lacks [] h = (refl, tt)
  split_spaces-Lacks (c ∷ s) h =
      let k = split_spaces-Lacks s in let l = lead-Lacks c (split_spaces s) in ground arith

  pub split-Lacks : (s : String) → Lacks s → All Lacks (split s)
  unfolding split
  split-Lacks s h = nonempty-Lacks (split_spaces s) (split_spaces-Lacks s h)

  translate-Lacks :
      (froms tos : String) (c : Char)
      → Lacks tos
      → Lacks (c ∷ [])
      → Lacks (translate froms tos c ∷ [])
  unfolding translate
  translate-Lacks [] tos c h k = k
  translate-Lacks (a ∷ froms) [] c h k = k
  translate-Lacks (a ∷ froms) (b ∷ tos) c h k =
      let rest = translate-Lacks froms tos c in ground arith

  translate_all-Lacks :
      (froms tos s : String) → Lacks tos → Lacks s → Lacks (translate_all froms tos s)
  unfolding translate_all
  translate_all-Lacks froms tos [] h k = refl
  translate_all-Lacks froms tos (c ∷ s) h k =
      let first = translate-Lacks froms tos c h in
      let rest = translate_all-Lacks froms tos s h in ground arith

  pub lower-Lacks : (s : String) → Lacks lowers → Lacks s → Lacks (lower s)
  unfolding lower
  lower-Lacks s h k = translate_all-Lacks uppers lowers s h k

  pub upper-Lacks : (s : String) → Lacks uppers → Lacks s → Lacks (upper s)
  unfolding upper
  upper-Lacks s h k = translate_all-Lacks lowers uppers s h k

-- a class within one that a text lacks
pub Lacks-mono :
    (p q : ℕ → Bool) → ((c : ℕ) → p c ≡ true → q c ≡ true) → (s : String) → Lacks q s → Lacks p s
Lacks-mono p q h [] k = refl
Lacks-mono p q h (c ∷ s) k =
    let rest = Lacks-mono p q h s in let within = h (code c) in ground arith

pub is_empty-lower : (s : String) → is_empty (lower s) ≡ is_empty s
unfolding lower translate_all
is_empty-lower [] = refl
is_empty-lower (c ∷ s) = refl

length-lead : (c : Char) (ws : List String) → 1 ≤ length ws → length (lead c ws) ≡ length ws
length-lead c [] h = ground arith
length-lead c (w ∷ ws) h = refl

length-split_on_pos : (sep : ℕ) (s : String) → 1 ≤ length (split_on sep s)
unfolding split_on
length-split_on_pos sep [] = omega arith
length-split_on_pos sep (c ∷ s) =
    let h = length-split_on_pos sep s in let k = length-lead c (split_on sep s) h in ground arith

pub length-split_on :
    (sep : ℕ) (s : String) → length (split_on sep s) ≡ suc (occurrences (λ c. c == sep) s)
unfolding split_on
length-split_on sep [] = refl
length-split_on sep (c ∷ s) =
    let h = length-split_on sep s in
    let k = length-lead c (split_on sep s) (length-split_on_pos sep s) in ground arith
