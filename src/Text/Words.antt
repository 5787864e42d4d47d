-- ===== src/Text/Words.antt =====
-- `split`, `join` and `rstrip` on words, that is texts with no white space.
use Prim.Native.String.{[], ◌∷◌}
use Prim.Native.String.append.{nil, cons}
use nagios_plugins.Base.{
  ℕ, Char, code, String, Bool, true, false, List, [], ◌∷◌, ◌≡◌, refl, ap, ◌∙◌, arith, All,
}
use nagios_plugins.Text.{
  ◌&◌, is_space, is_empty, lead, nonempty, split_spaces, split, rstrip, cons_kept, join,
}
use nagios_plugins.Text.Occurrences.{Lacks, occurrences-append}

abbrev pub IsWord : String → Type 0
IsWord w = Lacks is_space w × (is_empty w ≡ false)

abbrev blank : ℕ
blank = 32

lead_first : (c : Char) (w : String) (ws : List String) → lead c (w ∷ ws) ≡ (c ∷ w) ∷ ws
lead_first c w ws = refl

split_spaces-word : (w : String) → Lacks is_space w → split_spaces w ≡ w ∷ []
unfolding split_spaces
split_spaces-word [] h = refl
split_spaces-word (c ∷ w) h = let rest = split_spaces-word w in ground arith

split_spaces-front :
    (w s : String) → Lacks is_space w → split_spaces (w & " " & s) ≡ w ∷ split_spaces s
unfolding split_spaces is_space
split_spaces-front [] s h = rw (nil, cons, nil) refl
split_spaces-front (c ∷ w) s h = let rest = split_spaces-front w s in rw cons (ground arith)

nonempty-word :
    (w : String) (ws : List String) → is_empty w ≡ false → nonempty (w ∷ ws) ≡ w ∷ nonempty ws
nonempty-word w ws h = rw h refl

pub split-front : (w s : String) → IsWord w → split (w & " " & s) ≡ w ∷ split s
unfolding split
split-front w s h = rw (split_spaces-front w s h.0) (nonempty-word w (split_spaces s) h.1)

pub split-word : (w : String) → IsWord w → split w ≡ w ∷ []
unfolding split
split-word w h = rw (split_spaces-word w h.0) (nonempty-word w [] h.1)

-- Words joined by blanks split into these words.
pub split-join : (ws : List String) → All IsWord ws → split (join " " ws) ≡ ws
unfolding join
split-join [] h = unfold split split_spaces in refl
split-join (w ∷ []) h = split-word w h.0
split-join (w ∷ v ∷ ws) h =
    split-front w (join " " (v ∷ ws)) h.0 ∙ ap (λ r. w ∷ r) (split-join (v ∷ ws) h.1)

cons_kept-nonempty :
    (b : Bool) (c : Char) (s : String) → is_empty s ≡ false → cons_kept b c s ≡ c ∷ s
cons_kept-nonempty true c [] h = absurd (cc)
cons_kept-nonempty true c (d ∷ s) h = refl
cons_kept-nonempty false c s h = refl

pub is_empty-append : (s t : String) → is_empty t ≡ false → is_empty (s & t) ≡ false
is_empty-append [] t h = rw nil h
is_empty-append (c ∷ s) t h = rw cons refl

-- a fixed text in front of a word, or behind it
pub IsWord-append : (s t : String) → Lacks is_space s → IsWord t → IsWord (s & t)
IsWord-append s t h k =
    (omega (arith, occurrences-append is_space s t, h, k.0), is_empty-append s t k.1)

pub is_empty-front : (s t : String) → is_empty s ≡ false → is_empty (s & t) ≡ false
is_empty-front [] t h = absurd (cc)
is_empty-front (c ∷ s) t h = rw cons refl

-- a word with a text that has no white space behind it
pub IsWord-front : (s t : String) → IsWord s → Lacks is_space t → IsWord (s & t)
IsWord-front [] t h k = absurd (cc)
IsWord-front (c ∷ s) t h k =
    (omega (arith, occurrences-append is_space (c ∷ s) t, h.0, k), rw cons refl)

-- each word with a blank behind it
abbrev pub spaced : List String → String
spaced [] = ""
spaced (word ∷ words) = word & " " & spaced words

-- A text that is not empty, of characters that are not stripped.
abbrev pub IsSolid : (ℕ → Bool) → String → Type 0
IsSolid p w = Lacks p w × (is_empty w ≡ false)

is_empty-join :
    (w : String) (ws : List String) → is_empty w ≡ false → is_empty (join " " (w ∷ ws)) ≡ false
unfolding join
is_empty-join w [] h = h
is_empty-join [] (v ∷ ws) h = absurd (cc)
is_empty-join (c ∷ w) (v ∷ ws) h = rw cons refl

module _ (p : ℕ → Bool) where
  -- What a text ends in, if some of it stays, is stripped alone.
  rstrip-append : (s t : String) → is_empty (rstrip p t) ≡ false → rstrip p (s & t) ≡ s & rstrip p t
  unfolding rstrip
  rstrip-append [] t h = rw (nil, nil) refl
  rstrip-append (c ∷ s) t h =
      let kept =
        cons_kept-nonempty (p (code c)) c (s & rstrip p t) (is_empty-append s (rstrip p t) h) in
      rw (cons, cons, rstrip-append s t h) kept

  module _ (stripped : p blank ≡ true) where
    rstrip-blank : (w : String) → Lacks p w → rstrip p (w & " ") ≡ w
    unfolding rstrip
    rstrip-blank [] h = rw stripped refl
    rstrip-blank (c ∷ w) h = let rest = rstrip-blank w in rw cons (ground arith)

    -- The text that has each word with a blank behind it, without the last blank.
    pub rstrip-spaced :
        (w : String) (ws : List String)
        → All (IsSolid p) (w ∷ ws)
        → rstrip p (spaced (w ∷ ws)) ≡ join " " (w ∷ ws)
    unfolding join
    rstrip-spaced w [] h = rstrip-blank w h.0.0
    rstrip-spaced w (v ∷ ws) h =
        let rest = rstrip-spaced v ws h.1 in
        let solid = is_empty-join v ws h.1.0.1 in
        let inner = rstrip-append " " (spaced (v ∷ ws)) (rw rest solid) in
        let there : is_empty (rstrip p (" " & spaced (v ∷ ws))) ≡ false =
          rw (inner, rest) (is_empty-append " " (join " " (v ∷ ws)) solid) in
        rstrip-append w (" " & spaced (v ∷ ws)) there
        ∙ ap (λ t. w & t) (inner ∙ ap (λ t. " " & t) rest)
