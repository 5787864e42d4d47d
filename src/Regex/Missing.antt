-- ===== src/Regex/Missing.antt =====
-- A literal of a class that the subject lacks makes a match fail.
use Prim.Native.String.{[], ◌∷◌, count}
use nagios_plugins.Base.{
  ℕ, ◌-◌, Char, code, String, Bool, true, false, none, List, [], ◌∷◌, ◌++◌, ◌≡◌, refl, arith, ◌⊎◌,
  inl, inr,
}
use nagios_plugins.Text.Occurrences.{Lacks}
use nagios_plugins.Regex.{
  Re, eps, bol, eol, lit, one, star, lazy, seq, alt, group, Cont, prefix, run_lit, run_one,
  run_star, run_lazy, run, stop, re_match,
}

module _ (p : ℕ → Bool) where
  -- A continuation that fails on all texts that lack the class.
  abbrev pub IsDead : Cont → Type 0
  IsDead k = (gs : List String) (b : Bool) (s : String) → Lacks p s → k gs b s ≡ none

  -- a literal that starts with a character of the class
  run_lit-IsDead :
      (d : Char) (t : String) (k : Cont) → p (code d) ≡ true → IsDead (run_lit (d ∷ t) k)
  unfolding run_lit
  run_lit-IsDead d t k h gs b [] l = refl
  run_lit-IsDead d t k h gs b (c ∷ s) l = ground arith

  lit-IsDead : (t : String) (k : Cont) → IsDead k → IsDead (run_lit t k)
  unfolding run_lit
  lit-IsDead [] k dead gs b s l = dead gs b s l
  lit-IsDead (d ∷ t) k dead gs b [] l = refl
  lit-IsDead (d ∷ t) k dead gs b (c ∷ s) l =
      let rest = lit-IsDead t k dead gs false s in ground arith

  run_one-IsDead : (q : ℕ → Bool) (k : Cont) → IsDead k → IsDead (run_one q k)
  unfolding run_one
  run_one-IsDead q k dead gs b [] l = refl
  run_one-IsDead q k dead gs b (c ∷ s) l = let rest = dead gs false s in ground arith

  run_star-IsDead : (q : ℕ → Bool) (k : Cont) → IsDead k → IsDead (run_star q k)
  unfolding run_star
  run_star-IsDead q k dead gs b [] l = dead gs b [] l
  run_star-IsDead q k dead gs b (c ∷ s) l =
      let more = run_star-IsDead q k dead gs false s in
      let stopped = dead gs b (c ∷ s) l in ground arith

  run_lazy-IsDead : (q : ℕ → Bool) (k : Cont) → IsDead k → IsDead (run_lazy q k)
  unfolding run_lazy
  run_lazy-IsDead q k dead gs b [] l = dead gs b [] l
  run_lazy-IsDead q k dead gs b (c ∷ s) l =
      let more = run_lazy-IsDead q k dead gs false s in
      let stopped = dead gs b (c ∷ s) l in ground arith

  -- What comes in front of a failure fails.
  run-IsDead : (r : Re) (k : Cont) → IsDead k → IsDead (run r k)
  unfolding run
  run-IsDead eps k dead gs b s l = dead gs b s l
  run-IsDead bol k dead gs b s l = let rest = dead gs true s l in ground arith
  run-IsDead eol k dead gs b s l = let rest = dead gs b s l in ground arith
  run-IsDead (lit t) k dead gs b s l = lit-IsDead t k dead gs b s l
  run-IsDead (one q) k dead gs b s l = run_one-IsDead q k dead gs b s l
  run-IsDead (star q) k dead gs b s l = run_star-IsDead q k dead gs b s l
  run-IsDead (lazy q) k dead gs b s l = run_lazy-IsDead q k dead gs b s l
  run-IsDead (seq q r) k dead gs b s l = run-IsDead q (run r k) (run-IsDead r k dead) gs b s l
  run-IsDead (alt q r) k dead gs b s l =
      let first = run-IsDead q k dead gs b s l in
      let second = run-IsDead r k dead gs b s l in ground arith
  run-IsDead (group r) k dead gs b s l =
      run-IsDead r _ (λ hs b' s' l'. dead (hs ++ prefix (count s - count s') s ∷ []) b' s' l') gs b
        s l

  -- A pattern with a literal, outside every repetition, that starts with a character of the class.
  abbrev pub IsNeeded : Re → Type 0
  IsNeeded (lit (d ∷ t)) = p (code d) ≡ true
  IsNeeded (seq q r) = IsNeeded q ⊎ IsNeeded r
  IsNeeded _ = ⊥

  needed-IsDead : (r : Re) (k : Cont) → IsNeeded r → IsDead (run r k)
  unfolding run
  needed-IsDead eps k n gs b s l = elim n [ ]
  needed-IsDead bol k n gs b s l = elim n [ ]
  needed-IsDead eol k n gs b s l = elim n [ ]
  needed-IsDead (lit []) k n gs b s l = elim n [ ]
  needed-IsDead (one q) k n gs b s l = elim n [ ]
  needed-IsDead (star q) k n gs b s l = elim n [ ]
  needed-IsDead (lazy q) k n gs b s l = elim n [ ]
  needed-IsDead (alt q r) k n gs b s l = elim n [ ]
  needed-IsDead (group r) k n gs b s l = elim n [ ]
  needed-IsDead (lit (d ∷ t)) k n gs b s l = run_lit-IsDead d t k n gs b s l
  needed-IsDead (seq q r) k (inl n) gs b s l = needed-IsDead q (run r k) n gs b s l
  needed-IsDead (seq q r) k (inr n) gs b s l = run-IsDead q (run r k) (needed-IsDead r k n) gs b s l

  -- Such a pattern does not match a text that lacks the class.
  pub needed-re_match : (r : Re) (s : String) → IsNeeded r → Lacks p s → re_match r s ≡ none
  unfolding re_match
  needed-re_match r s n l = needed-IsDead r stop n [] true s l
