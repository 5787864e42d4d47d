-- ===== src/Regex/Whole.antt =====
-- The pattern `^[...]+$`: what it matches is made of the class, but for a newline at the end.
use Prim.Native.String.{[], ◌∷◌}
use nagios_plugins.Base.{ℕ, code, String, Bool, true, false, List, [], ◌∷◌, ◌≡◌, refl, arith}
use nagios_plugins.Text.Occurrences.{Lacks}
use nagios_plugins.Regex.{
  bol, eol, plus, all_of, run_one, run_star, run, stop, at_end, re_match, found,
}

module _ (p q : ℕ → Bool) (apart : (c : ℕ) → p c ≡ true → q c ≡ false)
    (newline : q 10 ≡ false) where
  at_end-Lacks : (s : String) → at_end s ≡ true → Lacks q s
  at_end-Lacks [] h = refl
  at_end-Lacks (c ∷ []) h = ground (arith, newline)
  at_end-Lacks (c ∷ d ∷ s) h = absurd (cc)

  eol-Lacks :
      (gs : List String) (b : Bool) (s : String) → found (run eol stop gs b s) ≡ true → Lacks q s
  unfolding run
  eol-Lacks gs b s h = let there = at_end-Lacks s in ground arith

  run_star-Lacks :
      (gs : List String) (b : Bool) (s : String)
      → found (run_star p (run eol stop) gs b s) ≡ true
      → Lacks q s
  unfolding run_star
  run_star-Lacks gs b [] h = refl
  run_star-Lacks gs b (c ∷ s) h =
      let more = run_star-Lacks gs false s in
      let here = eol-Lacks gs b (c ∷ s) in let other = apart (code c) in ground arith

  -- A text that the pattern matches lacks every class apart from the pattern's, and newlines.
  pub whole-Lacks :
      (s : String) → found (re_match (all_of (bol ∷ plus p ∷ eol ∷ [])) s) ≡ true → Lacks q s
  unfolding re_match run run_one
  whole-Lacks [] h = refl
  whole-Lacks (c ∷ s) h =
      let more = run_star-Lacks [] false s in let other = apart (code c) in ground arith
