-- ===== src/Regex/Groups.antt =====
-- A class of characters that the subject lacks is one that every captured group lacks.
use Prim.Native.String.{[], ◌∷◌, count}
use nagios_plugins.Base.{
  ℕ, zero, suc, ◌-◌, String, Bool, true, false, some, List, [], ◌∷◌, ◌++◌, ◌≡◌, refl, arith, All,
}
use nagios_plugins.Text.Occurrences.{Lacks}
use nagios_plugins.Regex.{
  Re, eps, bol, eol, lit, one, star, lazy, seq, alt, group, Match, Cont, prefix, run_lit, run_one,
  run_star, run_lazy, run, stop, re_search, search_from,
}

module _ (p : ℕ → Bool) where
  -- what holds of a continuation whose groups all lack the class
  abbrev IsClean : Cont → Type 0
  IsClean k =
      (gs : List String) (b : Bool) (s : String) (m : Match)
      → All (Lacks p) gs
      → Lacks p s
      → k gs b s ≡ some m
      → All (Lacks p) m.groups

  prefix-Lacks : (n : ℕ) (s : String) → Lacks p s → Lacks p (prefix n s)
  prefix-Lacks zero s h = refl
  prefix-Lacks (suc n) [] h = refl
  prefix-Lacks (suc n) (c ∷ s) h = let k = prefix-Lacks n s in ground arith

  append-Lacks :
      (gs : List String) (g : String) → All (Lacks p) gs → Lacks p g → All (Lacks p) (gs ++ g ∷ [])
  append-Lacks [] g h k = (k, tt)
  append-Lacks (x ∷ gs) g h k = (h.0, append-Lacks gs g h.1 k)

  run_lit-IsClean : (t : String) (k : Cont) → IsClean k → IsClean (run_lit t k)
  unfolding run_lit
  run_lit-IsClean [] k c gs b s m l h e = c gs b s m l h e
  run_lit-IsClean (d ∷ t) k c gs b [] m l h e = absurd (cc)
  run_lit-IsClean (d ∷ t) k c gs b (x ∷ s) m l h e =
      let rest = run_lit-IsClean t k c gs false s m l in ground arith

  run_one-IsClean : (q : ℕ → Bool) (k : Cont) → IsClean k → IsClean (run_one q k)
  unfolding run_one
  run_one-IsClean q k c gs b [] m l h e = absurd (cc)
  run_one-IsClean q k c gs b (x ∷ s) m l h e = let rest = c gs false s m l in ground arith

  run_star-IsClean : (q : ℕ → Bool) (k : Cont) → IsClean k → IsClean (run_star q k)
  unfolding run_star
  run_star-IsClean q k c gs b [] m l h e = c gs b [] m l h e
  run_star-IsClean q k c gs b (x ∷ s) m l h e =
      let more = run_star-IsClean q k c gs false s m l in
      let stopped = c gs b (x ∷ s) m l h in ground arith

  run_lazy-IsClean : (q : ℕ → Bool) (k : Cont) → IsClean k → IsClean (run_lazy q k)
  unfolding run_lazy
  run_lazy-IsClean q k c gs b [] m l h e = c gs b [] m l h e
  run_lazy-IsClean q k c gs b (x ∷ s) m l h e =
      let more = run_lazy-IsClean q k c gs false s m l in
      let stopped = c gs b (x ∷ s) m l h in ground arith

  run-IsClean : (r : Re) (k : Cont) → IsClean k → IsClean (run r k)
  unfolding run
  run-IsClean eps k c gs b s m l h e = c gs b s m l h e
  run-IsClean bol k c gs b s m l h e = let rest = c gs true s m l h in ground arith
  run-IsClean eol k c gs b s m l h e = let rest = c gs b s m l h in ground arith
  run-IsClean (lit t) k c gs b s m l h e = run_lit-IsClean t k c gs b s m l h e
  run-IsClean (one q) k c gs b s m l h e = run_one-IsClean q k c gs b s m l h e
  run-IsClean (star q) k c gs b s m l h e = run_star-IsClean q k c gs b s m l h e
  run-IsClean (lazy q) k c gs b s m l h e = run_lazy-IsClean q k c gs b s m l h e
  run-IsClean (seq q r) k c gs b s m l h e =
      run-IsClean q (run r k) (run-IsClean r k c) gs b s m l h e
  run-IsClean (alt q r) k c gs b s m l h e =
      let first = run-IsClean q k c gs b s m l h in
      let second = run-IsClean r k c gs b s m l h in ground arith
  run-IsClean (group r) k c gs b s m l h e =
      run-IsClean r _
        (λ hs b' s' m' l' h' e'.
          c (hs ++ prefix (count s - count s') s ∷ []) b' s' m'
            (append-Lacks hs (prefix (count s - count s') s) l'
              (prefix-Lacks (count s - count s') s h))
            h' e')
        gs b s m l h e

  stop-IsClean : IsClean stop
  stop-IsClean gs b s m l h e = ground arith

  search_from-Lacks :
      (r : Re) (b : Bool) (s : String) (m : Match)
      → Lacks p s
      → search_from r b s ≡ some m
      → All (Lacks p) m.groups
  unfolding search_from
  search_from-Lacks r b [] m h e = run-IsClean r stop stop-IsClean [] b [] m tt h e
  search_from-Lacks r b (c ∷ s) m h e =
      let here = run-IsClean r stop stop-IsClean [] b (c ∷ s) m tt h in
      let later = search_from-Lacks r false s m in ground arith

  -- Every group that a search captures lacks a class of characters that the subject lacks.
  pub re_search-Lacks :
      (r : Re) (s : String) (m : Match)
      → Lacks p s
      → re_search r s ≡ some m
      → All (Lacks p) m.groups
  unfolding re_search
  re_search-Lacks r s m h e = search_from-Lacks r true s m h e
