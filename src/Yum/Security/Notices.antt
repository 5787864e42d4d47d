-- ===== src/Yum/Security/Notices.antt =====
-- What the loop of `yum_updateinfo` in check_yum.py adds up.
use nagios_plugins.Base.{
  ℕ, ◌+◌, String, Option, none, some, List, [], ◌∷◌, ◌≡◌, ap, sum_of, arith, ◌∙◌,
}
use nagios_plugins.Regex.{Match, re_match}
use nagios_plugins.Nagios.{Outcome, returned, >>=-eq-returned}
use nagios_plugins.Yum.Security.{
  int_group, or_keep, re_security_notices, re_bugfix_notices, count_notices,
}

abbrev got : ℕ → Outcome ℕ → ℕ
got d (returned n) = n
got d _ = d

-- The number that a line announces, if it is a notice of the kind.
abbrev pub number_in : ℕ → Option Match → ℕ
number_in d none = d
number_in d (some m) = got d (int_group 0 m)

-- The bugfix notices of a line, and the security notices of the last line that has some.
abbrev pub bugfixes : String → ℕ
bugfixes line = number_in 0 (re_match re_bugfix_notices line)

abbrev pub last_security : ℕ → List String → ℕ
last_security n [] = n
last_security n (line ∷ lines) =
    last_security (number_in n (re_match re_security_notices line)) lines

kept : (n : ℕ) (m : Option Match) (k : ℕ) → or_keep (λ k. k) n m ≡ returned k → k ≡ number_in n m
kept n none k h = ground arith
kept n (some m) k h = ground arith

added :
    (n : ℕ) (m : Option Match) (k : ℕ)
    → or_keep (λ k. n + k) n m ≡ returned k
    → k ≡ n + number_in 0 m
added n none k h = ground arith
added n (some m) k h = ground arith

-- When the loop ends with a result from any two starting values, its total is the starting total
-- plus the sum of the bugfix notices over all lines, security notices not included, and its
-- security count is that of the last line with security notices, or the starting one.
pub count_notices_lem :
    (security total : ℕ) (lines : List String) (s t : ℕ)
    → count_notices security total lines ≡ returned (s, t)
    → (t ≡ total + sum_of bugfixes lines) × (s ≡ last_security security lines)
unfolding count_notices
count_notices_lem security total [] s t h = ground arith
count_notices_lem security total (line ∷ lines) s t h =
    let (s', e₁, h₁) =
      >>=-eq-returned (or_keep (λ k. k) security (re_match re_security_notices line)) _ h in
    let (t', e₂, h₂) =
      >>=-eq-returned (or_keep (λ k. total + k) total (re_match re_bugfix_notices line)) _ h₁ in
    let (sum, last) = count_notices_lem s' t' lines s t h₂ in
    let a = added total (re_match re_bugfix_notices line) t' e₂ in
    let b = kept security (re_match re_security_notices line) s' e₁ in
    (omega (arith, sum, a), last ∙ ap (λ n. last_security n lines) b)
