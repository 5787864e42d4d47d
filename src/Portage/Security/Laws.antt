-- ===== src/Portage/Security/Laws.antt =====
-- The lines that older/check_gentoo_portage.py takes for security updates have a word.
use Prim.Native.String.{[], ◌∷◌}
use nagios_plugins.Base.{
  ℕ, String, Bool, true, not, List, [], ◌∷◌, ◌≡◌, ◌≢◌, refl, ap, arith, All, Bool-cases, inl, inr,
}
use nagios_plugins.Text.{split, split_spaces, nonempty, is_space}
use nagios_plugins.Text.Occurrences.{Lacks}
use nagios_plugins.Regex.{re_match, found}
use nagios_plugins.Regex.Missing.{IsNeeded, needed-re_match}
use nagios_plugins.Portage.Security.{
  re_package_line, is_security_package, is_applied_package, lines_with,
}

abbrev is_visible : ℕ → Bool
is_visible c = not (is_space c)

blank_of_no_words : (s : String) → nonempty (split_spaces s) ≡ [] → Lacks is_visible s
unfolding split_spaces is_space
blank_of_no_words [] h = refl
blank_of_no_words (c ∷ s) h = let rest = blank_of_no_words s in ground arith

split-blank : (s : String) → split s ≡ [] → Lacks is_visible s
unfolding split
split-blank s h = blank_of_no_words s h

-- A line that has a word, so that `split()[0]` is there.
abbrev pub HasWord : String → Type 0
HasWord line = split line ≢ []

re_package_line-HasWord :
    (tag line : String)
    → IsNeeded is_visible (re_package_line tag)
    → found (re_match (re_package_line tag) line) ≡ true
    → HasWord line
re_package_line-HasWord tag line n h e =
    let fails = needed-re_match is_visible (re_package_line tag) line n (split-blank line e) in
    cc (ap found fails, h)

pub security-HasWord : (line : String) → is_security_package line ≡ true → HasWord line
unfolding is_security_package is_space
security-HasWord line h = re_package_line-HasWord "[N]" line (inr (inr (inr (inr (inl refl))))) h

pub applied-HasWord : (line : String) → is_applied_package line ≡ true → HasWord line
unfolding is_applied_package is_space
applied-HasWord line h = re_package_line-HasWord "[A]" line (inr (inr (inr (inr (inl refl))))) h

pub lines_with-All :
    (test : String → Bool) (P : String → Type 0)
    → ((line : String) → test line ≡ true → P line)
    → (lines : List String) → All P (lines_with test lines)
lines_with-All test P h [] = tt
lines_with-All test P h (line ∷ lines) = elim (Bool-cases (test line)) [
  | inl listed ↦ rw listed (h line listed, lines_with-All test P h lines)
  | inr other ↦ rw other (lines_with-All test P h lines)
]
