-- ===== src/Text/Laws.antt =====
-- Laws of the text functions that the plugins' theorems use.
use Prim.Native.String.{[], ◌∷◌}
use nagios_plugins.Base.{ℕ, String, List, [], ◌∷◌, ◌≡◌, ◌≢◌, refl, arith}
use nagios_plugins.Text.{lead, split_on, split, strip, join}

split_words : split "  a bc\td\n" ≡ "a" ∷ "bc" ∷ "d" ∷ []
unfolding split
split_words = refl

split_lines : split_on b'\n' "a\n\nb" ≡ "a" ∷ "" ∷ "b" ∷ []
unfolding split_on
split_lines = refl

strip_both : strip " \ta b \n" ≡ "a b"
unfolding strip
strip_both = refl

join_three : join ", " ("a" ∷ "b" ∷ "c" ∷ []) ≡ "a, b, c"
unfolding join
join_three = refl

lead-ne-nil : (c : Prim.Native.Char.Char) (ws : List String) → lead c ws ≢ []
lead-ne-nil c [] = ground arith
lead-ne-nil c (w ∷ ws) = ground arith

-- `str.split(sep)` never returns an empty list.
pub split_on-ne-nil : (sep : ℕ) (s : String) → split_on sep s ≢ []
unfolding split_on
split_on-ne-nil sep [] = ground arith
split_on-ne-nil sep (c ∷ s) = ground (arith, lead-ne-nil c (split_on sep s))
