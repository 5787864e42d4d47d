-- ===== src/Regex/Tests.antt =====
-- The matcher on patterns and subjects whose result Python's documentation fixes.
use nagios_plugins.Base.{◌≡◌, refl, none, some, [], ◌∷◌}
use nagios_plugins.Text.Decimal.{is_digit}
use nagios_plugins.Regex.{
  Re, lit, group, bol, eol, star, lazy, re_match, re_search, any, plus, all_of, any_of,
}

-- (\d+) of (\d+)
abbrev of_pair : Re
of_pair = all_of (group (plus is_digit) ∷ lit " of " ∷ group (plus is_digit) ∷ [])

search_groups :
    re_search of_pair "Needed 3 of 17, x" ≡ some (record { groups = "3" ∷ "17" ∷ []; rest = ", x" })
unfolding re_search is_digit
search_groups = refl

match_is_anchored : re_match of_pair "Needed 3 of 17" ≡ none
unfolding re_match is_digit
match_is_anchored = refl

greedy_gives_back :
    re_match (all_of (star any ∷ lit "b" ∷ [])) "abab!" ≡ some (record { groups = []; rest = "!" })
unfolding re_match
greedy_gives_back = refl

lazy_stops_early :
    re_match (all_of (lazy any ∷ lit "b" ∷ [])) "abab!"
    ≡ some (record { groups = []; rest = "ab!" })
unfolding re_match
lazy_stops_early = refl

anchors :
    re_search (any_of (all_of (bol ∷ lit "b" ∷ []) ∷ all_of (lit "a" ∷ eol ∷ []) ∷ [])) "aba\n"
    ≡ some (record { groups = []; rest = "\n" })
unfolding re_search
anchors = refl
