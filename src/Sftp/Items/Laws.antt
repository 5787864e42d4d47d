-- ===== src/Sftp/Items/Laws.antt =====
-- Which items older/check_sftp.py finds in a listing.
use nagios_plugins.Base.{
  String, true, some, List, [], ◌∷◌, ◌≡◌, ◌↔◌, inl, inr, refl, arith, All, Any, Bool-cases, eq_iff,
}
use nagios_plugins.Text.{split, split_on, first?}
use nagios_plugins.Nagios.{returned, Fails}
use nagios_plugins.Sftp.Items.{end, is_entry, is_found, test_each, test_items}

-- A line of nine words, the first of which begins with "d" and the last of which is the item.
abbrev pub IsDirectory : (item line : String) → Type 0
IsDirectory item line =
    (mode a b c d e f g : String) × (split line ≡ mode ∷ a ∷ b ∷ c ∷ d ∷ e ∷ f ∷ g ∷ item ∷ [])
    × (first? mode ≡ some b'd')

-- the output has such a line
abbrev pub IsListed : (output item : String) → Type 0
IsListed output item = Any (IsDirectory item) (split_on b'\n' output)

entry_words :
    (item : String) (words : List String)
    → is_entry item words ≡ true
    → (mode a b c d e f g : String) × (words ≡ mode ∷ a ∷ b ∷ c ∷ d ∷ e ∷ f ∷ g ∷ item ∷ [])
      × (first? mode ≡ some b'd')
unfolding is_entry
entry_words item (m ∷ a ∷ b ∷ c ∷ d ∷ e ∷ f ∷ g ∷ i ∷ []) h =
    (m, a, b, c, d, e, f, g, ground (arith, h, eq_iff item i), ground (arith, h))
entry_words item _ h = absurd (ground (arith, h))

words-entry :
    (item mode a b c d e f g : String)
    → first? mode ≡ some b'd'
    → is_entry item (mode ∷ a ∷ b ∷ c ∷ d ∷ e ∷ f ∷ g ∷ item ∷ []) ≡ true
unfolding is_entry
words-entry item mode a b c d e f g h = ground (arith, h, eq_iff item item)

found-IsListed :
    (item : String) (lines : List String)
    → is_found lines item ≡ true
    → Any (IsDirectory item) lines
found-IsListed item [] h = absurd (cc)
found-IsListed item (line ∷ lines) h = elim (Bool-cases (is_entry item (split line))) [
  | inl entry ↦ inl (entry_words item (split line) entry)
  | inr other ↦ inr (found-IsListed item lines (rw other at h))
]

IsListed-found :
    (item : String) (lines : List String)
    → Any (IsDirectory item) lines
    → is_found lines item ≡ true
IsListed-found item [] h = absurd h
IsListed-found item (line ∷ lines) (inl (m, a, b, c, d, e, f, g, words, directory)) =
    rw (words, words-entry item m a b c d e f g directory) refl
IsListed-found item (line ∷ lines) (inr h) = let rest = IsListed-found item lines h in ground arith

test_each-Fails : (lines items : List String) → Fails (test_each lines items)
unfolding test_each end
test_each-Fails lines [] = tt
test_each-Fails lines (item ∷ items) = let rest = test_each-Fails lines items in ground arith

test_each-All :
    (lines items : List String)
    → test_each lines items ≡ returned tt
    → All (λ item. Any (IsDirectory item) lines) items
unfolding test_each end
test_each-All lines [] h = tt
test_each-All lines (item ∷ items) h = elim (Bool-cases (is_found lines item)) [
  | inl found ↦ (found-IsListed item lines found, test_each-All lines items (rw found at h))
  | inr missing ↦ absurd (cc (rw missing at h))
]

All-test_each :
    (lines items : List String)
    → All (λ item. Any (IsDirectory item) lines) items
    → test_each lines items ≡ returned tt
unfolding test_each
All-test_each lines [] h = refl
All-test_each lines (item ∷ items) h =
    rw (IsListed-found item lines h.0) (All-test_each lines items h.1)

pub test_items-Fails : (output : String) (items : List String) → Fails (test_items output items)
unfolding test_items
test_items-Fails output items = test_each-Fails (split_on b'\n' output) items

-- The test of the items passes exactly if each is the name of a directory in the listing.
pub test_items_iff :
    (output : String) (items : List String)
    → (test_items output items ≡ returned tt) ↔ All (IsListed output) items
unfolding test_items
test_items_iff output items = (test_each-All _ items, All-test_each _ items)
