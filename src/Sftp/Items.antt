-- ===== src/Sftp/Items.antt =====
-- `end` and `test_items` of older/check_sftp.py.
pub mod Laws
use nagios_plugins.Base.{
  ℕ, zero, suc, String, Bool, true, false, ◌&&◌, Option, none, some, List, [], ◌∷◌, ◌==◌, str_eq,
  if◌then◌else◌, length, any, get_elem?,
}
use nagios_plugins.Text.{◌&◌, split, split_on, first?}
use nagios_plugins.Nagios.{
  ok_status, warning_status, critical_status, unknown_status, Outcome, returned, exited, ◌>>=◌,
  ◌>>◌,
}

-- For status OK the message is not printed.
unfoldable pub end {ℓ} : {A : Type ℓ} → ℕ → String → Outcome A
end status message =
    if status == ok_status
    then exited ok_status "SFTP OK: logged in successfully"
    else if status == warning_status
    then exited warning_status ("WARNING: " & message)
    else if status == critical_status
    then exited critical_status ("CRITICAL: " & message)
    else exited unknown_status ("UNKNOWN: " & message)

-- `line[i]`, for an index within the line
abbrev word_at : ℕ → List String → String
word_at i [] = ""
word_at zero (word ∷ words) = word
word_at (suc i) (word ∷ words) = word_at i words

-- `word[0] == "d"`; a word of a split is never empty
abbrev pub starts_with_d : Option ℕ → Bool
starts_with_d none = false
starts_with_d (some c) = c == b'd'

-- the tests of the inner loop, on the words of a line
unfoldable pub is_entry : (item : String) → List String → Bool
is_entry item line =
    length line == 9 && str_eq item (word_at 8 line) && starts_with_d (first? (word_at 0 line))

-- the inner loop: `found`, after all lines
abbrev pub is_found : (lines : List String) → (item : String) → Bool
is_found lines item = any (λ line. is_entry item (split line)) lines

-- The message shows the function `dir` in place of the item.
unfoldable pub test_each : (lines items : List String) → Outcome (Unit {0})
test_each lines [] = returned tt
test_each lines (item ∷ items) =
    let rest = test_each lines items in
    if is_found lines item
    then rest
    else end critical_status "directory '<built-in function dir>' not found on sftp server"

unfoldable pub test_items : (output : String) → (items : List String) → Outcome (Unit {0})
test_items output items = test_each (split_on b'\n' output) items
