-- ===== src/Portage/Timestamp.antt =====
-- `validate_portage_tree_age`, `get_portage_timestamp` and `test_portage_current` of
-- older/check_gentoo_portage.py. An age is kept in seconds, and floats stand for the quotients
-- that they are near to.
pub mod Laws
use nagios_plugins.Base.{
  ℕ, ◌+◌, ◌*◌, String, Bool, true, false, not, ◌||◌, Option, none, some, List, [], ◌∷◌, ltb,
  if◌then◌else◌, ◌⊎◌, inl, inr,
}
use nagios_plugins.Base.Int.{ℤ, pos, negsuc, ◌-ℤ◌, ltb_ℤ}
pub use nagios_plugins.Base.Float.{Float, nan, inf, neg_inf, ratio}
use nagios_plugins.Text.{◌&◌, strip, is_empty}
use nagios_plugins.Nagios.{
  ok_status, warning_status, critical_status, unknown_status, Outcome, returned, when, ◌>>=◌, ◌>>◌,
}
use nagios_plugins.Portage.Exclusions.{end}

-- The touch files; the first line of one is an IOError's text or the line.
pub record Files : Type 0 where
  pub exists : String → Bool
  pub readable : String → Bool
  pub mod_date : String → ℕ
  pub first_line : String → String ⊎ String

-- The functions of `time`, at the format of the time stamps; `hours` is "%.1f" of an age.
pub record Clock : Type 0 where
  pub this_month : ℕ
  pub strptime : String → Option (List ℤ)
  pub mktime : List ℤ → Option ℤ
  pub now : String
  pub hours : ℤ → String

abbrev pub timestamp_locations : List String
timestamp_locations =
    "/var/db/repos/gentoo/metadata/timestamp.chk" ∷ "/usr/portage/metadata/timestamp.chk"
    ∷ "/var/cache/edb/dep/timestamp.chk" ∷ []

-- `x < 0.1 or x > 744`
abbrev pub out_of_range : Float → Bool
out_of_range nan = false
out_of_range inf = true
out_of_range neg_inf = true
out_of_range (ratio (negsuc n) d) = true
out_of_range (ratio (pos n) d) = ltb (10 * n) (d + 1) || ltb (744 * (d + 1)) n

abbrev as_float : (String → Option Float) → Option String → Option Float
as_float float none = some (ratio (pos 25) 0)
as_float float (some s) = float s

-- `float` is Python's; nothing is its ValueError.
unfoldable pub validate_portage_tree_age :
    (float : String → Option Float) → Option String → Outcome Float
validate_portage_tree_age float age = elim (as_float float age) [
  | none ↦
      end unknown_status
        "Max portage tree age must be specified as a number representing hours, decimals accepted"
  | some x ↦
      if out_of_range x
      then end unknown_status "Max portage tree age must be between 0.1 and 744 hours"
      else returned x
]

-- one round of the loop, with `timestamp_file_mod_date` and `timestamp_file`
unfoldable pub consider : Files → String → ℕ × String → Outcome (ℕ × String)
consider f touchfile (date, file) =
    if not (f.exists touchfile)
    then returned (date, file)
    else if not (f.readable touchfile)
    then end critical_status (
        "Error - cannot read latest portage timestamp due to restrictive permissions on file '"
        & touchfile & "'")
    else if ltb date (f.mod_date touchfile)
    then returned (f.mod_date touchfile, touchfile)
    else returned (date, file)

unfoldable pub newest : Files → List String → ℕ × String → Outcome (ℕ × String)
newest f [] found = returned found
newest f (touchfile ∷ touchfiles) found = consider f touchfile found >>= newest f touchfiles

abbrev line_of : String ⊎ String → Outcome String
line_of (inl io_error) =
    end critical_status
      ("Error reading timestamp information, cannot verify Portage is current. Error - " & io_error)
line_of (inr line) = returned (strip line)

unfoldable pub get_portage_timestamp : Files → Outcome String
get_portage_timestamp f = do
  (date, file) ← newest f timestamp_locations (0, "")
  when (is_empty file) (
      end critical_status
        "Error - no portage timestamp file could be found, please update to latest version of this plugin and portage ('emerge portage'). If problem persists, contact the author")
  line_of (f.first_line file)

-- `age > max_portage_tree_age`, for an age in seconds and a maximum in hours
abbrev pub is_older : ℤ → Float → Bool
is_older age nan = false
is_older age inf = false
is_older age neg_inf = true
is_older (pos s) (ratio (pos n) d) = ltb (3600 * n) (s * (d + 1))
is_older (pos s) (ratio (negsuc n) d) = true
is_older (negsuc s) (ratio (pos n) d) = false
is_older (negsuc s) (ratio (negsuc n) d) = ltb ((s + 1) * (d + 1)) (3600 * (n + 1))

abbrev or_end {ℓ} : {A : Type ℓ} → String → Option A → Outcome A
or_end message none = end unknown_status message
or_end message (some a) = returned a

unfoldable pub test_portage_current : Files → Clock → (max_age : Float) → Outcome ℤ
test_portage_current f clock max_age = do
  timestamp ← get_portage_timestamp f
  when (is_empty timestamp) (
      end unknown_status
        "Cannot determine timestamp of last portage sync. There is no guarantee that security package info will be current")
  tree ←
      or_end
        ("Error converting portage timestamp from '" & timestamp
          & "'. It is likely the format has changed and the plugin needs to be updated to reflect this, please contact author")
        (clock.strptime timestamp)
  current ←
      or_end
        "Internal python error converting current time to the right format, please contact author"
        (clock.strptime clock.now)
  tree_time ←
      or_end "Plugin internal time conversion error on portage tree time, please contact author"
        (clock.mktime tree)
  now ←
      or_end "Plugin internal time conversion error on local time, please contact author"
        (clock.mktime current)
  let portage_age = now -ℤ tree_time
  when (is_older portage_age max_age) (
      end critical_status (
        "Portage tree is "
        & clock.hours portage_age
        & " hours out of date, security package information is not reliable"))
  when (ltb_ℤ portage_age (pos 0))
      (end warning_status ("Portage tree timestamp is in the future! (" & timestamp & ")"))
  returned portage_age
