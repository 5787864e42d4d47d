-- ===== src/Portage/Timestamp/Laws.antt =====
-- The touch file that older/check_gentoo_portage.py reads, and the age that it accepts.
use nagios_plugins.Base.{
  ℕ, ◌≤◌, String, Bool, true, false, Option, none, some, List, [], ◌∷◌, ◌≡◌, refl, ◌∙◌, arith, ◌⊎◌,
  inl, inr, All, Any,
}
use nagios_plugins.Base.Int.{ℤ, pos, ◌-ℤ◌, ltb_ℤ}
use nagios_plugins.Text.{strip, is_empty}
use nagios_plugins.Nagios.{returned, when, ◌>>◌, >>=-eq-returned}
use nagios_plugins.Portage.Exclusions.{end}
use nagios_plugins.Portage.Timestamp.{
  Float, Files, Clock, timestamp_locations, consider, newest, line_of, or_end,
  get_portage_timestamp, is_older, test_portage_current,
}

line_of-inr :
    (first_line : String ⊎ String) (timestamp : String)
    → line_of first_line ≡ returned timestamp
    → (line : String) × (first_line ≡ inr line) × (strip line ≡ timestamp)
unfolding end
line_of-inr (inl io_error) timestamp h = absurd (cc)
line_of-inr (inr line) timestamp h = (line, refl, ground (arith, h))

module _ (f : Files) where
  -- a touch file that is there is not newer than this date
  abbrev pub IsCovered : ℕ → String → Type 0
  IsCovered date touchfile = f.exists touchfile ≡ true → f.mod_date touchfile ≤ date

  -- a touch file of the list that is there and readable, and has this date
  abbrev pub IsFound : ℕ × String → String → Type 0
  IsFound (date, file) touchfile =
      (touchfile ≡ file)
      × (f.exists touchfile ≡ true)
      × (f.readable touchfile ≡ true)
      × (f.mod_date touchfile ≡ date)

  consider_lem :
      (touchfile : String) (found later : ℕ × String)
      → consider f touchfile found ≡ returned later
      → (found.0 ≤ later.0)
        × IsCovered later.0 touchfile
        × ((later ≡ found) ⊎ IsFound later touchfile)
  unfolding consider end
  consider_lem touchfile (date, file) (later, name) h = ground (arith, h)

  IsCovered-later :
      (date later : ℕ) (touchfiles : List String)
      → date ≤ later
      → All (IsCovered date) touchfiles
      → All (IsCovered later) touchfiles
  IsCovered-later date later [] h k = tt
  IsCovered-later date later (t ∷ touchfiles) h k =
      (λ e. omega (arith, k.0 e, h), IsCovered-later date later touchfiles h k.1)

  newest_lem :
      (touchfiles : List String) (found later : ℕ × String)
      → newest f touchfiles found ≡ returned later
      → (found.0 ≤ later.0)
        × All (IsCovered later.0) touchfiles
        × ((later ≡ found) ⊎ Any (IsFound later) touchfiles)
  unfolding newest
  newest_lem [] found later h = ground (arith, h)
  newest_lem (t ∷ touchfiles) found later h =
      let (middle, first, others) = >>=-eq-returned (consider f t found) (newest f touchfiles) h in
      let (up, covered, origin) = consider_lem t found middle first in
      let (more, rest, source) = newest_lem touchfiles middle later others in
      (
        omega (arith, up, more),
        (λ e. omega (arith, covered e, more), rest),
        elim source [
          | inr there ↦ inr (inr there)
          | inl kept ↦ elim origin [
            | inl old ↦ inl (kept ∙ old)
            | inr here ↦ inr (inl (rw kept here))
          ]
        ],
      )

  -- the stripped first line of a touch file of the list that is there and readable, where no touch
  -- file that is there is newer
  abbrev pub IsNewest : (timestamp : String) → Type 0
  IsNewest timestamp =
      (date : ℕ) × (file line : String) × Any (IsFound (date, file)) timestamp_locations
      × All (IsCovered date) timestamp_locations
      × (f.first_line file ≡ inr line)
      × (strip line ≡ timestamp)

  get_portage_timestamp_lem :
      (timestamp : String) → get_portage_timestamp f ≡ returned timestamp → IsNewest timestamp
  unfolding get_portage_timestamp end
  get_portage_timestamp_lem timestamp h =
      let ((date, file), first, read) =
        >>=-eq-returned (newest f timestamp_locations (0, "")) _ h in
      let (up, covered, origin) = newest_lem timestamp_locations (0, "") (date, file) first in
      elim origin [
        | inl nothing ↦ absurd (cc (nothing, read))
        | inr there ↦
            let (u, named, got) = >>=-eq-returned (when (is_empty file) _) _ read in
            let (line, first_line, stripped) = line_of-inr (f.first_line file) timestamp got in
            (date, file, line, there, covered, first_line, stripped)
      ]

or_end-some {ℓ} :
    {A : Type ℓ} (message : String) (o : Option A) {a : A}
    → or_end message o ≡ returned a
    → o ≡ some a
unfolding end
or_end-some message none h = absurd (cc)
or_end-some message (some b) h = ground (arith, h)

age_checked :
    (old future : Bool) (message note : String) (age portage_age : ℤ)
    → (when old (end 2 message) >> (when future (end 1 note) >> returned portage_age))
      ≡ returned age
    → (age ≡ portage_age) × (old ≡ false) × (future ≡ false)
unfolding end
age_checked old future message note age portage_age h = ground (arith, h)

-- test_portage_current returns an age where the time stamp is the stripped first line of a readable
-- touch file than which none is newer, and both times are known; the age is their difference, is not
-- negative, and is not more than the maximum.
pub test_portage_current_lem :
    (f : Files) (clock : Clock) (max_age : Float) (age : ℤ)
    → test_portage_current f clock max_age ≡ returned age
    → (timestamp : String) × (tree now : List ℤ) × (tree_time now_time : ℤ) × IsNewest f timestamp
      × (clock.strptime timestamp ≡ some tree)
      × (clock.strptime clock.now ≡ some now)
      × (clock.mktime tree ≡ some tree_time)
      × (clock.mktime now ≡ some now_time)
      × (age ≡ now_time -ℤ tree_time)
      × (is_older age max_age ≡ false)
      × (ltb_ℤ age (pos 0) ≡ false)
unfolding test_portage_current
test_portage_current_lem f clock max_age age h =
    let (timestamp, read, h1) = >>=-eq-returned (get_portage_timestamp f) _ h in
    let (u, named, h2) = >>=-eq-returned (when (is_empty timestamp) _) _ h1 in
    let (tree, parsed, h3) = >>=-eq-returned (or_end _ (clock.strptime timestamp)) _ h2 in
    let (now, parsed_now, h4) = >>=-eq-returned (or_end _ (clock.strptime clock.now)) _ h3 in
    let (tree_time, made, h5) = >>=-eq-returned (or_end _ (clock.mktime tree)) _ h4 in
    let (now_time, made_now, h6) = >>=-eq-returned (or_end _ (clock.mktime now)) _ h5 in
    let (same, fresh, past) =
      age_checked (is_older (now_time -ℤ tree_time) max_age) (ltb_ℤ (now_time -ℤ tree_time) (pos 0))
        _ _ age (now_time -ℤ tree_time) h6 in
    (
      timestamp,
      tree,
      now,
      tree_time,
      now_time,
      get_portage_timestamp_lem f timestamp read,
      or_end-some _ (clock.strptime timestamp) parsed,
      or_end-some _ (clock.strptime clock.now) parsed_now,
      or_end-some _ (clock.mktime tree) made,
      or_end-some _ (clock.mktime now) made_now,
      same,
      rw same fresh,
      rw same past,
    )
