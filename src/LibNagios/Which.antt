-- ===== src/LibNagios/Which.antt =====
-- `which` of older/lib_nagios.py against the search that PATH promises.
use nagios_plugins.Base.{
  String, true, false, Option, List, [], ◌∷◌, ◌++◌, ◌≡◌, ◌⊎◌, inl, inr, refl, All, Bool-cases, ap,
}
use nagios_plugins.Text.{split_on}
use nagios_plugins.Nagios.{Outcome, returned, exited, raised, unknown_status}
use nagios_plugins.LibNagios.{Files, path_join, which_in, which}

-- `path` is the executable's file in the first directory of `dirs` that holds a file of its name.
pub record IsFirst (fs : Files) (executable : String) (dirs : List String) (path : String)
    : Type 0 where
  pub before : List String
  pub here : String
  pub after : List String
  pub splits : dirs ≡ before ++ here ∷ after
  pub joined : path ≡ path_join here executable
  pub is_there : fs.is_file path ≡ true
  pub none_before : All (λ d. fs.is_file (path_join d executable) ≡ false) before

module _ (check_name : Option String) (fs : Files) (executable : String) where
  -- What a search may end with: the first file, if it is executable, or status UNKNOWN.
  abbrev pub Finds : List String → Outcome String → Type 0
  Finds dirs (returned p) = IsFirst fs executable dirs p × (fs.is_executable p ≡ true)
  Finds dirs (exited status message) =
      (status ≡ unknown_status)
      × (All (λ d. fs.is_file (path_join d executable) ≡ false) dirs
          ⊎ ((p : String) × IsFirst fs executable dirs p × (fs.is_executable p ≡ false)))
  Finds dirs _ = ⊥

  IsFirst-cons :
      {d p : String} {dirs : List String}
      → fs.is_file (path_join d executable) ≡ false
      → IsFirst fs executable dirs p
      → IsFirst fs executable (d ∷ dirs) p
  IsFirst-cons {d} no_file f = record {
    before = d ∷ f.before;
    here = f.here;
    after = f.after;
    splits = ap (λ l. d ∷ l) f.splits;
    joined = f.joined;
    is_there = f.is_there;
    none_before = (no_file, f.none_before);
  }

  IsFirst-head :
      (d : String) (dirs : List String)
      → fs.is_file (path_join d executable) ≡ true
      → IsFirst fs executable (d ∷ dirs) (path_join d executable)
  IsFirst-head d dirs h = record {
    before = [];
    here = d;
    after = dirs;
    splits = refl;
    joined = refl;
    is_there = h;
    none_before = tt;
  }

  Finds-cons :
      (d : String) (dirs : List String) (r : Outcome String)
      → fs.is_file (path_join d executable) ≡ false
      → Finds dirs r
      → Finds (d ∷ dirs) r
  Finds-cons d dirs (returned p) no_file (f, x) = (IsFirst-cons no_file f, x)
  Finds-cons d dirs (exited status message) no_file (e, inl absent) = (e, inl (no_file, absent))
  Finds-cons d dirs (exited status message) no_file (e, inr (p, f, x)) =
      (e, inr (p, IsFirst-cons no_file f, x))
  Finds-cons d dirs (raised e) no_file h = elim h [ ]

  which_in-Finds : (dirs : List String) → Finds dirs (which_in check_name fs executable dirs)
  unfolding which_in
  which_in-Finds [] = (refl, inl tt)
  which_in-Finds (d ∷ dirs) = elim (Bool-cases (fs.is_file (path_join d executable))) [
    | inl file ↦ elim (Bool-cases (fs.is_executable (path_join d executable))) [
      | inl runs ↦ rw (file, runs) (IsFirst-head d dirs file, runs)
      | inr stuck ↦ rw (file, stuck) (refl, inr (_, IsFirst-head d dirs file, stuck))
    ]
    | inr no_file ↦ rw no_file (Finds-cons d dirs _ no_file (which_in-Finds dirs))
  ]

-- `which` returns the path of the executable in the first directory of PATH that holds a file of
-- that name, if that file is executable. Otherwise it exits UNKNOWN: no directory holds such a
-- file, or the first one is not executable. It never returns or raises anything else.
pub which-Finds :
    (check_name : Option String) (path : String) (fs : Files) (executable : String)
    → Finds check_name fs executable (split_on b':' path) (which check_name path fs executable)
unfolding which
which-Finds check_name path fs executable =
    which_in-Finds check_name fs executable (split_on b':' path)
