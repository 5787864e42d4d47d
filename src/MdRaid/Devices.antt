-- ===== src/MdRaid/Devices.antt =====
-- What `find_arrays` of older/check_md_raid.py returns.
use mathlib.Core.List.{Perm, append_assoc, append-nil}
use nagios_plugins.Base.{
  String, Option, none, some, List, [], ◌∷◌, ◌++◌, ◌≡◌, ◌≢◌, ◌∙◌, arith, Bool-cases, Option-cases,
  inl, inr, if◌then◌else◌, get_elem?,
}
use nagios_plugins.Text.{◌&◌, contains, split}
use nagios_plugins.Text.Sort.{sort, IsSorted, sort-IsSorted, sort-perm, sort-ne-nil}
use nagios_plugins.Nagios.{returned, >>=-eq-returned}
use nagios_plugins.MdRaid.{scan, find_arrays, sorted_or_end, end}

abbrev second : Option String → List String → List String
second none ds = ds
second (some d) ds = d ∷ ds

-- The second words of the lines that name an array.
abbrev pub listed : List String → List String
listed [] = []
listed (line ∷ lines) =
    if contains "ARRAY" line then second (get_elem? (split line) 1) (listed lines) else listed lines

scan-listed :
    (lines so_far ds : List String) → scan so_far lines ≡ returned ds → ds ≡ so_far ++ listed lines
unfolding scan end
scan-listed [] so_far ds h = ground (arith, append-nil so_far)
scan-listed (line ∷ lines) so_far ds h = elim (Bool-cases (contains "ARRAY" line)) [
  | inl array ↦ elim (Option-cases (get_elem? (split line) 1)) [
    | inl short ↦ absurd (ground arith)
    | inr (d, e) ↦
        let rest : scan (so_far ++ d ∷ []) lines ≡ returned ds = ground arith in
        rw (array, e)
          (scan-listed lines (so_far ++ d ∷ []) ds rest ∙ append_assoc so_far (d ∷ []) _)
  ]
  | inr other ↦
      let rest : scan so_far lines ≡ returned ds = ground arith in
      rw other (scan-listed lines so_far ds rest)
]

sorted_or_end-lem :
    (found arrays : List String)
    → sorted_or_end found ≡ returned arrays
    → (found ≢ []) × (arrays ≡ sort found)
unfolding end
sorted_or_end-lem [] arrays h = absurd (cc)
sorted_or_end-lem (d ∷ ds) arrays h = (ground arith, cc)

-- The arrays that are found are the listed ones, each as often as it is listed, in order of their
-- names, and there is at least one.
pub find_arrays-listed :
    (bin : String) (popen : String → List String) (arrays : List String)
    → find_arrays bin popen ≡ returned arrays
    → (arrays ≢ []) × IsSorted arrays × Perm arrays (listed (popen (bin & " --detail --scan 2>&1")))
unfolding find_arrays end
find_arrays-listed bin popen arrays h =
    let (found, scanned, last) =
      >>=-eq-returned (scan [] (popen (bin & " --detail --scan 2>&1"))) sorted_or_end h in
    let (some_found, same) = sorted_or_end-lem found arrays last in
    let all : found ≡ listed (popen (bin & " --detail --scan 2>&1")) =
      scan-listed (popen (bin & " --detail --scan 2>&1")) [] found scanned in
    rw (same, ← all) (sort-ne-nil found some_found, sort-IsSorted found, sort-perm found)
