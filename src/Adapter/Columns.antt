-- ===== src/Adapter/Columns.antt =====
-- The rows that adapter_csv.py prints have the same columns.
use Prim.Native.String.{[], ◌∷◌}
use nagios_plugins.Base.{
  ℕ, ◌+◌, code, String, Bool, true, false, Option, none, some, List, [], ◌∷◌, ◌==◌, ◌≡◌, ◌⊎◌, refl,
  sym, arith, if◌then◌else◌, length, All, get_elem?, Bool-cases, Option-cases, inl, inr,
}
use nagios_plugins.Base.Dict.{keys}
use nagios_plugins.Text.{◌&◌, split_on, replace, join, split, is_empty}
use nagios_plugins.Text.Occurrences.{
  occurrences, occurrences-append, occurrences-strip, Lacks, split-Lacks, length-split_on,
  upper-Lacks,
}
use nagios_plugins.Regex.{re_search}
use nagios_plugins.Regex.Groups.{re_search-Lacks}
use nagios_plugins.Nagios.{Outcome, returned, Process, >>=-eq-returned}
use nagios_plugins.Adapter.Result.{Errors, replace_commas, process_message}
use nagios_plugins.Adapter.Status.{status-Lacks, result_of-IsStatus}
use nagios_plugins.Adapter.Csv.{
  cut, before, column_of, read_item, columns_of, add_column, perfdata_of, process_perfdata,
  headers_of, values_of, header_row, header_of, result_of, perfdata_regex, output, run,
}

abbrev pub is_comma : ℕ → Bool
is_comma c = c == b','

replace_commas-Lacks : (b : Bool) (s : String) → Lacks is_comma (replace_commas b s)
unfolding replace_commas
replace_commas-Lacks b [] = refl
replace_commas-Lacks b (c ∷ s) =
    let skipped = replace_commas-Lacks true s in
    let kept = replace_commas-Lacks false s in
    let dots = occurrences-append is_comma "... " (replace_commas true s) in ground arith

pub process_message-Lacks : (s : String) → Lacks is_comma (process_message s)
unfolding process_message
process_message-Lacks s = replace_commas-Lacks false _

-- both sides of a cut, when there is one
abbrev BothLack : Option (String × String) → Type 0
BothLack none = Unit
BothLack (some (a, b)) = Lacks is_comma a × Lacks is_comma b

cut-BothLack : (sep : ℕ) (s : String) → Lacks is_comma s → BothLack (cut sep s)
unfolding cut
cut-BothLack sep [] h = tt
cut-BothLack sep (c ∷ s) h = let k = cut-BothLack sep s in ground arith

before-Lacks : (sep : ℕ) (s : String) → Lacks is_comma s → Lacks is_comma (before sep s)
unfolding before
before-Lacks sep [] h = refl
before-Lacks sep (c ∷ s) h =
    let k = before-Lacks sep s in
    elim (Bool-cases (code c == sep)) [
      | inl here ↦ rw here refl
      | inr beyond ↦ rw beyond (ground arith)
    ]

-- `replace` takes every comma out.
replace-Lacks : (s : String) → Lacks is_comma (replace b',' "_" s)
unfolding replace
replace-Lacks [] = refl
replace-Lacks (c ∷ s) =
    let k = replace-Lacks s in
    let line = occurrences-append is_comma "_" (replace b',' "_" s) in ground arith

pub join-occurrences :
    (w : String) (ws : List String)
    → Lacks is_comma w
    → All (Lacks is_comma) ws
    → occurrences is_comma (join "," (w ∷ ws)) ≡ length ws
unfolding join
join-occurrences w [] h k = h
join-occurrences w (v ∷ ws) h k =
    let rest = join-occurrences v ws k.0 k.1 in
    let outer = occurrences-append is_comma w ("," & join "," (v ∷ ws)) in
    let inner = occurrences-append is_comma "," (join "," (v ∷ ws)) in
    omega (arith, rest, outer, inner, h)

-- neither the header nor the value of a column has a comma
abbrev pub ColumnLacks : String × String → Type 0
ColumnLacks (header, val) = Lacks is_comma header × Lacks is_comma val

header_of-Lacks :
    (header : String) (units : Option String) → Lacks is_comma (header_of header units)
unfolding header_of
header_of-Lacks header units = upper-Lacks is_comma _ refl (replace-Lacks _)

abbrev MaybeLacks : Option (String × String) → Type 0
MaybeLacks none = Unit
MaybeLacks (some column) = ColumnLacks column

column_of-Lacks :
    (header : String) (groups : List String)
    → All (Lacks is_comma) groups
    → MaybeLacks (column_of header groups)
column_of-Lacks header [] h = tt
column_of-Lacks header (val ∷ groups) h = (header_of-Lacks header (get_elem? groups 0), h.0)

add_column-Lacks :
    (o : Option (String × String)) (columns : List (String × String))
    → MaybeLacks o
    → All ColumnLacks columns
    → All ColumnLacks (add_column o columns)
add_column-Lacks none columns h k = k
add_column-Lacks (some column) columns h k = (h, k)

read_item-Lacks : (o : Option (String × String)) → BothLack o → MaybeLacks (read_item o)
read_item-Lacks none h = tt
read_item-Lacks (some (header, raw)) h =
    let data' = before-Lacks b';' raw h.1 in
    elim (Option-cases (re_search perfdata_regex (before b';' raw))) [
      | inl missing ↦ rw missing tt
      | inr (m, here) ↦
          rw here (
            column_of-Lacks header m.groups
              (re_search-Lacks is_comma perfdata_regex _ m data' here))
    ]

columns_of-Lacks :
    (items : List String) → All (Lacks is_comma) items → All ColumnLacks (columns_of items)
unfolding columns_of
columns_of-Lacks [] h = tt
columns_of-Lacks (item ∷ items) h =
    let rest = columns_of-Lacks items h.1 in
    let read = read_item-Lacks (cut b'=' item) (cut-BothLack b'=' item h.0) in
    add_column-Lacks (read_item (cut b'=' item)) (columns_of items) read rest

perfdata_of-Lacks :
    (message : String) (o : Option (String × String))
    → Lacks is_comma message
    → BothLack o
    → Lacks is_comma (perfdata_of message o).0 × All ColumnLacks (perfdata_of message o).1
perfdata_of-Lacks message none h k = (omega (arith, occurrences-strip is_comma message, h), tt)
perfdata_of-Lacks message (some (text, raw)) h k = (
  omega (arith, occurrences-strip is_comma text, k.0),
  columns_of-Lacks (split raw) (split-Lacks is_comma raw k.1),
)

pub process_perfdata-Lacks :
    (message : String)
    → Lacks is_comma message
    → Lacks is_comma (process_perfdata message).0 × All ColumnLacks (process_perfdata message).1
unfolding process_perfdata
process_perfdata-Lacks message h =
    perfdata_of-Lacks message (cut b'|' message) h (cut-BothLack b'|' message h)

pub headers_of-Lacks :
    (columns : List (String × String))
    → All ColumnLacks columns
    → All (Lacks is_comma) (headers_of columns) × (length (headers_of columns) ≡ length columns)
headers_of-Lacks [] h = (tt, refl)
headers_of-Lacks ((header, val) ∷ columns) h =
    let (k, l) = headers_of-Lacks columns h.1 in ((h.0.0, k), omega (arith, l))

values_of-occurrences :
    (columns : List (String × String))
    → All ColumnLacks columns
    → occurrences is_comma (values_of columns) ≡ length columns
values_of-occurrences [] h = refl
values_of-occurrences ((header, val) ∷ columns) h =
    let rest = values_of-occurrences columns h.1 in
    let outer = occurrences-append is_comma "," (val & values_of columns) in
    let inner = occurrences-append is_comma val (values_of columns) in
    omega (arith, rest, outer, inner, h.0.1)

header_row-length :
    (columns : List (String × String))
    → All ColumnLacks columns
    → length (split_on b',' (header_row columns)) ≡ length columns + 2
header_row-length columns h =
    let (k, l) = headers_of-Lacks columns h in
    let row = join-occurrences "STATUS" ("MESSAGE" ∷ headers_of columns) refl (refl, k) in
    omega (arith, row, l, length-split_on b',' (header_row columns))

pub row-length :
    (status message : String) (columns : List (String × String))
    → Lacks is_comma status
    → Lacks is_comma message
    → All ColumnLacks columns
    → length (split_on b',' (status & "," & message & values_of columns)) ≡ length columns + 2
row-length status message columns s m h =
    let a = occurrences-append is_comma status ("," & message & values_of columns) in
    let b = occurrences-append is_comma "," (message & values_of columns) in
    let c = occurrences-append is_comma message (values_of columns) in
    omega (
      arith,
      a,
      b,
      c,
      s,
      m,
      values_of-occurrences columns h,
      length-split_on b',' (status & "," & message & values_of columns),
    )

pub printed :
    (b : Bool) {A : Type 0} (m n : Outcome A) (a : A)
    → b ≡ false
    → (if b then m else n) ≡ returned a
    → n ≡ returned a
printed b m n a h e = ground arith

pub same_lines : (xs ys : List String) → returned xs ≡ returned ys → xs ≡ ys
same_lines xs ys h = cc

-- When adapter_csv.py prints with a header, for arguments that are not all empty and a table ERRORS
-- whose keys have no comma, it prints two lines, and both have the same number of fields between
-- commas, namely two more than the message has perfdata with a number.
pub columns_agree :
    (errors : Errors) (usage : String → Outcome (List String)) (result : Option String)
    (shell : Bool) (popen : Bool → String → String ⊎ Process) (args lines : List String)
    → All (Lacks is_comma) (keys errors)
    → is_empty (join " " args) ≡ false
    → run errors usage result false shell popen args ≡ returned lines
    → (status message header row : String) × (result_of errors result shell popen (join " " args)
        ≡ returned (status, message))
      × (lines ≡ header ∷ row ∷ [])
      × (length (split_on b',' header) ≡ length (process_perfdata (process_message message)).1 + 2)
      × (length (split_on b',' row) ≡ length (process_perfdata (process_message message)).1 + 2)
unfolding run output
columns_agree errors usage result shell popen args lines h k e =
    let argstr = join " " args in
    let ((status, message), same, e') =
      >>=-eq-returned (result_of errors result shell popen argstr) _
        (printed (is_empty argstr) _ _ lines k e) in
    let known =
      status-Lacks is_comma errors status h refl
        (result_of-IsStatus errors result shell popen argstr status message same) in
    let (clean, columns) =
      process_perfdata-Lacks (process_message message) (process_message-Lacks message) in
    let fields = process_perfdata (process_message message) in
    (
      status,
      message,
      header_row fields.1,
      status & "," & fields.0 & values_of fields.1,
      same,
      sym (same_lines _ lines e'),
      header_row-length fields.1 columns,
      row-length status fields.0 fields.1 known clean columns,
    )
