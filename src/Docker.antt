-- ===== src/Docker.antt =====
-- older/check_docker_image.py: whether an image is there, with the ID that is expected. The
-- options, the units and the thresholds are pylib's: what they give is a parameter.
pub mod Missing
mod Tests
use Prim.Native.String
use Prim.Native.String.{[], ◌∷◌}
use nagios_plugins.Base.{
  ℕ, Char, code, String, Bool, true, false, not, ◌&&◌, ◌||◌, Option, none, some, List, [], ◌∷◌,
  ◌++◌, ◌==◌, leb, ltb, any, take, drop, str_eq, if◌then◌else◌, length,
}
use nagios_plugins.Base.Float.{Float}
use nagios_plugins.Base.Int.{ℤ, ltb_ℤ, pos, is_zero}
use nagios_plugins.Regex.{
  Re, lit, one, star, seq, group, eol, plus, optional, all_of, Match, re_match, re_search, found,
}
use nagios_plugins.Text.{
  ◌&◌, is_empty, is_falsy, is_space, lead, nonempty, split, split_on, join, strip, text_functions,
  or_empty,
}
use nagios_plugins.Text.Bytes.{str_bytes, escaped_all, escaped}
use nagios_plugins.Text.Decimal.{is_digit, show_ℤ}
use nagios_plugins.Text.Sort.{sort}
use nagios_plugins.Nagios.{
  ok_status, critical_status, unknown_status, Outcome, returned, exited, item, ◌>>=◌, ◌>>◌,
}

-- The end of `docker images`; the outputs are texts in Python 2 and bytes in Python 3.
pub record Ran : Type 0 where
  pub exitcode : ℤ
  pub stdout : String
  pub stderr : String

pub record World : Type 0 where
  pub is_python_3 : Bool
  pub has_docker : Bool
  pub popen : List String → Ran
  pub expand_units : (size units : String) → Outcome Float
  pub check_thresholds : (status : ℕ) → Float → ℕ × String
  pub support_msg : String

pub record Options : Type 0 where
  pub docker_image : String
  pub expected_id : Option String

-- `s.split(r'\n')`: the separator is a backslash with an "n" behind it.
unfoldable pub split_escapes : String → List String
split_escapes [] = "" ∷ []
split_escapes (c ∷ []) = (c ∷ []) ∷ []
split_escapes (c ∷ d ∷ s) =
    let behind = split_escapes s in
    let next = split_escapes (d ∷ s) in
    if code c == 92 && code d == b'n' then "" ∷ behind else lead c next

unfoldable pub lines_of : (is_python_3 : Bool) → String → List String
unfolding split_escapes
lines_of true stdout = nonempty (split_escapes stdout)
lines_of false stdout = nonempty (split_on b'\n' stdout)

-- the second word, if there is one
abbrev tag_of : List String → List String
tag_of (name ∷ tag ∷ words) = tag ∷ []
tag_of _ = []

-- `tags.add(tag)`
abbrev add_tag : List String → List String → List String
add_tag [] tags = tags
add_tag (tag ∷ more) tags = if any (str_eq tag) tags then tags else tags ++ tag ∷ []

-- the loop over the lines of images
unfoldable pub find_tags : (lines : List String) → (tags : List String) → List String
find_tags [] tags = tags
find_tags (line ∷ lines) tags = find_tags lines (add_tag (tag_of (split line)) tags)

abbrev named : List String → List String
named [] = []
named (tag ∷ tags) = if str_eq tag "<none>" then named tags else tag ∷ named tags

-- a letter, a digit or "_", in ASCII
abbrev is_word : ℕ → Bool
is_word c = is_digit c || (leb b'a' c && leb c b'z') || (leb b'A' c && leb c b'Z') || c == b'_'

abbrev re_id : Re
re_id = seq (optional (all_of (lit "sha" ∷ plus is_digit ∷ lit ":" ∷ []))) (plus is_word)

abbrev re_size : Re
re_size = all_of (
    group (seq (plus is_digit) (optional (seq (lit ".") (plus is_digit))))
    ∷ star is_space
    ∷ group (seq (one (λ c. c == b'K' || c == b'M' || c == b'G')) (lit "B"))
    ∷ star is_space
    ∷ eol
    ∷ [])

-- the test of the ID, with the message that names it
abbrev judge_id : World → (expected_id : Option String) → (id msg : String) → Outcome (ℕ × String)
judge_id w expected_id id msg =
    if is_falsy expected_id
    then returned (ok_status, msg)
    else if not (found (re_match re_id id))
    then exited unknown_status (msg & " not in sha format as expected! " & w.support_msg)
    else if not (str_eq id (or_empty expected_id))
    then returned (critical_status, msg & " (expected id = '" & or_empty expected_id & "')")
    else returned (ok_status, msg)

-- The status and the message that it leaves; the status was OK before.
unfoldable pub check_id :
    World → (expected_id : Option String) → (line msg : String) → Outcome (ℕ × String)
unfolding split is_digit re_match
check_id w expected_id line msg = do
  id ← item 2 (split line)
  judge_id w expected_id id (msg & ", id = '" & id & "'")

abbrev with_thresholds : (msg : String) → ℕ × String → ℕ × String
with_thresholds msg (status, told) = (status, msg & told)

abbrev groups_of : Option Match → List String
groups_of none = []
groups_of (some m) = m.groups

-- behind the search: the groups that it found, none if it failed
abbrev measured : World → (status : ℕ) → (msg : String) → List String → Outcome (ℕ × String)
measured w status msg (size ∷ units ∷ []) = w.expand_units size (strip units) >>= λ bytes.
    returned (
      with_thresholds (msg & ", size = " & size & " " & strip units)
        (w.check_thresholds status bytes))
measured w status msg _ = exited unknown_status ("failed to parse size. " & w.support_msg)

unfoldable pub check_size : World → (status : ℕ) → (line msg : String) → Outcome (ℕ × String)
unfolding is_digit is_space re_search strip
check_size w status line msg = measured w status msg (groups_of (re_search re_size line))

-- the tests of `parse` behind the one of the tags
unfoldable pub check_image : World → Options → (header line : String) → Outcome (ℕ × String)
unfolding split join
check_image w o header line =
    let column = join " " (take 2 (drop 2 (split header))) in
    if not (str_eq column "IMAGE ID")
    then exited unknown_status
        ("3rd column in header '" & column & "' is not 'IMAGE ID' as expected, parsing failed!")
    else (do
      (status, msg) ← check_id w o.expected_id line ("docker image '" & o.docker_image & "'")
      check_size w status line msg)

abbrev check_tags : World → Options → (header line : String) → List String → Outcome (ℕ × String)
check_tags w o header line tags =
    if ltb 1 (length tags)
    then exited unknown_status (
        "too many results returned - did you forget to suffix a specific :tag to --docker-image? (eg. :latest, :1.1). The following tags were found: "
        & join ", " tags)
    else check_image w o header line

abbrev parse_lines : World → Options → List String → Outcome (ℕ × String)
parse_lines w o (header ∷ line ∷ lines) =
    check_tags w o header line (sort (named (find_tags (line ∷ lines) [])))
parse_lines w o _ =
    exited critical_status (
      "docker image '" & o.docker_image & "' not found! Does not exist or has not been pulled yet?")

unfoldable pub parse : World → Options → (stdout : String) → Outcome (ℕ × String)
unfolding lines_of find_tags sort join
parse w o stdout = parse_lines w o (lines_of w.is_python_3 stdout)

-- `str(output)`
abbrev pub text_of : World → String → String
text_of w output = if w.is_python_3 then str_bytes output else output

-- `run`, behind the end of the command
unfoldable pub read : World → Options → Ran → Outcome (ℕ × String)
unfolding show_ℤ
read w o ran =
    if not (is_empty ran.stderr)
    then exited unknown_status (text_of w ran.stderr)
    else if not (is_zero ran.exitcode)
    then exited unknown_status (
        "exit code returned was '"
        & show_ℤ ran.exitcode
        & "': "
        & text_of w ran.stdout
        & " "
        & text_of w ran.stderr)
    else if is_empty ran.stdout
    then exited unknown_status "no output from docker images command!"
    else parse w o (text_of w ran.stdout)

unfoldable pub run : World → Options → Outcome (ℕ × String)
run w o =
    if not w.has_docker
    then exited unknown_status "'docker' command not found in $PATH"
    else read w o (w.popen ("docker" ∷ "images" ∷ o.docker_image ∷ []))

-- For tests: computes with the whole script.
unfoldable pub script : Unit {0}
unfolding run read parse check_image check_size check_id find_tags lines_of split_escapes
    text_functions str_bytes escaped_all escaped sort re_match re_search is_digit is_space
script = tt
