-- ===== src/Docker/Missing.antt =====
-- What older/check_docker_image.py does in Python 3 when the image is not there.
use Prim.Native.String.{[], ◌∷◌}
use Prim.Native.String.append.{nil, cons}
use nagios_plugins.Base.{
  ℕ, Char, code, String, Bool, true, false, not, ◌||◌, [], ◌∷◌, ◌==◌, ltb, leb, take, drop, ◌≡◌,
  refl, sym, ap, ◌∙◌, arith, if◌then◌else◌, Bool-cases, inl, inr,
}
use nagios_plugins.Base.Int.{pos}
use nagios_plugins.Text.Sort.{sort}
use nagios_plugins.Text.{
  is_space, nonempty, ◌&◌, is_empty, lead, split, join, contains, starts_with,
}
use nagios_plugins.Text.Bytes.{str_bytes, escaped, escaped_all}
use nagios_plugins.Text.Occurrences.{Lacks, Lacks-mono, occurrences-append}
use nagios_plugins.Text.Words.{is_empty-append, is_empty-front}
use text.Mathlib.TextLemmas.{append_assoc}
use nagios_plugins.Nagios.{exited, unknown_status, raised, index_error}
use nagios_plugins.Docker.{
  World, Options, Ran, split_escapes, lines_of, parse, check_image, check_id, find_tags, run, read,
  named, check_tags, parse_lines, text_of,
}

-- a character that Python 3 does not write as it is, or a quote
abbrev pub is_special : ℕ → Bool
is_special n = n == 92 || n == 39 || n == 34 || ltb n 32 || leb 127 n

escaped-plain : (c : Char) → is_special (code c) ≡ false → escaped 39 c ≡ c ∷ []
unfolding escaped
escaped-plain c h = ground (arith, h)

plain_parts :
    (c : Char) (s : String)
    → Lacks is_special (c ∷ s)
    → (is_special (code c) ≡ false) × Lacks is_special s
plain_parts c s h = elim (Bool-cases (is_special (code c))) [
  | inl special ↦ absurd (ground (arith, h, special))
  | inr plain ↦ (plain, ground (arith, h, plain))
]

escaped_all-plain : (s : String) → Lacks is_special s → escaped_all 39 (s & "\n") ≡ s & "\\n"
unfolding escaped_all escaped
escaped_all-plain [] h = refl
escaped_all-plain (c ∷ s) h =
    let (plain, rest) = plain_parts c s h in
    ap (escaped_all 39) (cons c s "\n")
    ∙ ap (λ t. t & escaped_all 39 (s & "\n")) (escaped-plain c plain)
    ∙ ap (λ t. (c ∷ []) & t) (escaped_all-plain s rest)
    ∙ cons c [] (s & "\\n")
    ∙ ap (λ t. c ∷ t) (nil (s & "\\n"))
    ∙ sym (cons c s "\\n")

no_quote : (s : String) → Lacks is_special s → contains "'" (s & "\n") ≡ false
unfolding contains starts_with
no_quote [] h = refl
no_quote (c ∷ s) h =
    let (plain, rest) = plain_parts c s h in
    let differs : (code c == 39) ≡ false = ground (arith, plain) in
    let later = no_quote s rest in ap (contains "'") (cons c s "\n") ∙ rw (differs, later) refl

split_escapes-lead :
    (c : Char) (s : String)
    → (code c == 92) ≡ false
    → is_empty s ≡ false
    → split_escapes (c ∷ s) ≡ lead c (split_escapes s)
unfolding split_escapes
split_escapes-lead c [] h k = absurd (cc)
split_escapes-lead c (d ∷ s) h k = ground (arith, h)

abbrev is_backslash : ℕ → Bool
is_backslash n = n == 92

-- The text of a table of one line: its line, and the quote behind it.
split_escapes-one : (s : String) → Lacks is_backslash s → split_escapes (s & "\\n'") ≡ s ∷ "'" ∷ []
unfolding split_escapes
split_escapes-one [] h = refl
split_escapes-one (c ∷ s) h =
    let plain : (code c == 92) ≡ false = ground (arith, h) in
    let rest : Lacks is_backslash s = ground (arith, h) in
    ap split_escapes (cons c s "\\n'")
    ∙ split_escapes-lead c (s & "\\n'") plain (is_empty-append s "\\n'" refl)
    ∙ ap (lead c) (split_escapes-one s rest)

str_bytes-plain : (s : String) → Lacks is_special s → str_bytes (s & "\n") ≡ "b'" & s & "\\n'"
unfolding str_bytes
str_bytes-plain s h = rw (no_quote s h) (
    ap (λ t. "b'" & t & "'") (escaped_all-plain s h)
    ∙ ap (λ t. "b'" & t) (append_assoc s "\\n" "'"))

-- the lines that Python 3 sees in a table of one line
lines_of-header :
    (header : String)
    → Lacks is_special header
    → lines_of true (str_bytes (header & "\n")) ≡ ("b'" & header) ∷ "'" ∷ []
unfolding lines_of
lines_of-header header h =
    let few = Lacks-mono is_backslash is_special (λ n e. ground (arith, e)) header h in
    let front : Lacks is_backslash ("b'" & header) =
      omega (arith, occurrences-append is_backslash "b'" header, few) in
    ap (λ t. nonempty (split_escapes t))
      (str_bytes-plain header h ∙ sym (append_assoc "b'" header "\\n'"))
    ∙ ap nonempty (split_escapes-one ("b'" & header) front)
    ∙ rw (is_empty-front "b'" header refl) refl

-- the answer of `docker images` for an image that is not there: the line of the headers alone
abbrev pub only : (header : String) → Ran
only header = record { exitcode = pos 0; stdout = header & "\n"; stderr = "" }

module _ (w : World) (o : Options) (header : String)
    (column : join " " (take 2 (drop 2 (split ("b'" & header)))) ≡ "IMAGE ID") where
  check_image-header : check_image w o ("b'" & header) "'" ≡ raised index_error
  unfolding check_image check_id
  check_image-header = rw column refl

  parse_lines-header : parse_lines w o (("b'" & header) ∷ "'" ∷ []) ≡ raised index_error
  unfolding sort
  parse_lines-header =
      let no_tags : find_tags ("'" ∷ []) [] ≡ [] = unfold find_tags split is_space in refl in
      ap (λ tags. check_tags w o ("b'" & header) "'" (sort (named tags))) no_tags
      ∙ check_image-header

  parse-header :
      w.is_python_3 ≡ true
      → Lacks is_special header
      → parse w o (str_bytes (header & "\n")) ≡ raised index_error
  unfolding parse
  parse-header three plain =
      ap (λ b. parse_lines w o (lines_of b (str_bytes (header & "\n")))) three
      ∙ ap (parse_lines w o) (lines_of-header header plain)
      ∙ parse_lines-header

  read-header :
      w.is_python_3 ≡ true → Lacks is_special header → read w o (only header) ≡ raised index_error
  unfolding read
  read-header three plain =
      let there = is_empty-append header "\n" refl in
      ap
        (λ b.
          if b
          then exited unknown_status "no output from docker images command!"
          else parse w o (text_of w (header & "\n")))
        there
      ∙ ap (λ b. parse w o (if b then str_bytes (header & "\n") else header & "\n")) three
      ∙ parse-header three plain

-- In Python 3, where docker answers with nothing but a header whose third column is "IMAGE ID", of
-- characters that `str` of bytes writes as they are, the check ends with an IndexError: it does not
-- report that the image is missing.
pub run-missing :
    (w : World) (o : Options) (header : String)
    → w.is_python_3 ≡ true
    → w.has_docker ≡ true
    → w.popen ("docker" ∷ "images" ∷ o.docker_image ∷ []) ≡ only header
    → Lacks is_special header
    → join " " (take 2 (drop 2 (split ("b'" & header)))) ≡ "IMAGE ID"
    → run w o ≡ raised index_error
unfolding run
run-missing w o header three docker answered plain column =
    let answer = w.popen ("docker" ∷ "images" ∷ o.docker_image ∷ []) in
    ap
      (λ b.
        if not b
        then exited unknown_status "'docker' command not found in $PATH"
        else read w o answer)
      docker
    ∙ ap (read w o) answered
    ∙ read-header w o header column three plain
