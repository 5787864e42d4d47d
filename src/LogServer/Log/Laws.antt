-- ===== src/LogServer/Log/Laws.antt =====
-- The message that check_logserver.py looks for is the one that it sent.
use nagios_plugins.Base.{
  String, Bool, true, false, List, [], ◌∷◌, ◌==◌, ◌≡◌, refl, sym, ap, ◌∙◌, arith, All, drop,
}
use nagios_plugins.Text.{◌&◌, is_space, lower, split, rstrip, join}
use nagios_plugins.Text.Decimal.{show}
use nagios_plugins.Text.Occurrences.{Lacks-mono, lower-Lacks, is_empty-lower}
use nagios_plugins.Text.Words.{IsWord, IsSolid, spaced, split-join, rstrip-spaced, IsWord-append}
use nagios_plugins.LogServer.Log.{Stamp, conn_type, generate_log, message_of}
use text.Mathlib.TextLemmas.{append_assoc}

-- `strftime('%b %d %T')` gives three words, and the names and the time are words.
pub record IsPlain (w : Stamp) : Type 0 where
  pub month : String
  pub day : String
  pub clock : String
  pub three : w.timestamp ≡ month & " " & day & " " & clock
  pub month_word : IsWord month
  pub day_word : IsWord day
  pub clock_word : IsWord clock
  pub hostname_word : IsWord w.hostname
  pub script_name_word : IsWord w.script_name
  pub epoch_word : IsWord w.epoch

-- the message of a log
abbrev pub sent_message : Stamp → (udp : Bool) → String
sent_message w udp = w.script_name & ": Nagios Log Server " & conn_type udp & " Check " & w.epoch

abbrev message_words : Stamp → Bool → List String
message_words w udp =
    (w.script_name & ":") ∷ "Nagios" ∷ "Log" ∷ "Server" ∷ conn_type udp ∷ "Check" ∷ w.epoch ∷ []

glue : (a b rest : String) → a & b & rest ≡ (a & b) & rest
glue a b rest = sym (append_assoc a b rest)

fixed_words :
    (rest : String)
    → ":" & " " & "Nagios" & " " & "Log" & " " & "Server" & " " & rest
      ≡ ": Nagios Log Server " & rest
fixed_words rest =
    glue ":" " " _
    ∙ glue ": " "Nagios" _
    ∙ glue ": Nagios" " " _
    ∙ glue ": Nagios " "Log" _
    ∙ glue ": Nagios Log" " " _
    ∙ glue ": Nagios Log " "Server" _
    ∙ glue ": Nagios Log Server" " " rest

check_word : (rest : String) → " " & "Check" & " " & rest ≡ " Check " & rest
check_word rest = glue " " "Check" _ ∙ glue " Check" " " rest

join-message_words : (w : Stamp) (udp : Bool) → join " " (message_words w udp) ≡ sent_message w udp
unfolding join
join-message_words w udp =
    append_assoc w.script_name ":" _
    ∙ ap (λ t. w.script_name & t)
        (fixed_words _ ∙ ap (λ t. ": Nagios Log Server " & conn_type udp & t) (check_word w.epoch))

abbrev log_words : (w : Stamp) → IsPlain w → Bool → List String
log_words w p udp = ("<15>" & p.month) ∷ p.day ∷ p.clock ∷ lower w.hostname ∷ message_words w udp

regroup :
    (a m d c rest : String)
    → a & (m & " " & d & " " & c) & rest ≡ (a & m) & " " & d & " " & c & rest
regroup a m d c rest = simp append_assoc

generate_log-words :
    (w : Stamp) (p : IsPlain w) (udp : Bool) → generate_log w udp ≡ join " " (log_words w p udp)
unfolding generate_log join show
generate_log-words w p udp =
    let rest : String = " " & lower w.hostname & " " & sent_message w udp in
    glue "<" "15" _
    ∙ glue "<15" ">" _
    ∙ ap (λ t. "<15>" & t & rest) p.three
    ∙ regroup "<15>" p.month p.day p.clock rest
    ∙ ap (λ t. ("<15>" & p.month) & " " & p.day & " " & p.clock & " " & lower w.hostname & " " & t)
        (sym (join-message_words w udp))

conn_type-IsWord : (udp : Bool) → IsWord (conn_type udp)
unfolding is_space
conn_type-IsWord true = (refl, refl)
conn_type-IsWord false = (refl, refl)

message_words-IsWord : (w : Stamp) (p : IsPlain w) (udp : Bool) → All IsWord (message_words w udp)
unfolding is_space
message_words-IsWord w p udp = (
  IsWord-append w.script_name ":" p.script_name_word.0 (refl, refl),
  (
    (refl, refl),
    ((refl, refl), ((refl, refl), (conn_type-IsWord udp, ((refl, refl), (p.epoch_word, tt))))),
  ),
)

lower-IsWord : (s : String) → IsWord s → IsWord (lower s)
lower-IsWord s h = (lower-Lacks is_space s (unfold is_space in refl) h.0, is_empty-lower s ∙ h.1)

log_words-IsWord : (w : Stamp) (p : IsPlain w) (udp : Bool) → All IsWord (log_words w p udp)
log_words-IsWord w p udp = (
  IsWord-append "<15>" p.month (unfold is_space in refl) p.month_word,
  (
    p.day_word,
    (p.clock_word, (lower-IsWord w.hostname p.hostname_word, message_words-IsWord w p udp)),
  ),
)

words-IsSolid : (ws : List String) → All IsWord ws → All (IsSolid (λ c. c == b' ')) ws
unfolding is_space
words-IsSolid [] h = tt
words-IsSolid (w ∷ ws) h = (
  (Lacks-mono (λ c. c == b' ') is_space (λ c e. ground arith) w h.0.0, h.0.1),
  words-IsSolid ws h.1,
)

-- The message that is taken out of the log, the words from the fifth on with single spaces, is the
-- one that was put into it: script name, connection type and time, if the time stamp is of three
-- words and the names and the time have no white space.
pub message_of-generate_log :
    (w : Stamp) (udp : Bool) → IsPlain w → message_of (generate_log w udp) ≡ sent_message w udp
unfolding message_of
message_of-generate_log w udp p =
    let words = ap split (generate_log-words w p udp) ∙ split-join _ (log_words-IsWord w p udp) in
    let solid = words-IsSolid (message_words w udp) (message_words-IsWord w p udp) in
    ap (λ ws. rstrip (λ c. c == b' ') (spaced (drop 4 ws))) words
    ∙ rstrip-spaced (λ c. c == b' ') refl (w.script_name & ":") _ solid
    ∙ join-message_words w udp
