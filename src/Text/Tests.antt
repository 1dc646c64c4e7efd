-- ===== src/Text/Tests.antt =====
-- text.rs on inputs of its own tests, and the theorems about it at concrete texts.
use sukkula.Base.{◌≡◌, ◌<◌, refl, not, true, arith, codes, is_empty, any, Str, [], ◌∷◌, ◌++◌}
use sukkula.Text.{truncate_bytes, display, classify}
use sukkula.Text.Truncate.{Longest, truncate_bytes-Longest}
use sukkula.Text.Message.{message}
use sukkula.Text.Message.Promise.{IsPlainMessage, message-IsPlainMessage}
use sukkula.Text.Line.{IsShort, display-IsShort}

abbrev flood : Str
flood = codes "  a  b" ++ 0x0D ∷ 0x0A ∷ 0x0A ∷ 0x0A ∷ 0x0A ∷ 0x202E ∷ codes "c  "

cut_line : display (codes "hello world") 6 ≡ codes "hello" ++ 0x2026 ∷ []
unfolding display classify sukkula.Base.trim_end_matches
cut_line = refl

message_lines : message flood ≡ codes "a b" ++ 0x0A ∷ 0x0A ∷ 0x0A ∷ codes "c"
unfolding message classify sukkula.Base.trim_end_matches sukkula.Base.len_utf8
    sukkula.Base.ends_with
message_lines = refl

truncate_bytes-Longest_example : Longest (codes "naïve") 3 (truncate_bytes (codes "naïve") 3)
truncate_bytes-Longest_example = truncate_bytes-Longest (codes "naïve") 3

message-IsPlainMessage_example : IsPlainMessage (message flood)
message-IsPlainMessage_example = message-IsPlainMessage flood

display-IsShort_example : IsShort 6 (display (codes "hello world") 6)
display-IsShort_example = display-IsShort (codes "hello world") 6
