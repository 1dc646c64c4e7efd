-- ===== src/Text/Message.antt =====
-- `message` of crates/sukkula-core/src/text.rs: a received text of several lines.
pub mod Lines
pub mod Pieces
pub mod Promise
use sukkula.Base.{
  ℕ, ◌+◌, ◌≤◌, ◌≡◌, refl, Bool, true, false, not, ◌&&◌, ◌||◌, List, [], ◌∷◌, ◌++◌, ltb, leb, ◌==◌,
  if◌then◌else◌, is_empty, Str, len_utf8, byte_len, ends_with, trim_end,
}
use sukkula.Limits.{max_message_bytes, max_combining_run}
use sukkula.Text.{Class, classify, Turn, go, stop}

abbrev pub line_feed : ℕ
line_feed = 0x0A

-- The variables of the loop.
pub record Message : Type 0 where
  pub out : Str
  pub combining_run : ℕ
  pub newlines : ℕ
  pub pending_space : Bool
  pub prev_cr : Bool

-- `if piece != '\n' { .. }`: the space before a piece that is no line break.
pub spread : Message → ℕ → Turn Message
spread s piece =
    if piece == line_feed
    then go s
    else if s.pending_space && not (is_empty s.out) && not (ends_with s.out line_feed)
    then (if ltb max_message_bytes (byte_len s.out + 1)
        then stop s.out
        else go (record s { out = s.out ++ b' ' ∷ []; pending_space = false; newlines = 0 }))
    else go (record s { pending_space = false; newlines = 0 })

-- The end of the loop's body, for a piece that is kept.
pub push_piece : Message → ℕ → Turn Message
unfolding spread
push_piece s piece = elim (spread s piece) [
  | stop out ↦ stop out
  | go t ↦
      if ltb max_message_bytes (byte_len t.out + len_utf8 piece)
      then stop t.out
      else go (record t { out = t.out ++ piece ∷ [] })
]

-- The match on the class of the character.
pub message_class : Message → ℕ → Turn Message
unfolding push_piece
message_class s c = elim (classify c) [
  | Class.drop ↦ go s
  | Class.space ↦ go (record s { pending_space = true })
  | Class.newline ↦
      if is_empty s.out || leb 3 s.newlines
      then go (record s { pending_space = false })
      else push_piece
          (record s { pending_space = false; newlines = s.newlines + 1; combining_run = 0 })
          line_feed
  | Class.combining ↦
      if is_empty s.out || leb max_combining_run s.combining_run || ltb 0 s.newlines
      then go s
      else push_piece (record s { combining_run = s.combining_run + 1 }) c
  | Class.keep ↦ push_piece (record s { combining_run = 0 }) c
]

-- The body of the loop: "\r\n" is one break.
pub message_turn : Message → ℕ → Turn Message
unfolding message_class
message_turn s c =
    if s.prev_cr && c == line_feed
    then go (record s { prev_cr = false })
    else message_class (record s { prev_cr = c == 0x0D }) c

pub message_loop : List ℕ → Message → Str
unfolding message_turn
message_loop [] s = s.out
message_loop (c ∷ cs) s = elim (message_turn s c) [ go t ↦ message_loop cs t | stop out ↦ out ]

abbrev pub message_start : Message
message_start = record {
  out = [];
  combining_run = 0;
  newlines = 0;
  pending_space = false;
  prev_cr = false;
}

unfoldable pub message : Str → Str
unfolding message_loop
message raw = trim_end (message_loop raw message_start)
