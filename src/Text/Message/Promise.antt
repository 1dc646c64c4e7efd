-- ===== src/Text/Message/Promise.antt =====
-- `message` of text.rs hands out only short texts of allowed characters and few empty lines.
use sukkula.Base.{
  ◌≢◌, ==_iff, ℕ, ◌+◌, ◌≤◌, ◌≡◌, refl, sym, ap, ◌∙◌, true, false, ◌&&◌, ◌||◌, List, [], ◌∷◌, ◌++◌,
  arith, ltb, leb, ◌==◌, if◌then◌else◌, is_empty, all, Str, byte_len, trim_end, Bool-cases, inl,
  inr, all-append, is_whitespace, trim_end_matches-prefix, trim_end_matches_twice,
  byte_len-trim_end_matches,
}
use sukkula.Limits.{max_message_bytes, max_combining_run}
use sukkula.Text.{Class, classify, Turn, go, stop, is_forbidden_in_message}
use sukkula.Text.Message.{
  Message, line_feed, push_piece, message_class, message_turn, message_loop, message_start, message,
}
use sukkula.Text.Message.Lines.{
  is_allowed, is_kept, few_feeds, few_feeds-prefix, starts_kept, IsLines,
}
use sukkula.Text.Message.Pieces.{IsGood, GoodTurn, push_piece-Good, push_feed-Good}

-- Which characters each class has, as far as the loop needs it.
record IsPiece (c : ℕ) : Type 0 where
  allowed : is_allowed c ≡ true
  other : (c == line_feed) ≡ false

classify-feed : classify line_feed ≡ Class.newline
unfolding classify
classify-feed = refl

not_feed : (c : ℕ) (k : Class) → classify c ≡ k → k ≢ Class.newline → (c == line_feed) ≡ false
not_feed c k e n = elim (Bool-cases (c == line_feed)) [
  | inl p ↦ absurd (n (sym e ∙ ap classify ((==_iff c line_feed).0 p) ∙ classify-feed))
  | inr p ↦ p
]

keep-IsPiece : (c : ℕ) → classify c ≡ Class.keep → IsPiece c
unfolding is_forbidden_in_message
keep-IsPiece c e = record {
  allowed = rw (e, is_forbidden_in_message) refl;
  other = not_feed c Class.keep e (λ p. cc);
}

combining-IsPiece : (c : ℕ) → classify c ≡ Class.combining → IsPiece c
unfolding is_forbidden_in_message
combining-IsPiece c e = record {
  allowed = rw (e, is_forbidden_in_message) refl;
  other = not_feed c Class.combining e (λ p. cc);
}

-- The match on a class that is known.
on_class : Message → ℕ → Class → Turn Message
on_class s c Class.drop = go s
on_class s c Class.space = go (record s { pending_space = true })
on_class s c Class.newline =
    if is_empty s.out || leb 3 s.newlines
    then go (record s { pending_space = false })
    else push_piece
        (record s { pending_space = false; newlines = s.newlines + 1; combining_run = 0 }) line_feed
on_class s c Class.combining =
    if is_empty s.out || leb max_combining_run s.combining_run || ltb 0 s.newlines
    then go s
    else push_piece (record s { combining_run = s.combining_run + 1 }) c
on_class s c Class.keep = push_piece (record s { combining_run = 0 }) c

message_class_lem :
    (s : Message) (c : ℕ) (k : Class) → classify c ≡ k → message_class s c ≡ on_class s c k
unfolding message_class on_class
message_class_lem s c Class.drop e = rw (e, message_class) refl
message_class_lem s c Class.space e = rw (e, message_class) refl
message_class_lem s c Class.newline e = rw (e, message_class) refl
message_class_lem s c Class.combining e = rw (e, message_class) refl
message_class_lem s c Class.keep e = rw (e, message_class) refl

on_class-Good :
    (s : Message) (c : ℕ) (k : Class) → IsGood s → classify c ≡ k → GoodTurn (on_class s c k)
unfolding on_class
on_class-Good s c Class.drop v e = v
on_class-Good s c Class.space v e = record { lines = v.lines; feeds = v.feeds }
on_class-Good s c Class.newline v e = elim (Bool-cases (is_empty s.out || leb 3 s.newlines)) [
  | inl p ↦ rw p (record { lines = v.lines; feeds = v.feeds })
  | inr p ↦ rw p (
      push_feed-Good
        (record s { pending_space = false; newlines = s.newlines + 1; combining_run = 0 }) v.lines
        (ground arith) (ground (arith, v.feeds)) (ap (λ n. n + 1) v.feeds))
]
on_class-Good s c Class.combining v e =
    elim (Bool-cases
      (is_empty s.out || leb max_combining_run s.combining_run || ltb 0 s.newlines)) [
        | inl p ↦ rw p v
        | inr p ↦ rw p (
            let q = combining-IsPiece c e in
            push_piece-Good (record s { combining_run = s.combining_run + 1 }) c v.lines q.allowed
              q.other (λ h. ground arith))
      ]
on_class-Good s c Class.keep v e =
    let q = keep-IsPiece c e in
    push_piece-Good (record s { combining_run = 0 }) c v.lines q.allowed q.other
      (λ h. rw (e, is_kept) refl)

message_turn-Good : (s : Message) (c : ℕ) → IsGood s → GoodTurn (message_turn s c)
unfolding message_turn
message_turn-Good s c v = elim (Bool-cases (s.prev_cr && c == line_feed)) [
  | inl p ↦ rw p (record { lines = v.lines; feeds = v.feeds })
  | inr p ↦
      rw (p, message_class_lem (record s { prev_cr = c == 0x0D }) c (classify c) refl)
        (on_class-Good (record s { prev_cr = c == 0x0D }) c (classify c)
          (record { lines = v.lines; feeds = v.feeds }) refl)
]

continue : Turn Message → List ℕ → Str
continue (go t) cs = message_loop cs t
continue (stop out) cs = out

message_loop_lem :
    (s : Message) (c : ℕ) (cs : List ℕ) → message_loop (c ∷ cs) s ≡ continue (message_turn s c) cs
unfolding message_loop continue
message_loop_lem s c cs =
    elim (message_turn s c)
      as (λ t. elim t [ go u ↦ message_loop cs u | stop out ↦ out ] ≡ continue t cs) [
        | go u ↦ refl
        | stop out ↦ refl
      ]

message_loop-IsLines : (cs : List ℕ) (s : Message) → IsGood s → IsLines (message_loop cs s)
unfolding message_loop continue
message_loop-IsLines [] s v = v.lines
message_loop-IsLines (c ∷ cs) s v =
    rw (message_loop_lem s c cs)
      (go_on (message_turn s c) (message_turn-Good s c v) (λ t. message_loop-IsLines cs t))
  where
    go_on :
        (t : Turn Message)
        → GoodTurn t
        → ((u : Message) → IsGood u → IsLines (message_loop cs u))
        → IsLines (continue t cs)
    go_on (go u) w ih = ih u w
    go_on (stop out) w ih = w

-- What a received message is like.
pub record IsPlainMessage (s : Str) : Type 0 where
  pub within : byte_len s ≤ max_message_bytes
  pub allowed : all is_allowed s ≡ true
  pub few : few_feeds 0 s ≡ true
  pub starts : starts_kept s ≡ true
  pub trimmed : trim_end s ≡ s

starts_kept-prefix : (s t : Str) → starts_kept (s ++ t) ≡ true → starts_kept s ≡ true
starts_kept-prefix [] t h = refl
starts_kept-prefix (c ∷ s) t h = h

trim_end-IsPlainMessage : (s : Str) → IsLines s → IsPlainMessage (trim_end s)
trim_end-IsPlainMessage s v =
    let (t, e) = trim_end_matches-prefix is_whitespace s in
    record {
      within = omega (arith, v.within, byte_len-trim_end_matches is_whitespace s);
      allowed = ground (arith, all-append is_allowed (trim_end s) t, e, v.allowed);
      few = few_feeds-prefix 0 (trim_end s) t (rw e v.few);
      starts = starts_kept-prefix (trim_end s) t (rw e v.starts);
      trimmed = trim_end_matches_twice is_whitespace s;
    }

start-IsGood : IsGood message_start
start-IsGood = record {
  lines = record { within = omega arith; allowed = refl; few = refl; starts = refl };
  feeds = refl;
}

-- For every received text, the message is at most 64 KiB long, has no character that a message may
-- not have, has at most three line breaks in a row, starts with a character that is kept, if any,
-- and has no white space at its end.
pub message-IsPlainMessage : (raw : Str) → IsPlainMessage (message raw)
unfolding message
message-IsPlainMessage raw =
    trim_end-IsPlainMessage (message_loop raw message_start)
      (message_loop-IsLines raw message_start start-IsGood)
