-- ===== src/Text/Message/Pieces.antt =====
-- What a piece does to the text that `message` of text.rs collects.
use sukkula.Base.{
  ℕ, ◌+◌, ◌≤◌, ◌<◌, ◌≡◌, refl, sym, ◌∙◌, true, false, not, ◌&&◌, [], ◌∷◌, ◌++◌, arith, ltb, ◌==◌,
  if◌then◌else◌, is_empty, Str, len_utf8, byte_len, ends_with, Bool-cases, inl, inr, tests,
  is_empty-append_cons,
}
use sukkula.Limits.{max_message_bytes}
use sukkula.Text.{classify, Turn, go, stop, is_forbidden_in_message}
use sukkula.Text.Message.{Message, line_feed, spread, push_piece}
use sukkula.Text.Message.Lines.{
  is_allowed, is_kept, last_feeds, IsLines, IsLines-push, last_feeds-push,
}

-- What holds of the loop's variables.
pub record IsGood (s : Message) : Type 0 where
  pub lines : IsLines s.out
  pub feeds : s.newlines ≡ last_feeds 0 s.out

abbrev pub GoodTurn : Turn Message → Type 0
GoodTurn (go s) = IsGood s
GoodTurn (stop out) = IsLines out

-- The last step of a turn, after `spread`.
push_last : (s : Message) (c : ℕ) → Turn Message
push_last s c =
    if ltb max_message_bytes (byte_len s.out + len_utf8 c)
    then stop s.out
    else go (record s { out = s.out ++ c ∷ [] })

push_last-Good :
    (s : Message) (c : ℕ)
    → IsLines s.out
    → is_allowed c ≡ true
    → ((c == line_feed) ≡ true → last_feeds 0 s.out < 3)
    → (is_empty s.out ≡ true → is_kept c ≡ true)
    → s.newlines ≡ (if c == line_feed then last_feeds 0 s.out + 1 else 0)
    → GoodTurn (push_last s c)
unfolding push_last
push_last-Good s c v a f k n =
    elim (Bool-cases (ltb max_message_bytes (byte_len s.out + len_utf8 c))) [
      | inl e ↦ rw e v
      | inr e ↦ rw e (record {
        lines = IsLines-push s.out c v (omega tests) a f k;
        feeds = n ∙ sym (last_feeds-push 0 s.out c);
      })
    ]

-- A piece that is no line break, after `spread`.
push_after_space-Good :
    (s : Message) (c : ℕ)
    → IsLines s.out
    → is_allowed c ≡ true
    → (c == line_feed) ≡ false
    → (is_empty s.out ≡ true → is_kept c ≡ true)
    → s.newlines ≡ 0
    → GoodTurn (push_last s c)
push_after_space-Good s c v a e k n = push_last-Good s c v a (λ p. cc) k (rw e n)

allowed-blank : is_allowed b' ' ≡ true
unfolding is_forbidden_in_message classify
allowed-blank = refl

allowed-feed : is_allowed line_feed ≡ true
unfolding is_forbidden_in_message classify
allowed-feed = refl

len_utf8-blank : len_utf8 b' ' ≡ 1
unfolding len_utf8
len_utf8-blank = refl

spaced-IsLines :
    (s : Str)
    → IsLines s
    → is_empty s ≡ false
    → byte_len s + 1 ≤ max_message_bytes
    → IsLines (s ++ b' ' ∷ [])
spaced-IsLines s v n h =
    IsLines-push s b' ' v (omega (arith, h, len_utf8-blank)) allowed-blank (λ p. ground arith)
      (λ p. cc)

-- What `spread` leaves before a piece that is no line break.
abbrev GoodSpread : Message → Turn Message → Type 0
GoodSpread s (go t) =
    IsLines t.out × (t.newlines ≡ 0) × (is_empty t.out ≡ true → is_empty s.out ≡ true)
GoodSpread s (stop out) = IsLines out

spread_text : (s : Message) → Turn Message
spread_text s =
    if s.pending_space && not (is_empty s.out) && not (ends_with s.out line_feed)
    then (if ltb max_message_bytes (byte_len s.out + 1)
        then stop s.out
        else go (record s { out = s.out ++ b' ' ∷ []; pending_space = false; newlines = 0 }))
    else go (record s { pending_space = false; newlines = 0 })

spread_text_lem : (s : Message) (c : ℕ) → (c == line_feed) ≡ false → spread s c ≡ spread_text s
unfolding spread spread_text
spread_text_lem s c e = rw e refl

spread_text-Good : (s : Message) → IsLines s.out → GoodSpread s (spread_text s)
unfolding spread_text
spread_text-Good s v =
    elim (Bool-cases (s.pending_space && not (is_empty s.out) && not (ends_with s.out line_feed))) [
      | inl p ↦ rw p (elim (Bool-cases (ltb max_message_bytes (byte_len s.out + 1))) [
        | inl q ↦ rw q v
        | inr q ↦ rw q (
          spaced-IsLines s.out v (ground arith) (omega tests),
          refl,
          λ h. ground (arith, is_empty-append_cons s.out [] b' '),
        )
      ])
      | inr p ↦ rw p (v, refl, λ h. h)
    ]

-- The rest of `push_piece`.
push_after : Turn Message → ℕ → Turn Message
push_after (stop out) c = stop out
push_after (go t) c = push_last t c

push_piece_lem : (s : Message) (c : ℕ) → push_piece s c ≡ push_after (spread s c) c
unfolding push_piece push_after push_last
push_piece_lem s c = go_on (spread s c)
  where
    go_on :
        (t : Turn Message)
        → elim t [
          | stop out ↦ stop out
          | go u ↦
              (if ltb max_message_bytes (byte_len u.out + len_utf8 c)
                then stop u.out
                else go (record u { out = u.out ++ c ∷ [] }))
        ]
          ≡ push_after t c
    go_on (stop out) = refl
    go_on (go u) = refl

push_after-Good :
    (s : Message) (t : Turn Message) (c : ℕ)
    → GoodSpread s t
    → is_allowed c ≡ true
    → (c == line_feed) ≡ false
    → (is_empty s.out ≡ true → is_kept c ≡ true)
    → GoodTurn (push_after t c)
unfolding push_after
push_after-Good s (stop out) c v a e k = v
push_after-Good s (go t) c v a e k = push_after_space-Good t c v.0 a e (λ h. k (v.2 h)) v.1

pub push_piece-Good :
    (s : Message) (c : ℕ)
    → IsLines s.out
    → is_allowed c ≡ true
    → (c == line_feed) ≡ false
    → (is_empty s.out ≡ true → is_kept c ≡ true)
    → GoodTurn (push_piece s c)
push_piece-Good s c v a e k =
    rw (push_piece_lem s c, spread_text_lem s c e)
      (push_after-Good s (spread_text s) c (spread_text-Good s v) a e k)

pub push_feed-Good :
    (s : Message)
    → IsLines s.out
    → is_empty s.out ≡ false
    → last_feeds 0 s.out < 3
    → s.newlines ≡ last_feeds 0 s.out + 1
    → GoodTurn (push_piece s line_feed)
unfolding push_piece spread push_last
push_feed-Good s v n f e = push_last-Good s line_feed v allowed-feed (λ p. f) (λ p. cc) e
