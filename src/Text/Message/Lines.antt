-- ===== src/Text/Message/Lines.antt =====
-- What a text that `message` of text.rs collects is like, at every turn of its loop.
use sukkula.Base.{
  ℕ, ◌+◌, ◌≤◌, ◌<◌, ◌≡◌, refl, ◌∙◌, Bool, true, false, not, ◌&&◌, [], ◌∷◌, ◌++◌, arith, ltb, ◌==◌,
  if◌then◌else◌, is_empty, all, Str, len_utf8, byte_len, all-append, byte_len-append, tests,
}
use sukkula.Limits.{max_message_bytes}
use sukkula.Text.{Class, classify, is_forbidden_in_message}
use sukkula.Text.Message.{line_feed}

abbrev pub is_allowed : ℕ → Bool
is_allowed c = not (is_forbidden_in_message c)

-- Whether a text that follows `n` line feeds has at most three line feeds in a row.
abbrev pub few_feeds : ℕ → Str → Bool
few_feeds n [] = true
few_feeds n (c ∷ cs) = if c == line_feed then ltb n 3 && few_feeds (n + 1) cs else few_feeds 0 cs

-- How many line feeds a text that follows `n` of them ends with.
abbrev pub last_feeds : ℕ → Str → ℕ
last_feeds n [] = n
last_feeds n (c ∷ cs) = if c == line_feed then last_feeds (n + 1) cs else last_feeds 0 cs

few_feeds-push :
    (n : ℕ) (s : Str) (c : ℕ)
    → few_feeds n (s ++ c ∷ [])
      ≡ few_feeds n s && (if c == line_feed then ltb (last_feeds n s) 3 else true)
few_feeds-push n [] c = ground arith
few_feeds-push n (x ∷ s) c = ground (arith, few_feeds-push (n + 1) s c, few_feeds-push 0 s c)

pub last_feeds-push :
    (n : ℕ) (s : Str) (c : ℕ)
    → last_feeds n (s ++ c ∷ []) ≡ (if c == line_feed then last_feeds n s + 1 else 0)
last_feeds-push n [] c = ground arith
last_feeds-push n (x ∷ s) c = ground (arith, last_feeds-push (n + 1) s c, last_feeds-push 0 s c)

pub few_feeds-prefix : (n : ℕ) (s t : Str) → few_feeds n (s ++ t) ≡ true → few_feeds n s ≡ true
few_feeds-prefix n [] t h = refl
few_feeds-prefix n (c ∷ s) t h =
    ground (arith, few_feeds-prefix (n + 1) s t, few_feeds-prefix 0 s t)

abbrev pub is_kept : ℕ → Bool
is_kept c = elim (classify c) [ Class.keep ↦ true | _ ↦ false ]

-- Whether a text is empty or starts with a character of its own.
abbrev pub starts_kept : Str → Bool
starts_kept [] = true
starts_kept (c ∷ cs) = is_kept c

starts_kept-push :
    (s : Str) (c : ℕ)
    → starts_kept s ≡ true
    → (is_empty s ≡ true → is_kept c ≡ true)
    → starts_kept (s ++ c ∷ []) ≡ true
starts_kept-push [] c h k = k refl
starts_kept-push (x ∷ s) c h k = h

-- A text that `message` may hand out.
pub record IsLines (s : Str) : Type 0 where
  pub within : byte_len s ≤ max_message_bytes
  pub allowed : all is_allowed s ≡ true
  pub few : few_feeds 0 s ≡ true
  pub starts : starts_kept s ≡ true

pub IsLines-push :
    (s : Str) (c : ℕ)
    → IsLines s
    → byte_len s + len_utf8 c ≤ max_message_bytes
    → is_allowed c ≡ true
    → ((c == line_feed) ≡ true → last_feeds 0 s < 3)
    → (is_empty s ≡ true → is_kept c ≡ true)
    → IsLines (s ++ c ∷ [])
IsLines-push s c v h a f k = record {
  within = omega (arith, byte_len-append s (c ∷ []));
  allowed = ground (arith, all-append is_allowed s (c ∷ []), v.allowed);
  few = few_feeds-push 0 s c ∙ rw v.few (room (c == line_feed) f);
  starts = starts_kept-push s c v.starts k;
}
  where
    room :
        (b : Bool)
        → (b ≡ true → last_feeds 0 s < 3)
        → true && (if b then ltb (last_feeds 0 s) 3 else true) ≡ true
    room true g = omega (tests, g refl)
    room false g = refl
