-- ===== src/Text/Line/Shown.antt =====
-- When `display` of text.rs shows nothing.
use sukkula.Base.{
  ℕ, ◌+◌, ◌<◌, ◌≡◌, refl, Bool, true, false, not, ◌&&◌, ◌||◌, List, [], ◌∷◌, arith, ltb, leb, ◌==◌,
  is_empty, any, Str, Bool-cases, inl, inr, is_empty-append_cons, trim_end_matches,
}
use sukkula.Limits.{max_combining_run}
use sukkula.Text.{
  Class, classify, Turn, go, stop, Display, pop_to, truncated, push_kept, display_loop,
  display_start, display,
}
use sukkula.Text.Line.{on_class, display_turn_lem, continue, display_loop_lem}

abbrev is_keep_class : Class → Bool
is_keep_class Class.keep = true
is_keep_class _ = false

-- Whether a character is shown for its own sake: not a mark, not white space, not dropped.
abbrev pub is_shown : ℕ → Bool
is_shown c = is_keep_class (classify c)

abbrev text_after : Turn Display → Str
text_after (go s) = s.out
text_after (stop out) = out

truncated_shown : (limit : ℕ) (s : Display) → is_empty (truncated limit s) ≡ false
unfolding truncated
truncated_shown limit s =
    is_empty-append_cons (trim_end_matches (λ c. c == b' ') (pop_to s.chars limit s.out)) [] 0x2026

push_kept-shown :
    (limit : ℕ) (s : Display) (c : ℕ) → is_empty (text_after (push_kept limit s c)) ≡ false
unfolding push_kept
push_kept-shown limit s c = elim (Bool-cases (s.pending_space && not (is_empty s.out))) [
  | inl p ↦ rw p (elim (Bool-cases (ltb limit (s.chars + 2))) [
    | inl q ↦ rw q (truncated_shown limit s)
    | inr q ↦ rw q (is_empty-append_cons s.out (c ∷ []) b' ')
  ])
  | inr p ↦ rw p (elim (Bool-cases (ltb limit (s.chars + 1))) [
    | inl q ↦ rw q (truncated_shown limit s)
    | inr q ↦ rw q (is_empty-append_cons s.out [] c)
  ])
]

on_class-shown :
    (limit : ℕ) (s : Display) (c : ℕ) (k : Class)
    → is_empty (text_after (on_class limit s c k)) ≡ is_empty s.out && not (is_keep_class k)
unfolding on_class
on_class-shown limit s c Class.drop = ground arith
on_class-shown limit s c Class.space = ground arith
on_class-shown limit s c Class.newline = ground arith
on_class-shown limit s c Class.combining =
    elim (Bool-cases (is_empty s.out || leb max_combining_run s.combining_run)) [
      | inl p ↦ rw p (ground arith)
      | inr p ↦
          rw (p, push_kept-shown limit (record s { combining_run = s.combining_run + 1 }) c)
            (ground arith)
    ]
on_class-shown limit s c Class.keep =
    rw (push_kept-shown limit (record s { combining_run = 0 }) c) (ground arith)

-- The loop stops early only with something to show.
abbrev stops_shown : Turn Display → Bool
stops_shown (go s) = true
stops_shown (stop out) = not (is_empty out)

shown_stop : (t : Turn Display) → is_empty (text_after t) ≡ false → stops_shown t ≡ true
shown_stop (go s) h = refl
shown_stop (stop out) h = rw h refl

on_class-stops :
    (limit : ℕ) (s : Display) (c : ℕ) (k : Class) → stops_shown (on_class limit s c k) ≡ true
unfolding on_class
on_class-stops limit s c Class.drop = refl
on_class-stops limit s c Class.space = refl
on_class-stops limit s c Class.newline = refl
on_class-stops limit s c Class.combining =
    elim (Bool-cases (is_empty s.out || leb max_combining_run s.combining_run)) [
      | inl p ↦ rw p refl
      | inr p ↦ rw p (
          shown_stop _ (push_kept-shown limit (record s { combining_run = s.combining_run + 1 }) c))
    ]
on_class-stops limit s c Class.keep =
    shown_stop _ (push_kept-shown limit (record s { combining_run = 0 }) c)

display_loop-shown :
    (limit : ℕ) (cs : List ℕ) (s : Display)
    → is_empty (display_loop limit cs s) ≡ is_empty s.out && not (any is_shown cs)
unfolding display_loop continue
display_loop-shown limit [] s = ground arith
display_loop-shown limit (c ∷ cs) s =
    rw (display_loop_lem limit s c cs, display_turn_lem limit s c (classify c) refl)
      (go_on (on_class limit s c (classify c)) (on_class-shown limit s c (classify c))
        (on_class-stops limit s c (classify c)) (λ t. display_loop-shown limit cs t))
  where
    go_on :
        (t : Turn Display)
        → is_empty (text_after t) ≡ is_empty s.out && not (is_shown c)
        → stops_shown t ≡ true
        → ((u : Display)
            → is_empty (display_loop limit cs u) ≡ is_empty u.out && not (any is_shown cs))
        → is_empty (continue limit cs t) ≡ is_empty s.out && not (is_shown c || any is_shown cs)
    go_on (go u) e r ih = ground (arith, ih u)
    go_on (stop out) e r ih = ground arith

-- A line of at least one character is empty exactly when no character of the text is shown for its
-- own sake.
display-is_empty :
    (raw : Str) (limit : ℕ) → 0 < limit → is_empty (display raw limit) ≡ not (any is_shown raw)
unfolding display
display-is_empty raw limit h =
    let e : (limit == 0) ≡ false = ground arith in rw e (display_loop-shown limit raw display_start)
