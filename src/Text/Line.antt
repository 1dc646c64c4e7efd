-- ===== src/Text/Line.antt =====
-- `display` of crates/sukkula-core/src/text.rs: one short line without forbidden characters.
pub mod Shown
use sukkula.Base.{
  ℕ, zero, suc, ◌+◌, ◌-◌, ◌≤◌, ◌<◌, ◌≡◌, refl, sym, ap, ◌∙◌, Bool, true, false, not, ◌&&◌, ◌||◌,
  List, [], ◌∷◌, ◌++◌, arith, ltb, leb, ◌==◌, if◌then◌else◌, is_empty, all, Str, Bool-cases, inl,
  inr, all-append, length, length-append, tests, pop, trim_end_matches, trim_end_matches-prefix,
  is_empty-append_cons,
}
use sukkula.Limits.{max_combining_run}
use sukkula.Text.{
  Class, classify, Turn, go, stop, is_forbidden, Display, pop_to, truncated, push_kept,
  display_turn, display_loop, display_start, display,
}

abbrev pub is_showable : ℕ → Bool
is_showable c = not (is_forbidden c)

-- What holds of the loop's variables.
record IsLine (limit : ℕ) (s : Display) : Type 0 where
  count : length s.out ≡ s.chars
  within : s.chars ≤ limit
  showable : all is_showable s.out ≡ true

-- A text that `display` may hand out.
pub record IsShort (limit : ℕ) (out : Str) : Type 0 where
  pub within : length out ≤ limit
  pub showable : all is_showable out ≡ true

length-pop : (s : Str) → length (pop s) ≡ length s - 1
unfolding pop
length-pop [] = refl
length-pop (c ∷ []) = refl
length-pop (c ∷ d ∷ s) = omega (arith, length-pop (d ∷ s))

all-pop : (p : ℕ → Bool) (s : Str) → all p s ≡ true → all p (pop s) ≡ true
unfolding pop
all-pop p [] h = refl
all-pop p (c ∷ []) h = refl
all-pop p (c ∷ d ∷ s) h = ground (arith, all-pop p (d ∷ s))

pop_to-room :
    (n limit : ℕ) (out : Str)
    → length out ≡ n
    → 0 < limit
    → n ≤ limit
    → length (pop_to n limit out) < limit
unfolding pop_to
pop_to-room zero limit out e h k = omega arith
pop_to-room (suc n) limit out e h k = ground (arith, pop_to-room n limit (pop out), length-pop out)

pop_to-all :
    (p : ℕ → Bool) (n limit : ℕ) (out : Str) → all p out ≡ true → all p (pop_to n limit out) ≡ true
unfolding pop_to
pop_to-all p zero limit out h = h
pop_to-all p (suc n) limit out h = ground (arith, pop_to-all p n limit (pop out), all-pop p out)

length-trim_end_matches : (p : ℕ → Bool) (s : Str) → length (trim_end_matches p s) ≤ length s
length-trim_end_matches p s =
    let (t, e) = trim_end_matches-prefix p s in
    omega (arith, length-append (trim_end_matches p s) t, ap (λ (x : Str). length x) e)

all-trim_end_matches :
    (p q : ℕ → Bool) (s : Str) → all p s ≡ true → all p (trim_end_matches q s) ≡ true
all-trim_end_matches p q s h =
    let (t, e) = trim_end_matches-prefix q s in
    ground (arith, all-append p (trim_end_matches q s) t, e)

showable-ellipsis : is_showable 0x2026 ≡ true
unfolding is_forbidden classify
showable-ellipsis = refl

showable-blank : is_showable b' ' ≡ true
unfolding is_forbidden classify
showable-blank = refl

truncated-IsShort :
    (limit : ℕ) (s : Display) → 0 < limit → IsLine limit s → IsShort limit (truncated limit s)
unfolding truncated
truncated-IsShort limit s h v =
    let out = pop_to s.chars limit s.out in
    let blank : ℕ → Bool = λ c. c == b' ' in
    record {
      within = omega (
        arith,
        length-append (trim_end_matches blank out) (0x2026 ∷ []),
        length-trim_end_matches blank out,
        pop_to-room s.chars limit s.out v.count h v.within,
      );
      showable = ground (
        arith,
        all-append is_showable (trim_end_matches blank out) (0x2026 ∷ []),
        all-trim_end_matches is_showable blank out,
        pop_to-all is_showable s.chars limit s.out v.showable,
        showable-ellipsis,
      );
    }

abbrev GoodTurn : ℕ → Turn Display → Type 0
GoodTurn limit (go s) = IsLine limit s
GoodTurn limit (stop out) = IsShort limit out

push_kept-Good :
    (limit : ℕ) (s : Display) (c : ℕ)
    → 0 < limit
    → IsLine limit s
    → is_showable c ≡ true
    → GoodTurn limit (push_kept limit s c)
unfolding push_kept
push_kept-Good limit s c h v a = elim (Bool-cases (s.pending_space && not (is_empty s.out))) [
  | inl p ↦ rw p (elim (Bool-cases (ltb limit (s.chars + 2))) [
    | inl q ↦ rw q (truncated-IsShort limit s h v)
    | inr q ↦ rw q (record {
      count = omega (arith, v.count, length-append s.out (b' ' ∷ c ∷ []));
      within = omega tests;
      showable =
          ground (arith, all-append is_showable s.out (b' ' ∷ c ∷ []), v.showable, showable-blank);
    })
  ])
  | inr p ↦ rw p (elim (Bool-cases (ltb limit (s.chars + 1))) [
    | inl q ↦ rw q (truncated-IsShort limit s h v)
    | inr q ↦ rw q (record {
      count = omega (arith, v.count, length-append s.out (c ∷ []));
      within = omega tests;
      showable = ground (arith, all-append is_showable s.out (c ∷ []), v.showable);
    })
  ])
]

-- The match on a class that is known.
on_class : ℕ → Display → ℕ → Class → Turn Display
on_class limit s c Class.drop = go s
on_class limit s c Class.space = go (record s { pending_space = true })
on_class limit s c Class.newline = go (record s { pending_space = true })
on_class limit s c Class.combining =
    if is_empty s.out || leb max_combining_run s.combining_run
    then go s
    else push_kept limit (record s { combining_run = s.combining_run + 1 }) c
on_class limit s c Class.keep = push_kept limit (record s { combining_run = 0 }) c

display_turn_lem :
    (limit : ℕ) (s : Display) (c : ℕ) (k : Class)
    → classify c ≡ k
    → display_turn limit s c ≡ on_class limit s c k
unfolding display_turn on_class
display_turn_lem limit s c Class.drop e = rw (e, display_turn) refl
display_turn_lem limit s c Class.space e = rw (e, display_turn) refl
display_turn_lem limit s c Class.newline e = rw (e, display_turn) refl
display_turn_lem limit s c Class.combining e = rw (e, display_turn) refl
display_turn_lem limit s c Class.keep e = rw (e, display_turn) refl

on_class-Good :
    (limit : ℕ) (s : Display) (c : ℕ) (k : Class)
    → 0 < limit
    → IsLine limit s
    → classify c ≡ k
    → GoodTurn limit (on_class limit s c k)
unfolding on_class is_forbidden
on_class-Good limit s c Class.drop h v e = v
on_class-Good limit s c Class.space h v e = record {
  count = v.count;
  within = v.within;
  showable = v.showable;
}
on_class-Good limit s c Class.newline h v e = record {
  count = v.count;
  within = v.within;
  showable = v.showable;
}
on_class-Good limit s c Class.combining h v e =
    elim (Bool-cases (is_empty s.out || leb max_combining_run s.combining_run)) [
      | inl p ↦ rw p v
      | inr p ↦ rw p (
          push_kept-Good limit (record s { combining_run = s.combining_run + 1 }) c h
            (record { count = v.count; within = v.within; showable = v.showable })
            (rw (e, is_forbidden) refl))
    ]
on_class-Good limit s c Class.keep h v e =
    push_kept-Good limit (record s { combining_run = 0 }) c h
      (record { count = v.count; within = v.within; showable = v.showable })
      (rw (e, is_forbidden) refl)

continue : ℕ → List ℕ → Turn Display → Str
continue limit cs (go t) = display_loop limit cs t
continue limit cs (stop out) = out

display_loop_lem :
    (limit : ℕ) (s : Display) (c : ℕ) (cs : List ℕ)
    → display_loop limit (c ∷ cs) s ≡ continue limit cs (display_turn limit s c)
unfolding display_loop continue
display_loop_lem limit s c cs =
    elim (display_turn limit s c)
      as (λ t. elim t [ go u ↦ display_loop limit cs u | stop out ↦ out ] ≡ continue limit cs t) [
        | go u ↦ refl
        | stop out ↦ refl
      ]

display_loop-IsShort :
    (limit : ℕ) (cs : List ℕ) (s : Display)
    → 0 < limit
    → IsLine limit s
    → IsShort limit (display_loop limit cs s)
unfolding display_loop continue
display_loop-IsShort limit [] s h v = record {
  within = omega (arith, v.count, v.within);
  showable = v.showable;
}
display_loop-IsShort limit (c ∷ cs) s h v =
    rw (display_loop_lem limit s c cs, display_turn_lem limit s c (classify c) refl)
      (go_on (on_class limit s c (classify c)) (on_class-Good limit s c (classify c) h v refl)
        (λ t. display_loop-IsShort limit cs t h))
  where
    go_on :
        (t : Turn Display)
        → GoodTurn limit t
        → ((u : Display) → IsLine limit u → IsShort limit (display_loop limit cs u))
        → IsShort limit (continue limit cs t)
    go_on (go u) w ih = ih u w
    go_on (stop out) w ih = w

-- For every text and limit, the line that is shown has at most `limit` characters, none of them
-- forbidden.
pub display-IsShort : (raw : Str) (limit : ℕ) → IsShort limit (display raw limit)
unfolding display
display-IsShort raw limit = elim (Bool-cases (limit == 0)) [
  | inl e ↦ rw e (record { within = omega arith; showable = refl })
  | inr e ↦ rw e (
      display_loop-IsShort limit raw display_start (ground (arith, e))
        (record { count = refl; within = omega arith; showable = refl }))
]
