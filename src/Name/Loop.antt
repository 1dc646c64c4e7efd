-- ===== src/Name/Loop.antt =====
-- The loop of `sanitize` in name.rs: what it produces is clean, and what is clean it keeps.
use sukkula.Base.{
  ℕ, ◌+◌, ◌≡◌, ◌≢◌, refl, ap, ◌∙◌, true, false, not, ◌&&◌, some, [], ◌∷◌, ◌++◌, arith, ltb, ◌==◌,
  if◌then◌else◌, is_empty, any, Str, byte_len, ends_with, Bool-cases, inl, inr,
  ends_with-append_cons, is_empty-append_cons,
}
use sukkula.Limits.{max_combining_run}
use sukkula.Text.{Class, classify}
use sukkula.Name.{dot, is_separator, Scan, scan_turn, scan, scan_start, scan_bytes}
use sukkula.Name.Clean.{
  Place, start, on_dot, on_space, on_base, step, walk, walk-append, walk-nil, classify-dot,
  classify-blank,
}

-- How the loop's variables stand when the text made so far ends at a place.
abbrev At : Scan → Place → Type 0
At s start = s.cleaned ≡ []
At s on_dot = (is_empty s.cleaned ≡ false) × (ends_with s.cleaned dot ≡ true)
At s on_space = ⊥
At s (on_base k) =
    (is_empty s.cleaned ≡ false) × (ends_with s.cleaned dot ≡ false) × (s.combining_run ≡ k)

-- The text made so far is clean.
pub record IsClean (s : Scan) : Type 0 where
  pub place : Place
  pub walked : walk (some start) s.cleaned ≡ some place
  pub at : At s place

At-start : (s : Scan) (p : Place) → At s p → p ≡ start → is_empty s.cleaned ≡ true
At-start s start a e = rw a
At-start s on_dot a e = absurd (grind arith)
At-start s on_space a e = absurd a
At-start s (on_base k) a e = absurd (grind arith)

At-on_space : (s : Scan) (p : Place) → At s p → p ≢ on_space
At-on_space s start a e = grind arith
At-on_space s on_dot a e = grind arith
At-on_space s on_space a e = a
At-on_space s (on_base k) a e = grind arith

walk-snoc :
    (t : Str) (c : ℕ) (p : Place)
    → walk (some start) t ≡ some p
    → walk (some start) (t ++ c ∷ []) ≡ step p c
walk-snoc t c p h = walk-append (some start) t (c ∷ []) ∙ rw h (unfold walk in walk-nil (step p c))

walk-spaced :
    (t : Str) (c : ℕ) (p : Place)
    → walk (some start) t ≡ some p
    → walk (some start) (t ++ b' ' ∷ c ∷ []) ≡ walk (step p b' ') (c ∷ [])
walk-spaced t c p h = walk-append (some start) t (b' ' ∷ c ∷ []) ∙ rw h (unfold walk in refl)

pub step-blank : (p : Place) → p ≢ start → p ≢ on_space → step p b' ' ≡ some on_space
unfolding step
step-blank start h k = absurd (h refl)
step-blank on_space h k = absurd (k refl)
step-blank on_dot h k = ground (arith, classify-blank)
step-blank (on_base n) h k = ground (arith, classify-blank)

module _ (c : ℕ) (kind : classify c ≡ Class.keep) (plain : is_separator c ≡ false) where
  -- A kept character other than a dot, after any text.
  step-base : (p : Place) → (c == dot) ≡ false → step p c ≡ some (on_base 0)
  unfolding step
  step-base p h = ground arith

  step-dot : (p : Place) → p ≢ start → (c == dot) ≡ true → step p c ≡ some on_dot
  unfolding step
  step-dot start n h = absurd (n refl)
  step-dot on_dot n h = ground arith
  step-dot on_space n h = ground arith
  step-dot (on_base k) n h = ground arith

  abbrev target : Place
  target = if c == dot then on_dot else on_base 0

  step-target : (p : Place) → (p ≡ start → (c == dot) ≡ false) → step p c ≡ some target
  step-target p n = elim (Bool-cases (c == dot)) [
    | inl d ↦ rw d (step-dot p (λ e. cc (n e)) d)
    | inr d ↦ rw d (step-base p d)
  ]

  -- After a space, which follows anything but a start or a space.
  walk-target : (p : Place) → p ≢ start → p ≢ on_space → walk (step p b' ') (c ∷ []) ≡ some target
  walk-target p n m =
      rw (step-blank p n m)
        (unfold walk in rw (step-target on_space (λ e. grind arith), walk) (walk-nil _))

  pushed : Scan → Scan
  pushed s = record s {
    cleaned =
        (if s.pending_space && not (is_empty s.cleaned)
          then s.cleaned ++ b' ' ∷ c ∷ []
          else s.cleaned ++ c ∷ []);
    pending_space = false;
    combining_run = 0;
  }

  pushed-At : (s : Scan) → At (pushed s) target
  unfolding pushed ends_with
  pushed-At s = ground (
    arith,
    is_empty-append_cons s.cleaned [] c,
    is_empty-append_cons s.cleaned (c ∷ []) b' ',
    ends_with-append_cons s.cleaned [] c dot,
    ends_with-append_cons s.cleaned (c ∷ []) b' ' dot,
  )

  pushed-IsClean :
      (s : Scan) → (is_empty s.cleaned ≡ true → (c == dot) ≡ false) → IsClean s → IsClean (pushed s)
  unfolding pushed
  pushed-IsClean s n v = record {
    place = target;
    walked = elim (Bool-cases (s.pending_space && not (is_empty s.cleaned))) [
      | inl b ↦ rw b (
          walk-spaced s.cleaned c v.place v.walked
          ∙ walk-target v.place (λ e. ground (arith, At-start s v.place v.at e))
              (At-on_space s v.place v.at))
      | inr b ↦ rw b (
          walk-snoc s.cleaned c v.place v.walked
          ∙ step-target v.place (λ e. n (At-start s v.place v.at e)))
    ];
    at = pushed-At s;
  }

-- A mark on a base that has room for it.
marked : Scan → ℕ → Scan
marked s c = record s { combining_run = s.combining_run + 1; cleaned = s.cleaned ++ c ∷ [] }

marked-IsClean :
    (s : Scan) (c : ℕ) (p : Place)
    → classify c ≡ Class.combining
    → (c == dot) ≡ false
    → walk (some start) s.cleaned ≡ some p
    → At s p
    → (not (is_empty s.cleaned)
        && not (ends_with s.cleaned dot)
        && ltb s.combining_run max_combining_run)
      ≡ true
    → IsClean (marked s c)
unfolding marked
marked-IsClean s c start kind d w a h = absurd (ground arith)
marked-IsClean s c on_dot kind d w a h = absurd (ground arith)
marked-IsClean s c on_space kind d w a h = absurd a
marked-IsClean s c (on_base k) kind d w a h = record {
  place = on_base (k + 1);
  walked = walk-snoc s.cleaned c (on_base k) w ∙ (unfold step in ground arith);
  at = (
    is_empty-append_cons s.cleaned [] c,
    ends_with-append_cons s.cleaned [] c dot ∙ (unfold ends_with in d),
    ap (λ n. n + 1) a.2,
  );
}

dot-ne-combining : (c : ℕ) → classify c ≡ Class.combining → (c == dot) ≡ false
dot-ne-combining c h = ground (arith, classify-dot)

At-same :
    (s t : Scan) (p : Place)
    → t.cleaned ≡ s.cleaned
    → t.combining_run ≡ s.combining_run
    → At s p
    → At t p
At-same s t start e f a = e ∙ a
At-same s t on_dot e f a = rw e a
At-same s t on_space e f a = a
At-same s t (on_base k) e f a = rw (e, f) a

IsClean-same :
    (s t : Scan) → t.cleaned ≡ s.cleaned → t.combining_run ≡ s.combining_run → IsClean s → IsClean t
IsClean-same s t e f v = record {
  place = v.place;
  walked = rw e v.walked;
  at = At-same s t v.place e f v.at;
}

-- One turn of the loop keeps what was made clean.
scan_turn-IsClean :
    (s : Scan) (c : ℕ) → is_separator c ≡ false → IsClean s → IsClean (scan_turn s c)
unfolding scan_turn
scan_turn-IsClean s c plain v = go (classify c) refl
  where
    go : (k : Class) → classify c ≡ k → IsClean (scan_turn s c)
    go Class.drop e = rw (e, scan_turn) v
    go Class.space e = rw (e, scan_turn) (IsClean-same s _ refl refl v)
    go Class.newline e = rw (e, scan_turn) (IsClean-same s _ refl refl v)
    go Class.combining e =
        rw (e, scan_turn)
          (elim (Bool-cases (
            not (is_empty s.cleaned)
            && not (ends_with s.cleaned dot)
            && ltb s.combining_run max_combining_run)) [
              | inl b ↦ rw b (
                  unfold marked in
                  marked-IsClean s c v.place e (dot-ne-combining c e) v.walked v.at b)
              | inr b ↦ rw b v
            ])
    go Class.keep e =
        rw (e, scan_turn)
          (elim (Bool-cases (c == dot && is_empty s.cleaned)) [
            | inl b ↦ rw b v
            | inr b ↦ rw b (unfold pushed in pushed-IsClean c e plain s (λ h. ground arith) v)
          ])

pub scan-IsClean :
    (cs : Str) (s : Scan) → any is_separator cs ≡ false → IsClean s → IsClean (scan cs s)
unfolding scan
scan-IsClean [] s h v = v
scan-IsClean (c ∷ cs) s h v = elim (Bool-cases (ltb scan_bytes (byte_len s.cleaned))) [
  | inl b ↦ rw b (IsClean-same s _ refl refl v)
  | inr b ↦
      rw b (scan-IsClean cs (scan_turn s c) (ground arith) (scan_turn-IsClean s c (ground arith) v))
]

pub scan_start-IsClean : IsClean scan_start
unfolding walk
scan_start-IsClean = record { place = start; walked = refl; at = refl }
