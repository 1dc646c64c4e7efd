-- ===== src/Name/Shorten.antt =====
-- The parts of `sanitize` in name.rs around its loop keep a clean text clean.
use sukkula.Base.{
  ℕ, ◌+◌, ◌-◌, ◌≤◌, ◌≡◌, ◌≢◌, refl, sym, ◌∙◌, Bool, true, false, not, ◌&&◌, Option, none, some, [],
  ◌∷◌, ◌++◌, arith, leb, ◌==◌, is_empty, any, all, Str, len_utf8, byte_len, Bool-cases, inl, inr,
  leb→le, byte_len-trim_end_matches, rfind, rfind_parts, trim_end_matches, trim_start_matches,
  trim_end_matches-prefix, all-take, byte_len-append,
}
use sukkula.Limits.{max_name_bytes, max_extension_bytes}
use sukkula.Text.{Class, classify, truncate_bytes}
use sukkula.Text.Truncate.{truncate_bytes-Longest}
use sukkula.Name.{
  dot, is_separator, is_dot_or_space, last_segment, is_keep, filter_keep, take_bytes,
  sanitize_extension, split_at, split_extension, shorten_with, shorten,
}
use sukkula.Name.Clean.{
  Place, start, on_dot, on_space, on_base, step, walk, walk-none, walk-append, walk-nil,
  walk-prefix, classify-dot, classify-blank,
}

-- A text that the automaton reads to its end.
pub record IsAccepted (s : Str) : Type 0 where
  pub place : Place
  pub walked : walk (some start) s ≡ some place

pub IsAccepted-prefix : (s t u : Str) → s ++ t ≡ u → IsAccepted u → IsAccepted s
IsAccepted-prefix s t u e v =
    let (p, w) = walk-prefix (some start) s t {q = v.place} (rw e v.walked) in
    record { place = p; walked = w }

pub IsAccepted-trim_end_matches :
    (p : ℕ → Bool) (s : Str) → IsAccepted s → IsAccepted (trim_end_matches p s)
IsAccepted-trim_end_matches p s v =
    let (t, e) = trim_end_matches-prefix p s in IsAccepted-prefix _ t s e v

pub last_segment-plain : (s : Str) → any is_separator (last_segment s) ≡ false
unfolding last_segment
last_segment-plain [] = refl
last_segment-plain (c ∷ cs) = ground (arith, last_segment-plain cs)

step-ne-start : (p : Place) (c : ℕ) {q : Place} → step p c ≡ some q → q ≢ start
unfolding step
step-ne-start start c h e = ground arith
step-ne-start on_dot c h e = ground arith
step-ne-start on_space c h e = ground arith
step-ne-start (on_base k) c h e = ground arith

-- A text that is not empty does not end where it started.
pub walk-ne-start :
    (p : Place) (c : ℕ) (cs : Str) {q : Place} → walk (some p) (c ∷ cs) ≡ some q → q ≢ start
unfolding walk
walk-ne-start p c [] h e = step-ne-start p c (sym (walk-nil (step p c)) ∙ h) e
walk-ne-start p c (d ∷ cs) {q} h e = go (step p c) refl (λ p' w. walk-ne-start p' d cs {q = q} w e)
  where
    go :
        (o : Option Place)
        → step p c ≡ o
        → ((p' : Place) → walk (some p') (d ∷ cs) ≡ some q → ⊥)
        → ⊥
    go none f ih = cc (rw (f, walk) at h)
    go (some p') f ih = ih p' (rw (f, walk) at h)

step-dot : (p : Place) → p ≢ start → step p dot ≡ some on_dot
unfolding step
step-dot start n = absurd (n refl)
step-dot on_dot n = ground (arith, classify-dot)
step-dot on_space n = ground (arith, classify-dot)
step-dot (on_base k) n = ground (arith, classify-dot)

step_start-dot : step start dot ≡ none
unfolding step
step_start-dot = ground (arith, classify-dot)

step_start-blank : step start b' ' ≡ none
unfolding step
step_start-blank = ground (arith, classify-blank)

classify-slash : classify b'/' ≡ Class.keep
unfolding classify
classify-slash = refl

classify-backslash : classify b'\\' ≡ Class.keep
unfolding classify
classify-backslash = refl

step-separator : (p : Place) (c : ℕ) → is_separator c ≡ true → step p c ≡ none
unfolding step
step-separator p c h = ground (arith, classify-slash, classify-backslash)

-- After a text that is not empty, a dot and what follows it read on from the dot.
pub walk_past_dot :
    (s ext : Str) (p : Place)
    → walk (some start) s ≡ some p
    → p ≢ start
    → walk (some start) (s ++ dot ∷ ext) ≡ walk (some on_dot) ext
walk_past_dot s ext p h n =
    walk-append (some start) s (dot ∷ ext) ∙ rw h (unfold walk in rw (step-dot p n, walk))

pub walk-plain :
    (p : Place) (s : Str) {q : Place} → walk (some p) s ≡ some q → any is_separator s ≡ false
unfolding walk
walk-plain p [] h = refl
walk-plain p (c ∷ cs) {q} h = go (step p c) refl (λ p' w. walk-plain p' cs {q = q} w)
  where
    go :
        (o : Option Place)
        → step p c ≡ o
        → ((p' : Place) → walk (some p') cs ≡ some q → any is_separator cs ≡ false)
        → any is_separator (c ∷ cs) ≡ false
    go none f ih = absurd (cc (rw (f, walk) at h))
    go (some p') f ih = ground (arith, step-separator p c, ih p' (rw (f, walk) at h))

-- Dots and spaces do not stand at the start.
pub first_clean : (c : ℕ) (cs : Str) → IsAccepted (c ∷ cs) → is_dot_or_space c ≡ false
unfolding walk
first_clean c cs v = ground (arith, v.walked, walk-none cs, step_start-dot, step_start-blank)

pub trim_start_matches-IsAccepted :
    (s : Str) → IsAccepted s → trim_start_matches is_dot_or_space s ≡ s
unfolding trim_start_matches
trim_start_matches-IsAccepted [] v = refl
trim_start_matches-IsAccepted (c ∷ cs) v = rw (first_clean c cs v)

-- `split_extension` cuts the name at a dot, after something and before at most 16 bytes.
pub record IsSplit (name stem ext : Str) : Type 0 where
  pub whole : name ≡ stem ++ dot ∷ ext
  pub stem_nonempty : is_empty stem ≡ false
  pub ext_nonempty : is_empty ext ≡ false
  pub ext_within : byte_len ext ≤ max_extension_bytes

split_at_parts :
    (name a b : Str) {stem ext : Str}
    → split_at name (some (a, b)) ≡ (stem, some ext)
    → (a ≡ stem)
      × (b ≡ ext)
      × (is_empty a ≡ false)
      × (is_empty b ≡ false)
      × (byte_len b ≤ max_extension_bytes)
unfolding split_at
split_at_parts name a b h = ground arith

pub split_extension-IsSplit :
    (name : Str) {stem ext : Str} → split_extension name ≡ (stem, some ext) → IsSplit name stem ext
unfolding split_extension
split_extension-IsSplit name {stem} {ext} h = go (rfind name dot) refl
  where
    go : (o : Option (Str × Str)) → rfind name dot ≡ o → IsSplit name stem ext
    go none e = absurd (unfold split_at in ground arith)
    go (some (a, b)) e =
        let (p, q, n, m, w) = split_at_parts name a b (rw (e, split_at) at h) in
        record {
          whole = rw (← p, ← q) (rfind_parts name dot e);
          stem_nonempty = rw (← p) n;
          ext_nonempty = rw (← q) m;
          ext_within = rw (← q) w;
        }

-- Kept characters that do not separate.
abbrev pub plain_keep : ℕ → Bool
plain_keep c = is_keep c && not (is_separator c)

all-filter_keep : (s : Str) → any is_separator s ≡ false → all plain_keep (filter_keep s) ≡ true
unfolding filter_keep
all-filter_keep [] h = refl
all-filter_keep (c ∷ cs) h = ground (arith, all-filter_keep cs)

all-take_bytes :
    (p : ℕ → Bool) (len : ℕ) (s : Str) → all p s ≡ true → all p (take_bytes len s) ≡ true
unfolding take_bytes
all-take_bytes p len [] h = refl
all-take_bytes p len (c ∷ cs) h = ground (arith, all-take_bytes p (len + len_utf8 c) cs)

pub sanitize_extension-plain :
    (ext : Str) → any is_separator ext ≡ false → all plain_keep (sanitize_extension ext) ≡ true
unfolding sanitize_extension
sanitize_extension-plain ext h =
    all-take_bytes plain_keep 0 _
      (all-take plain_keep max_extension_bytes _ (all-filter_keep ext h))

step-plain :
    (p : Place) (c : ℕ)
    → p ≢ start
    → plain_keep c ≡ true
    → (q : Place) × (step p c ≡ some q) × (q ≢ start)
step-plain p c n h = elim (Bool-cases (c == dot)) [
  | inl d ↦ (on_dot, let e : c ≡ dot = ground arith in rw e (step-dot p n), λ e. grind arith)
  | inr d ↦ (on_base 0, unfold step is_keep in ground arith, λ e. grind arith)
]

pub walk_plain :
    (p : Place) (s : Str)
    → p ≢ start
    → all plain_keep s ≡ true
    → (q : Place) × (walk (some p) s ≡ some q)
unfolding walk
walk_plain p [] n h = (p, refl)
walk_plain p (c ∷ cs) n h =
    let (q, e, m) = step-plain p c n (ground arith) in
    let (r, w) = walk_plain q cs m (ground arith) in (r, rw (e, walk) w)

pub len_utf8-dot : len_utf8 dot ≡ 1
unfolding len_utf8
len_utf8-dot = refl

pub truncate_bytes-IsAccepted : (s : Str) (n : ℕ) → IsAccepted s → IsAccepted (truncate_bytes s n)
truncate_bytes-IsAccepted s n v =
    let l = truncate_bytes-Longest s n in IsAccepted-prefix _ l.rest s l.is_prefix v

-- The reading of a text that is not empty does not end at the start.
pub place-ne-start : (s : Str) (v : IsAccepted s) → is_empty s ≡ false → v.place ≢ start
place-ne-start [] v h = cc
place-ne-start (c ∷ cs) v h = walk-ne-start start c cs v.walked

-- Another text in place of what stands before a dot.
pub replace_stem :
    (stem t ext : Str)
    → IsAccepted (stem ++ dot ∷ ext)
    → is_empty stem ≡ false
    → IsAccepted t
    → is_empty t ≡ false
    → IsAccepted (t ++ dot ∷ ext)
replace_stem stem t ext v n w m =
    let u = IsAccepted-prefix stem (dot ∷ ext) _ refl v in
    record {
      place = v.place;
      walked =
          walk_past_dot t ext w.place w.walked (place-ne-start t w m)
          ∙ sym (walk_past_dot stem ext u.place u.walked (place-ne-start stem u n))
          ∙ v.walked;
    }

module _ (name stem ext : Str) (split : IsSplit name stem ext) where
  abbrev pub short_stem : Str
  short_stem =
      trim_end_matches is_dot_or_space (truncate_bytes stem (max_name_bytes - (byte_len ext + 1)))

  pub stem-IsAccepted : IsAccepted name → IsAccepted stem
  stem-IsAccepted v = IsAccepted-prefix stem (dot ∷ ext) name (sym split.whole) v

  shorten_with-IsAccepted : IsAccepted name → IsAccepted (shorten_with name (stem, some ext))
  unfolding shorten_with
  shorten_with-IsAccepted v = elim (Bool-cases (is_empty short_stem)) [
    | inl e ↦ rw e (truncate_bytes-IsAccepted name max_name_bytes v)
    | inr e ↦ rw e (
        replace_stem stem short_stem ext (rw split.whole at v) split.stem_nonempty
          (IsAccepted-trim_end_matches is_dot_or_space _
            (truncate_bytes-IsAccepted stem _ (stem-IsAccepted v)))
          e)
  ]

  shorten_with-within : byte_len (shorten_with name (stem, some ext)) ≤ max_name_bytes
  unfolding shorten_with
  shorten_with-within = elim (Bool-cases (is_empty short_stem)) [
    | inl e ↦ rw e (truncate_bytes-Longest name max_name_bytes).within
    | inr e ↦ rw e (
        omega (
          arith,
          len_utf8-dot,
          split.ext_within,
          byte_len-append short_stem (dot ∷ ext),
          byte_len-trim_end_matches is_dot_or_space
              (truncate_bytes stem (max_name_bytes - (byte_len ext + 1))),
          (truncate_bytes-Longest stem (max_name_bytes - (byte_len ext + 1))).within,
        ))
  ]

shorten_with_lem :
    (name : Str) (o : Str × Option Str)
    → split_extension name ≡ o
    → IsAccepted name
    → IsAccepted (shorten_with name o) × (byte_len (shorten_with name o) ≤ max_name_bytes)
shorten_with_lem name (stem, some ext) e v =
    let split = split_extension-IsSplit name e in
    (shorten_with-IsAccepted name stem ext split v, shorten_with-within name stem ext split)
shorten_with_lem name (stem, none) e v =
    unfold shorten_with in
    (
      truncate_bytes-IsAccepted name max_name_bytes v,
      (truncate_bytes-Longest name max_name_bytes).within,
    )

-- Shortening keeps a clean text clean, and leaves at most 200 bytes.
pub shorten-IsAccepted :
    (name : Str)
    → IsAccepted name
    → IsAccepted (shorten name) × (byte_len (shorten name) ≤ max_name_bytes)
unfolding shorten
shorten-IsAccepted name v = elim (Bool-cases (leb (byte_len name) max_name_bytes)) [
  | inl h ↦ rw h (v, leb→le _ _ h)
  | inr h ↦ rw h (shorten_with_lem name (split_extension name) refl v)
]
