-- ===== src/Name/Safe.antt =====
-- What `sanitize` of name.rs returns, and the names that it leaves alone.
use sukkula.Base.{
  ℕ, ◌≤◌, ◌≡◌, ◌≢◌, refl, sym, ap, ◌∙◌, true, false, Option, none, some, [], ◌∷◌, arith, ltb, ◌==◌,
  is_empty, any, Str, len_utf8, byte_len, ends_with, Bool-cases, inl, inr, trim_end_matches,
  trim_start_matches, trim_end_matches_twice, ends_with-trim_end_matches, any-append,
  byte_len-trim_end_matches, le→leb,
}
use native.Mathlib.Nat.{le_trans}
use sukkula.Limits.{max_name_bytes}
use sukkula.Text.{classify}
use sukkula.Name.{
  dot, is_separator, is_dot_or_space, last_segment, Scan, scan_turn, scan, scan_start, scan_bytes,
  sanitize_extension, split_extension, restore_extension, clean, shorten, or_fallback, sanitize,
  fallback_name, IsSafe,
}
use sukkula.Name.Clean.{Place, start, on_dot, on_space, on_base, step, walk, walk-nil}
use sukkula.Name.Loop.{IsClean, scan-IsClean, scan_start-IsClean}
use sukkula.Name.Keeps.{scan_keeps}
use sukkula.Name.Shorten.{
  IsAccepted, IsAccepted-trim_end_matches, last_segment-plain, walk-plain, walk_plain,
  walk_past_dot, trim_start_matches-IsAccepted, split_extension-IsSplit, sanitize_extension-plain,
  shorten-IsAccepted, place-ne-start,
}

-- The loop ends early only with something to show.
cut-scan_turn : (s : Scan) (c : ℕ) → (scan_turn s c).cut ≡ s.cut
unfolding scan_turn
cut-scan_turn s c = ground arith

scan_cut_nonempty :
    (cs : Str) (s : Scan)
    → s.cut ≡ false
    → (scan cs s).cut ≡ true
    → is_empty (scan cs s).cleaned ≡ false
unfolding scan
scan_cut_nonempty [] s u h = cc
scan_cut_nonempty (c ∷ cs) s u h = elim (Bool-cases (ltb scan_bytes (byte_len s.cleaned))) [
  | inl b ↦ rw b (long s.cleaned b)
  | inr b ↦ rw b (scan_cut_nonempty cs (scan_turn s c) (cut-scan_turn s c ∙ u) (rw b at h))
]
  where
    long : (t : Str) → ltb scan_bytes (byte_len t) ≡ true → is_empty t ≡ false
    long [] e = ground arith
    long (x ∷ xs) e = refl

-- The extension of a text without separators has none.
ext-plain :
    (segment : Str) {stem ext : Str}
    → any is_separator segment ≡ false
    → split_extension segment ≡ (stem, some ext)
    → any is_separator ext ≡ false
ext-plain segment {stem} {ext} h e =
    let split = split_extension-IsSplit segment e in
    ground (arith, split.whole, any-append is_separator stem (dot ∷ ext))

restore_extension-IsAccepted :
    (segment cleaned : Str) (o : Str × Option Str)
    → any is_separator segment ≡ false
    → split_extension segment ≡ o
    → IsAccepted cleaned
    → is_empty cleaned ≡ false
    → IsAccepted (restore_extension cleaned o.1)
unfolding restore_extension
restore_extension-IsAccepted segment cleaned (stem, none) h e v n = v
restore_extension-IsAccepted segment cleaned (stem, some ext) h e v n =
    elim (Bool-cases (is_empty (sanitize_extension ext))) [
      | inl b ↦ rw b v
      | inr b ↦
          let (q, w) =
            walk_plain on_dot (sanitize_extension ext) (λ x. grind arith)
              (sanitize_extension-plain ext (ext-plain segment h e)) in
          rw b (record {
            place = q;
            walked =
                walk_past_dot cleaned (sanitize_extension ext) v.place v.walked
                  (place-ne-start cleaned v n)
                ∙ w;
          })
    ]

clean-IsAccepted : (segment : Str) → any is_separator segment ≡ false → IsAccepted (clean segment)
unfolding clean
clean-IsAccepted segment h = elim (Bool-cases s.cut) [
  | inl b ↦ rw b (
      restore_extension-IsAccepted segment s.cleaned (split_extension segment) h refl accepted
        (scan_cut_nonempty segment scan_start refl b))
  | inr b ↦ rw b accepted
]
  where
    s : Scan
    s = scan segment scan_start

    v : IsClean s
    v = scan-IsClean segment scan_start h scan_start-IsClean

    accepted : IsAccepted s.cleaned
    accepted = record { place = v.place; walked = v.walked }

-- The names that `sanitize` gives: clean, not empty, not ending with a dot or a space, 200 bytes at
-- most.
pub record IsSafeForm (s : Str) : Type 0 where
  pub accepted : IsAccepted s
  pub nonempty : is_empty s ≡ false
  pub trimmed : trim_end_matches is_dot_or_space s ≡ s
  pub within : byte_len s ≤ max_name_bytes

fallback_name-IsSafeForm : IsSafeForm fallback_name
unfolding fallback_name walk trim_end_matches classify len_utf8
fallback_name-IsSafeForm = record {
  accepted = record { place = on_base 0; walked = refl };
  nonempty = refl;
  trimmed = refl;
  within = omega arith;
}

pub or_fallback-IsSafeForm :
    (s : Str)
    → IsAccepted s
    → trim_end_matches is_dot_or_space s ≡ s
    → byte_len s ≤ max_name_bytes
    → IsSafeForm (or_fallback s)
unfolding or_fallback
or_fallback-IsSafeForm s v t w = elim (Bool-cases (is_empty s)) [
  | inl b ↦ rw b fallback_name-IsSafeForm
  | inr b ↦ rw b (record { accepted = v; nonempty = b; trimmed = t; within = w })
]

sanitize_lem :
    (raw : Str)
    → sanitize raw
      ≡ or_fallback (
          trim_end_matches is_dot_or_space (
            shorten (
              trim_end_matches is_dot_or_space
                (trim_start_matches is_dot_or_space (clean (last_segment raw))))))
unfolding sanitize
sanitize_lem raw = refl

-- Whatever the raw name, the sanitised one has the safe form.
pub sanitize-IsSafeForm : (raw : Str) → IsSafeForm (sanitize raw)
sanitize-IsSafeForm raw =
    let accepted = clean-IsAccepted (last_segment raw) (last_segment-plain raw) in
    let trimmed = IsAccepted-trim_end_matches is_dot_or_space (clean (last_segment raw)) accepted in
    let short = shorten-IsAccepted _ trimmed in
    rw (sanitize_lem, trim_start_matches-IsAccepted _ accepted)
      (or_fallback-IsSafeForm _ (IsAccepted-trim_end_matches is_dot_or_space _ short.0)
        (trim_end_matches_twice is_dot_or_space _)
        (le_trans (byte_len-trim_end_matches is_dot_or_space _) short.1))

last_segment_self : (s : Str) → any is_separator s ≡ false → last_segment s ≡ s
unfolding last_segment
last_segment_self [] h = refl
last_segment_self (c ∷ cs) h = ground (arith, last_segment_self cs)

-- A text whose reading ends on a space ends with one.
step-on_space : (p : Place) (c : ℕ) → step p c ≡ some on_space → (c == b' ') ≡ true
unfolding step
step-on_space start c h = ground arith
step-on_space on_dot c h = ground arith
step-on_space on_space c h = ground arith
step-on_space (on_base k) c h = ground arith

walk-on_space :
    (p : Place) (c : ℕ) (cs : Str)
    → walk (some p) (c ∷ cs) ≡ some on_space
    → ends_with (c ∷ cs) b' ' ≡ true
unfolding walk ends_with
walk-on_space p c [] h = step-on_space p c (sym (walk-nil (step p c)) ∙ h)
walk-on_space p c (d ∷ cs) h = go (step p c) refl (λ p' w. walk-on_space p' d cs w)
  where
    go :
        (o : Option Place)
        → step p c ≡ o
        → ((p' : Place) → walk (some p') (d ∷ cs) ≡ some on_space → ends_with (d ∷ cs) b' ' ≡ true)
        → ends_with (d ∷ cs) b' ' ≡ true
    go none f ih = absurd (cc (rw (f, walk) at h))
    go (some p') f ih = ih p' (rw (f, walk) at h)

pub safe_place : (s : Str) (v : IsSafeForm s) → v.accepted.place ≢ on_space
safe_place [] v e = cc (v.nonempty)
safe_place (c ∷ cs) v e = absurd (
    cc (
      ends_with-trim_end_matches is_dot_or_space (c ∷ cs) b' '
        (rw v.trimmed (walk-on_space start c cs (v.accepted.walked ∙ ap (λ q. some q) e)))))

shorten-within : (s : Str) → byte_len s ≤ max_name_bytes → shorten s ≡ s
unfolding shorten
shorten-within s h = rw (le→leb _ _ h)

clean-IsSafeForm : (s : Str) → IsSafeForm s → clean s ≡ s
unfolding clean
clean-IsSafeForm s v =
    let (kept, uncut) =
      scan_keeps s scan_start start v.accepted.place (refl, refl) refl v.accepted.walked
        (safe_place s v) (omega (arith, v.within)) in
    rw uncut kept

-- A name of the safe form is left as it is.
pub IsSafeForm-IsSafe : (s : Str) → IsSafeForm s → IsSafe s
IsSafeForm-IsSafe s v =
    rw
      (
        sanitize_lem,
        last_segment_self s (walk-plain start s v.accepted.walked),
        clean-IsSafeForm s v,
        trim_start_matches-IsAccepted s v.accepted,
        v.trimmed,
        shorten-within s v.within,
        v.trimmed,
      )
      (unfold or_fallback in rw v.nonempty)

-- Sanitising twice is sanitising once.
pub sanitize_idempotent : (raw : Str) → sanitize (sanitize raw) ≡ sanitize raw
sanitize_idempotent raw = IsSafeForm-IsSafe (sanitize raw) (sanitize-IsSafeForm raw)
