-- ===== src/Name/Promises.antt =====
-- What a name from `sanitize` of name.rs is like, character by character.
use sukkula.Base.{
  ℕ, ◌+◌, ◌-◌, ◌≤◌, ◌≡◌, refl, sym, ap, ◌∙◌, true, false, Option, none, some, [], ◌∷◌, ◌++◌, ◌↔◌,
  arith, leb, is_empty, any, Str, len_utf8-le, byte_len, ends_with, Bool-cases, inl, inr,
  trim_end_matches, trim_start_matches, ends_with-trim_end_matches,
}
use mathlib.Core.Path.{subst}
use sukkula.Limits.{max_name_bytes}
use sukkula.Text.{is_forbidden, truncate_bytes}
use sukkula.Text.Truncate.{truncate_bytes-fit}
use sukkula.Name.{
  dot, is_separator, is_dot_or_space, split_extension, shorten, shorten_with, sanitize, IsSafe,
}
use sukkula.Name.Clean.{Place, start, step, walk}
use sukkula.Name.Shorten.{
  first_clean, short_stem, IsAccepted-prefix, IsAccepted, walk-plain, trim_start_matches-IsAccepted,
  IsSplit, split_extension-IsSplit,
}
use sukkula.Name.Safe.{IsSafeForm, sanitize-IsSafeForm, IsSafeForm-IsSafe}

-- One path component that shows as what it is.
pub record IsSafeName (s : Str) : Type 0 where
  pub nonempty : is_empty s ≡ false
  pub within : byte_len s ≤ max_name_bytes
  pub no_separator : any is_separator s ≡ false
  pub no_forbidden : any is_forbidden s ≡ false
  pub starts_clean : trim_start_matches is_dot_or_space s ≡ s
  pub no_last_dot : ends_with s dot ≡ false
  pub no_last_space : ends_with s b' ' ≡ false

step-forbidden : (p : Place) (c : ℕ) → is_forbidden c ≡ true → step p c ≡ none
unfolding step is_forbidden
step-forbidden p c h = ground arith

walk-allowed :
    (p : Place) (s : Str) {q : Place} → walk (some p) s ≡ some q → any is_forbidden s ≡ false
unfolding walk
walk-allowed p [] h = refl
walk-allowed p (c ∷ cs) {q} h = go (step p c) refl (λ p' w. walk-allowed p' cs {q = q} w)
  where
    go :
        (o : Option Place)
        → step p c ≡ o
        → ((p' : Place) → walk (some p') cs ≡ some q → any is_forbidden cs ≡ false)
        → any is_forbidden (c ∷ cs) ≡ false
    go none f ih = absurd (cc (rw (f, walk) at h))
    go (some p') f ih = ground (arith, step-forbidden p c, ih p' (rw (f, walk) at h))

not_last : (s : Str) (c : ℕ) → IsSafeForm s → is_dot_or_space c ≡ true → ends_with s c ≡ false
not_last s c v h = ground (arith, rw v.trimmed at (ends_with-trim_end_matches is_dot_or_space s c))

IsSafeForm-IsSafeName : (s : Str) → IsSafeForm s → IsSafeName s
IsSafeForm-IsSafeName s v = record {
  nonempty = v.nonempty;
  within = v.within;
  no_separator = walk-plain start s v.accepted.walked;
  no_forbidden = walk-allowed start s v.accepted.walked;
  starts_clean = trim_start_matches-IsAccepted s v.accepted;
  no_last_dot = not_last s dot v refl;
  no_last_space = not_last s b' ' v refl;
}

-- For every raw name, the sanitised name is not empty, is at most 200 bytes long, has no path
-- separator and no forbidden character, does not start with a dot or a space, and does not end
-- with one.
pub sanitize-IsSafeName : (raw : Str) → IsSafeName (sanitize raw)
sanitize-IsSafeName raw = IsSafeForm-IsSafeName (sanitize raw) (sanitize-IsSafeForm raw)

-- A name is left alone by `sanitize` exactly when the automaton accepts it, it is not empty, it does
-- not end with a dot or a space, and it is at most 200 bytes long.
pub IsSafe-iff : (s : Str) → IsSafe s ↔ IsSafeForm s
IsSafe-iff s = (λ h. subst IsSafeForm h (sanitize-IsSafeForm s), IsSafeForm-IsSafe s)

-- The stem keeps its first character.
short_stem_nonempty :
    (c : ℕ) (cs : Str) (limit : ℕ)
    → is_dot_or_space c ≡ false
    → 4 ≤ limit
    → is_empty (trim_end_matches is_dot_or_space (truncate_bytes (c ∷ cs) limit)) ≡ false
unfolding trim_end_matches
short_stem_nonempty c cs limit h m = rw truncate_bytes-fit (ground (arith, len_utf8-le c))

kept_stem :
    (stem : Str) (limit : ℕ)
    → IsAccepted stem
    → is_empty stem ≡ false
    → 4 ≤ limit
    → is_empty (trim_end_matches is_dot_or_space (truncate_bytes stem limit)) ≡ false
kept_stem [] limit v n m = cc
kept_stem (c ∷ cs) limit v n m = short_stem_nonempty c cs limit (first_clean c cs v) m

-- A clean name with an extension of at most 16 bytes keeps it when it is shortened, and something
-- before it.
pub shorten_keeps_extension :
    (name : Str) {stem ext : Str}
    → IsAccepted name
    → split_extension name ≡ (stem, some ext)
    → (stem' : Str) × (shorten name ≡ stem' ++ dot ∷ ext) × (is_empty stem' ≡ false)
unfolding shorten shorten_with
shorten_keeps_extension name {stem} {ext} v e =
    elim (Bool-cases (leb (byte_len name) max_name_bytes)) [
      | inl h ↦ (stem, rw h split.whole, split.stem_nonempty)
      | inr h ↦ (short_stem name stem ext split, rw h (ap (shorten_with name) e ∙ shortened), kept)
    ]
  where
    split : IsSplit name stem ext
    split = split_extension-IsSplit name e

    kept : is_empty (short_stem name stem ext split) ≡ false
    kept =
        kept_stem stem (max_name_bytes - (byte_len ext + 1))
          (IsAccepted-prefix stem (dot ∷ ext) name (sym split.whole) v) split.stem_nonempty
          (omega (arith, split.ext_within))

    shortened : shorten_with name (stem, some ext) ≡ short_stem name stem ext split ++ dot ∷ ext
    shortened = rw kept
