-- ===== src/Name/Numbered.antt =====
-- `SafeName::numbered` of crates/sukkula-core/src/name.rs: `photo (1).jpg`, `photo (2).jpg`, ...
use sukkula.Base.{
  ℕ, zero, suc, ◌+◌, ◌-◌, ◌*◌, ◌/◌, ◌%◌, ◌^◌, ◌≤◌, ◌<◌, ◌≡◌, ◌≢◌, refl, sym, ◌∙◌, true, Option,
  none, some, [], ◌∷◌, ◌++◌, arith, ltb, ◌==◌, if◌then◌else◌, all, Str, len_utf8, byte_len,
  Bool-cases, inl, inr, trim_end_matches, byte_len-append, trimmed-append, trimmed_tail,
  trim_end_matches_twice, byte_len-trim_end_matches, all-append, passes_under, passes_under_at,
  is_empty-append_left,
}
use native.Mathlib.Nat.{pow-suc}
use sukkula.Limits.{max_name_bytes}
use sukkula.Text.{classify, truncate_bytes}
use sukkula.Text.Truncate.{truncate_bytes-Longest}
use sukkula.Name.{
  dot, is_keep, is_dot_or_space, split_at, split_extension, fallback_name, or_fallback, IsSafe,
}
use sukkula.Name.Clean.{Place, start, on_space, walk, walk-append}
use sukkula.Name.Loop.{step-blank}
use sukkula.Name.Promises.{IsSafe-iff}
use sukkula.Name.Shorten.{
  replace_stem, IsAccepted, split_extension-IsSplit, stem-IsAccepted, truncate_bytes-IsAccepted,
  IsAccepted-trim_end_matches, plain_keep, walk_plain, place-ne-start, len_utf8-dot,
}
use sukkula.Name.Safe.{IsSafeForm, IsSafeForm-IsSafe, or_fallback-IsSafeForm, safe_place}

-- The decimal digits of a number below 10 ^ `fuel`.
digits : ℕ → ℕ → Str
digits zero n = []
digits (suc fuel) n =
    let rest = digits fuel (n / 10) in
    if ltb n 10 then (b'0' + n) ∷ [] else rest ++ (b'0' + n % 10) ∷ []

-- `format!("{n}")` of a `u32`.
pub decimal : ℕ → Str
unfolding digits
decimal n = digits 10 n

suffix : ℕ → Str
unfolding decimal
suffix n = b' ' ∷ b'(' ∷ (decimal n ++ b')' ∷ [])

ext_len : Option Str → ℕ
ext_len none = 0
ext_len (some e) = byte_len e + 1

with_extension : Str → Option Str → Str
with_extension s none = s
with_extension s (some e) = s ++ dot ∷ e

numbered_with : Str × Option Str → ℕ → Str
unfolding ext_len with_extension
numbered_with (stem, ext) n =
    let room = max_name_bytes - byte_len (suffix n) - ext_len ext in
    let stem' = or_fallback (trim_end_matches is_dot_or_space (truncate_bytes stem room)) in
    with_extension (stem' ++ suffix n) ext

unfoldable pub numbered : Str → ℕ → Str
unfolding numbered_with ext_len with_extension suffix decimal digits or_fallback split_extension
    truncate_bytes
numbered name n = if n == 0 then name else numbered_with (split_extension name) n

-- Ten digits are enough for a `u32`: the digits stand for the number.
value : ℕ → Str → ℕ
value acc [] = acc
value acc (c ∷ cs) = value (acc * 10 + (c - b'0')) cs

value-append : (acc : ℕ) (s t : Str) → value acc (s ++ t) ≡ value (value acc s) t
unfolding value
value-append acc [] t = refl
value-append acc (c ∷ s) t = value-append (acc * 10 + (c - b'0')) s t

value-digits : (fuel n : ℕ) → n < 10 ^ fuel → value 0 (digits fuel n) ≡ n
unfolding value digits
value-digits zero n h = omega arith
value-digits (suc fuel) n h = ground (
  arith,
  pow-suc 10 fuel,
  value-digits fuel (n / 10),
  value-append 0 (digits fuel (n / 10)) ((b'0' + n % 10) ∷ []),
)

digit_table : passes_under (λ d. plain_keep (b'0' + d)) 10 ≡ true
unfolding passes_under is_keep classify
digit_table = refl

digit-plain : (d : ℕ) → d < 10 → plain_keep (b'0' + d) ≡ true
digit-plain d h = passes_under_at (λ d. plain_keep (b'0' + d)) 10 d h digit_table

digits-plain : (fuel n : ℕ) → all plain_keep (digits fuel n) ≡ true
unfolding digits
digits-plain zero n = refl
digits-plain (suc fuel) n = ground (
  arith,
  digits-plain fuel (n / 10),
  all-append plain_keep (digits fuel (n / 10)) ((b'0' + n % 10) ∷ []),
  digit-plain n,
  digit-plain (n % 10),
)

digits-within : (fuel n : ℕ) → byte_len (digits fuel n) ≤ fuel
unfolding digits len_utf8
digits-within zero n = omega arith
digits-within (suc fuel) n = ground (
  arith,
  digits-within fuel (n / 10),
  byte_len-append (digits fuel (n / 10)) ((b'0' + n % 10) ∷ []),
)

value-decimal : (n : ℕ) → n < 2 ^ 32 → value 0 (decimal n) ≡ n
unfolding decimal
value-decimal n h = value-digits 10 n (omega arith)

suffix-within : (n : ℕ) → byte_len (suffix n) ≤ 13
unfolding suffix decimal len_utf8
suffix-within n = omega (arith, digits-within 10 n, byte_len-append (digits 10 n) (b')' ∷ []))

suffix-plain : (n : ℕ) → all plain_keep (b'(' ∷ (decimal n ++ b')' ∷ [])) ≡ true
unfolding decimal is_keep classify
suffix-plain n = ground (arith, digits-plain 10 n, all-append plain_keep (digits 10 n) (b')' ∷ []))

-- The suffix reads on from a stem that does not end with a space.
suffix-walked :
    (p : Place) (n : ℕ)
    → p ≢ start
    → p ≢ on_space
    → (q : Place) × (walk (some p) (suffix n) ≡ some q)
unfolding suffix walk
suffix-walked p n h k =
    let (q, w) =
      walk_plain on_space (b'(' ∷ (decimal n ++ b')' ∷ [])) (λ e. grind arith) (suffix-plain n) in
    (q, rw (step-blank p h k, walk) w)

suffix-trimmed :
    (s : Str) (n : ℕ) → trim_end_matches is_dot_or_space (s ++ suffix n) ≡ s ++ suffix n
unfolding suffix
suffix-trimmed s n = trimmed-append is_dot_or_space s (suffix n) refl (
    trimmed-append is_dot_or_space (b' ' ∷ b'(' ∷ decimal n) (b')' ∷ []) refl
      (unfold trim_end_matches in refl))

suffixed-IsAccepted : (s : Str) (n : ℕ) → IsSafeForm s → IsAccepted (s ++ suffix n)
suffixed-IsAccepted s n v =
    let (q, w) =
      suffix-walked v.accepted.place n (place-ne-start s v.accepted v.nonempty) (safe_place s v) in
    record { place = q; walked = walk-append (some start) s (suffix n) ∙ rw v.accepted.walked w }

split_none : (name : Str) {stem : Str} → split_extension name ≡ (stem, none) → stem ≡ name
unfolding split_extension split_at
split_none name h = ground arith

or_fallback-within :
    (s : Str) (room : ℕ) → byte_len s ≤ room → 13 ≤ room → byte_len (or_fallback s) ≤ room
unfolding or_fallback fallback_name len_utf8
or_fallback-within s room h k = ground arith

-- The stem of the `n`th name, before its suffix.
abbrev numbered_stem : Str → ℕ → Str
numbered_stem stem room = or_fallback (trim_end_matches is_dot_or_space (truncate_bytes stem room))

numbered_stem-IsSafeForm :
    (stem : Str) (room : ℕ)
    → IsAccepted stem
    → room ≤ max_name_bytes
    → IsSafeForm (numbered_stem stem room)
numbered_stem-IsSafeForm stem room v h =
    or_fallback-IsSafeForm _
      (IsAccepted-trim_end_matches is_dot_or_space _ (truncate_bytes-IsAccepted stem room v))
      (trim_end_matches_twice is_dot_or_space _)
      (omega (
        arith,
        byte_len-trim_end_matches is_dot_or_space (truncate_bytes stem room),
        (truncate_bytes-Longest stem room).within,
      ))

numbered_stem-within :
    (stem : Str) (room : ℕ) → 13 ≤ room → byte_len (numbered_stem stem room) ≤ room
numbered_stem-within stem room h =
    or_fallback-within _ room
      (omega (
        arith,
        byte_len-trim_end_matches is_dot_or_space (truncate_bytes stem room),
        (truncate_bytes-Longest stem room).within,
      ))
      h

numbered_with-IsSafeForm :
    (name : Str) (o : Str × Option Str) (n : ℕ)
    → split_extension name ≡ o
    → IsSafeForm name
    → IsSafeForm (numbered_with o n)
unfolding numbered_with ext_len with_extension
numbered_with-IsSafeForm name (stem, none) n e v =
    let room = max_name_bytes - byte_len (suffix n) - 0 in
    let safe =
      numbered_stem-IsSafeForm stem room (rw (split_none name e) v.accepted) (omega arith) in
    record {
      accepted = suffixed-IsAccepted _ n safe;
      nonempty = is_empty-append_left _ _ safe.nonempty;
      trimmed = suffix-trimmed _ n;
      within = omega (
        arith,
        suffix-within n,
        byte_len-append (numbered_stem stem room) (suffix n),
        numbered_stem-within stem room (omega (arith, suffix-within n)),
      );
    }
numbered_with-IsSafeForm name (stem, some ext) n e v =
    let split = split_extension-IsSplit name e in
    let room = max_name_bytes - byte_len (suffix n) - (byte_len ext + 1) in
    let whole : stem ++ dot ∷ ext ≡ name = sym split.whole in
    let safe =
      numbered_stem-IsSafeForm stem room (stem-IsAccepted name stem ext split v.accepted)
        (omega arith) in
    let nonempty = is_empty-append_left _ (suffix n) safe.nonempty in
    record {
      accepted =
          replace_stem stem (numbered_stem stem room ++ suffix n) ext (rw whole v.accepted)
            split.stem_nonempty (suffixed-IsAccepted _ n safe) nonempty;
      nonempty = is_empty-append_left _ (dot ∷ ext) nonempty;
      trimmed =
          trimmed-append is_dot_or_space (numbered_stem stem room ++ suffix n) (dot ∷ ext) refl
            (trimmed_tail is_dot_or_space stem (dot ∷ ext) (rw whole v.trimmed));
      within = omega (
        arith,
        suffix-within n,
        split.ext_within,
        len_utf8-dot,
        byte_len-append (numbered_stem stem room) (suffix n),
        byte_len-append (numbered_stem stem room ++ suffix n) (dot ∷ ext),
        numbered_stem-within stem room (omega (arith, suffix-within n, split.ext_within)),
      );
    }

numbered_lem :
    (name : Str) (n : ℕ)
    → numbered name n ≡ (if n == 0 then name else numbered_with (split_extension name) n)
unfolding numbered
numbered_lem name n = refl

-- Every alternative spelling of a name that `sanitize` leaves alone is left alone too: it still is
-- one safe path component of at most 200 bytes.
pub numbered-IsSafe : (name : Str) (n : ℕ) → IsSafe name → IsSafe (numbered name n)
numbered-IsSafe name n h = rw numbered_lem (elim (Bool-cases (n == 0)) [
  | inl e ↦ rw e h
  | inr e ↦ rw e (
      IsSafeForm-IsSafe _
        (numbered_with-IsSafeForm name (split_extension name) n refl ((IsSafe-iff name).0 h)))
])
