-- ===== src/Hex/RoundTrip.antt =====
-- The digests that hex.rs writes are read back, and it reads nothing else.
use sukkula.Base.{
  ℕ, zero, suc, ◌+◌, ◌*◌, ◌/◌, ◌%◌, ◌<◌, ◌≡◌, refl, ap, ◌∙◌, Bool, true, false, ◌&&◌, Option, none,
  some, List, [], ◌∷◌, map, arith, ◌==◌, ==_iff, if◌then◌else◌, length, all, All, Str, as_bytes,
  to_lower, is_ascii, as_bytes-ascii, as_bytes_plain, Option-cases, inl, inr,
}
use mathlib.Core.Path.{subst}
use sukkula.Hex.{digit, encode, nibble, checked, decode_pair, decode_pairs, decode_32}

abbrev pub IsBytes : List ℕ → Type 0
IsBytes bs = All (λ b. b < 256) bs

nibble-digit : (d : ℕ) → d < 16 → nibble (digit d) ≡ some d
unfolding nibble digit
nibble-digit d h = ground arith

digit-ascii : (d : ℕ) → d < 16 → is_ascii (digit d) ≡ true
unfolding digit
digit-ascii d h = ground arith

decode_pair-digits : (b : ℕ) → b < 256 → decode_pair (digit (b / 16)) (digit (b % 16)) ≡ some b
unfolding decode_pair checked
decode_pair-digits b h = ground (arith, nibble-digit (b / 16), nibble-digit (b % 16))

encode-ascii : (bs : List ℕ) → IsBytes bs → all is_ascii (encode bs) ≡ true
unfolding encode
encode-ascii [] h = refl
encode-ascii (b ∷ bs) h =
    ground (arith, h.0, digit-ascii (b / 16), digit-ascii (b % 16), encode-ascii bs h.1)

decode_pairs-encode : (bs : List ℕ) → IsBytes bs → decode_pairs (encode bs) ≡ some bs
unfolding encode decode_pairs
decode_pairs-encode [] h = refl
decode_pairs-encode (b ∷ bs) h = rw (decode_pair-digits b h.0, decode_pairs-encode bs h.1) refl

length-encode : (bs : List ℕ) → length (encode bs) ≡ 2 * length bs
unfolding encode
length-encode [] = refl
length-encode (b ∷ bs) = omega (arith, length-encode bs)

-- A digest of 32 bytes is read back from what is written for it.
pub decode_32-encode : (bs : List ℕ) → IsBytes bs → length bs ≡ 32 → decode_32 (encode bs) ≡ some bs
unfolding decode_32
decode_32-encode bs h n =
    rw (as_bytes-ascii (encode bs) (encode-ascii bs h), length-encode bs, n)
      (decode_pairs-encode bs h)

record IsNibble (c d : ℕ) : Type 0 where
  below : d < 16
  is_digit : digit d ≡ to_lower c
  plain : is_ascii c ≡ true

nibble-IsNibble : (c d : ℕ) → nibble c ≡ some d → IsNibble c d
unfolding nibble digit
nibble-IsNibble c d h = record {
  below = ground arith;
  is_digit = ground arith;
  plain = ground arith;
}

record IsPair (hi lo b : ℕ) : Type 0 where
  below : b < 256
  high : digit (b / 16) ≡ to_lower hi
  low : digit (b % 16) ≡ to_lower lo
  plain : is_ascii hi && is_ascii lo ≡ true

-- The byte that two nibbles make up is never too large for the checked operations.
IsPair-of :
    (hi lo h l b : ℕ) → nibble hi ≡ some h → nibble lo ≡ some l → h * 16 + l ≡ b → IsPair hi lo b
IsPair-of hi lo h l b p q e =
    let u = nibble-IsNibble hi h p in
    let v = nibble-IsNibble lo l q in
    let x : b / 16 ≡ h = omega (arith, u.below, v.below) in
    let y : b % 16 ≡ l = omega (arith, u.below, v.below) in
    record {
      below = omega (arith, u.below, v.below);
      high = rw x u.is_digit;
      low = rw y v.is_digit;
      plain = rw (u.plain, v.plain) refl;
    }

decode_pair-IsPair : (hi lo b : ℕ) → decode_pair hi lo ≡ some b → IsPair hi lo b
unfolding decode_pair checked
decode_pair-IsPair hi lo b e = elim (Option-cases (nibble hi)) [
  | inl p ↦ ground (arith, p)
  | inr (h, p) ↦ elim (Option-cases (nibble lo)) [
    | inl q ↦ ground (arith, p, q, nibble-IsNibble hi h p)
    | inr (l, q) ↦ IsPair-of hi lo h l b p q (ground (arith, p, q))
  ]
]

record IsRead (bytes bs : List ℕ) : Type 0 where
  values : IsBytes bs
  count : length bytes ≡ 2 * length bs
  digits : encode bs ≡ map to_lower bytes
  plain : all is_ascii bytes ≡ true

IsRead-cons :
    (hi lo b : ℕ) (bytes bs : List ℕ)
    → IsPair hi lo b
    → IsRead bytes bs
    → IsRead (hi ∷ lo ∷ bytes) (b ∷ bs)
unfolding encode
IsRead-cons hi lo b bytes bs p r = record {
  values = (p.below, r.values);
  count = omega (arith, r.count);
  digits = rw (p.high, p.low, r.digits) refl;
  plain = ground (arith, p.plain, r.plain);
}

decode_pairs-IsRead :
    (n : ℕ) (bytes bs : List ℕ)
    → length bytes ≡ 2 * n
    → decode_pairs bytes ≡ some bs
    → IsRead bytes bs
unfolding decode_pairs encode
decode_pairs-IsRead n [] [] e h = record { values = tt; count = refl; digits = refl; plain = refl }
decode_pairs-IsRead n [] (b ∷ bs) e h = ground arith
decode_pairs-IsRead n (hi ∷ []) bs e h = absurd (omega arith)
decode_pairs-IsRead zero (hi ∷ lo ∷ bytes) bs e h = absurd (omega arith)
decode_pairs-IsRead (suc n) (hi ∷ lo ∷ bytes) bs e h = elim (Option-cases (decode_pair hi lo)) [
  | inl p ↦ ground (arith, p)
  | inr (b, p) ↦ elim (Option-cases (decode_pairs bytes)) [
    | inl q ↦ ground (arith, p, q)
    | inr (rest, q) ↦
        subst (λ x. IsRead (hi ∷ lo ∷ bytes) x) (ground (arith, p, q))
          (IsRead-cons hi lo b bytes rest (decode_pair-IsPair hi lo b p)
            (decode_pairs-IsRead n bytes rest (omega arith) q))
  ]
]

-- What `decode_32 s` promises of its result.
pub record IsDigest (s : Str) (bs : List ℕ) : Type 0 where
  pub values : IsBytes bs
  pub count : length bs ≡ 32
  pub digits : encode bs ≡ map to_lower s

IsDigest-of :
    (s : Str) (bs : List ℕ) → length (as_bytes s) ≡ 64 → IsRead (as_bytes s) bs → IsDigest s bs
IsDigest-of s bs n r = record {
  values = r.values;
  count = omega (arith, r.count);
  digits = r.digits ∙ ap (map to_lower) (as_bytes_plain s r.plain);
}

guarded :
    (t : Bool) (o : Option (List ℕ)) {bs : List ℕ}
    → (if t then o else none) ≡ some bs
    → (t ≡ true) × (o ≡ some bs)
guarded true o h = (refl, h)
guarded false o h = ground arith

-- Whatever text is read as a digest, the result is 32 bytes, and the text is what is written for
-- them, in either case.
pub decode_32-IsDigest : (s : Str) (bs : List ℕ) → decode_32 s ≡ some bs → IsDigest s bs
unfolding decode_32
decode_32-IsDigest s bs h =
    let (e, r) = guarded (length (as_bytes s) == 64) (decode_pairs (as_bytes s)) h in
    let n = (==_iff (length (as_bytes s)) 64).0 e in
    IsDigest-of s bs n (decode_pairs-IsRead 32 (as_bytes s) bs n r)
