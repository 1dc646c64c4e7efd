-- ===== src/Text/Truncate.antt =====
-- `truncate_bytes` of crates/sukkula-core/src/text.rs returns the longest prefix that fits.
use mathlib.Core.Option
use mathlib.Core.Option.{get_or}
use sukkula.Base.{
  ℕ, zero, suc, ◌+◌, ◌-◌, ◌≤◌, ◌<◌, ◌≡◌, refl, sym, ap, ◌∙◌, inl, inr, true, some, [], ◌∷◌, ◌++◌,
  arith, leb, if◌then◌else◌, Bool-cases, tests, Str, len_utf8, len_utf8-pos, byte_len,
  is_char_boundary, get_to,
}
use sukkula.Text.{boundary_below, truncate_bytes}

-- The longest prefix of at most `limit` bytes, taken greedily.
abbrev pub fit : Str → ℕ → Str
fit [] limit = []
fit (c ∷ cs) limit =
    let rest = fit cs (limit - len_utf8 c) in if leb (len_utf8 c) limit then c ∷ rest else []

is_char_boundary-cons :
    (c : ℕ) (cs : Str) (k : ℕ) → is_char_boundary (c ∷ cs) (len_utf8 c + k) ≡ is_char_boundary cs k
unfolding is_char_boundary
is_char_boundary-cons c cs k =
    let e : len_utf8 c + k - len_utf8 c ≡ k = omega arith in rw e (ground (arith, len_utf8-pos c))

is_char_boundary-zero : (s : Str) → is_char_boundary s 0 ≡ true
unfolding is_char_boundary
is_char_boundary-zero [] = refl
is_char_boundary-zero (c ∷ cs) = refl

-- Below the first character's end the only boundary is 0.
boundary_below-first : (c : ℕ) (cs : Str) (k : ℕ) → k < len_utf8 c → boundary_below (c ∷ cs) k ≡ 0
unfolding boundary_below is_char_boundary
boundary_below-first c cs zero h = refl
boundary_below-first c cs (suc k) h = ground (arith, boundary_below-first c cs k)

boundary_below-cons :
    (c : ℕ) (cs : Str) (k : ℕ)
    → boundary_below (c ∷ cs) (len_utf8 c + k) ≡ len_utf8 c + boundary_below cs k
unfolding boundary_below
boundary_below-cons c cs zero =
    let e : len_utf8 c + 0 ≡ suc (len_utf8 c - 1) = omega (arith, len_utf8-pos c) in
    rw e (ground (arith, len_utf8-pos c, is_char_boundary-zero cs, e, is_char_boundary-cons c cs 0))
boundary_below-cons c cs (suc k) =
    let e : len_utf8 c + suc k ≡ suc (len_utf8 c + k) = omega arith in
    rw e (ground (arith, e, is_char_boundary-cons c cs (suc k), boundary_below-cons c cs k))

get_to-cons :
    (c : ℕ) (cs : Str) (k : ℕ)
    → get_to (c ∷ cs) (len_utf8 c + k) ≡ Option.map (λ p. c ∷ p) (get_to cs k)
unfolding get_to
get_to-cons c cs k =
    let e : len_utf8 c + k - len_utf8 c ≡ k = omega arith in rw e (ground (arith, len_utf8-pos c))

boundary_below-nil : (limit : ℕ) → boundary_below [] limit ≡ 0
unfolding boundary_below is_char_boundary
boundary_below-nil zero = refl
boundary_below-nil (suc k) = ground (arith, boundary_below-nil k)

get_to-zero : (s : Str) → get_to s 0 ≡ some []
unfolding get_to
get_to-zero [] = refl
get_to-zero (c ∷ cs) = refl

-- The slice up to the last boundary is the greedy prefix.
get_to-boundary_below :
    (s : Str) (limit : ℕ) → get_to s (boundary_below s limit) ≡ some (fit s limit)
get_to-boundary_below [] limit = rw boundary_below-nil (get_to-zero [])
get_to-boundary_below (c ∷ cs) limit = elim (Bool-cases (leb (len_utf8 c) limit)) [
  | inl h ↦
      let e : limit ≡ len_utf8 c + (limit - len_utf8 c) = omega tests in
      rw h (
        ap (λ n. get_to (c ∷ cs) (boundary_below (c ∷ cs) n)) e
        ∙ rw (boundary_below-cons, get_to-cons, get_to-boundary_below cs (limit - len_utf8 c)))
  | inr h ↦ rw (h, boundary_below-first c cs limit (omega tests)) (get_to-zero (c ∷ cs))
]

-- What `truncate_bytes s limit` promises: a prefix of `s` that fits, and past which nothing fits.
pub record Longest (s : Str) (limit : ℕ) (r : Str) : Type 0 where
  pub rest : Str
  pub is_prefix : r ++ rest ≡ s
  pub within : byte_len r ≤ limit
  pub maximal : (c : ℕ) (cs : Str) → rest ≡ c ∷ cs → limit < byte_len r + len_utf8 c

Longest-cons :
    (c : ℕ) (s : Str) (limit : ℕ) (r : Str)
    → len_utf8 c ≤ limit
    → Longest s (limit - len_utf8 c) r
    → Longest (c ∷ s) limit (c ∷ r)
Longest-cons c s limit r h l = record {
  rest = l.rest;
  is_prefix = ap (λ t. c ∷ t) l.is_prefix;
  within = omega (arith, l.within);
  maximal = λ d ds e. omega (arith, l.maximal d ds e);
}

fit-Longest : (s : Str) (limit : ℕ) → Longest s limit (fit s limit)
fit-Longest [] limit = record {
  rest = [];
  is_prefix = refl;
  within = omega arith;
  maximal = λ c cs e. cc;
}
fit-Longest (c ∷ cs) limit = elim (Bool-cases (leb (len_utf8 c) limit)) [
  | inl h ↦ rw h (Longest-cons c cs limit _ (omega tests) (fit-Longest cs (limit - len_utf8 c)))
  | inr h ↦ rw h (record {
    rest = c ∷ cs;
    is_prefix = refl;
    within = omega arith;
    maximal = λ d ds e. ground arith;
  })
]

-- A text that fits is its own greedy prefix.
pub fit_whole : (s : Str) (limit : ℕ) → byte_len s ≤ limit → fit s limit ≡ s
fit_whole [] limit h = refl
fit_whole (c ∷ cs) limit h = ground (arith, fit_whole cs (limit - len_utf8 c))

pub truncate_bytes-fit : (s : Str) (limit : ℕ) → truncate_bytes s limit ≡ fit s limit
unfolding truncate_bytes
truncate_bytes-fit s limit = elim (Bool-cases (leb (byte_len s) limit)) [
  | inl h ↦ rw h (sym (fit_whole s limit (omega tests)))
  | inr h ↦ rw (h, get_to-boundary_below s limit)
]

-- For every text and limit, the result is a prefix of the text, is at most `limit` bytes long, and
-- does not fit any more with the character that follows it.
pub truncate_bytes-Longest : (s : Str) (limit : ℕ) → Longest s limit (truncate_bytes s limit)
truncate_bytes-Longest s limit = rw truncate_bytes-fit (fit-Longest s limit)
