-- ===== src/Hex.antt =====
-- crates/sukkula-core/src/hex.rs: digests as hex, strict on the way in.
pub mod RoundTrip
pub mod Tests
use sukkula.Base.Maybe.{◌>>=◌}
use sukkula.Base.{
  ℕ, ◌+◌, ◌-◌, ◌*◌, ◌/◌, ◌%◌, Bool, ◌&&◌, Option, none, some, List, [], ◌∷◌, ltb, leb, ◌==◌,
  if◌then◌else◌, length, Str, as_bytes,
}

-- `{b:02x}`: the two digits of a byte.
pub digit : ℕ → ℕ
digit d = if ltb d 10 then b'0' + d else b'a' + (d - 10)

unfoldable pub encode : List ℕ → Str
unfolding digit
encode [] = []
encode (b ∷ bs) = digit (b / 16) ∷ digit (b % 16) ∷ encode bs

abbrev pub is_between : ℕ → ℕ → ℕ → Bool
is_between lo hi c = leb lo c && leb c hi

pub nibble : ℕ → Option ℕ
nibble c =
    if is_between b'0' b'9' c
    then some (c - b'0')
    else if is_between b'a' b'f' c
    then some (c - b'a' + 10)
    else if is_between b'A' b'F' c
    then some (c - b'A' + 10)
    else none

-- The result of a checked operation on a `u8`.
pub checked : ℕ → Option ℕ
checked n = if ltb n 256 then some n else none

-- `nibble(*hi)?.checked_mul(16)?.checked_add(nibble(*lo)?)?`.
pub decode_pair : ℕ → ℕ → Option ℕ
unfolding nibble checked
decode_pair hi lo = do h ← nibble hi; m ← checked (h * 16); l ← nibble lo; checked (m + l)

-- The loop of `decode_32`, over `chunks_exact(2)`.
pub decode_pairs : List ℕ → Option (List ℕ)
unfolding decode_pair
decode_pairs (hi ∷ lo ∷ bytes) = do
  b ← decode_pair hi lo
  rest ← decode_pairs bytes
  some (b ∷ rest)
decode_pairs _ = some []

unfoldable pub decode_32 : Str → Option (List ℕ)
unfolding decode_pairs as_bytes
decode_32 s = let bytes = as_bytes s in if length bytes == 64 then decode_pairs bytes else none
