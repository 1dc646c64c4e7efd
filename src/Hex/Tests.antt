-- ===== src/Hex/Tests.antt =====
-- The theorems about hex.rs at concrete digests.
use sukkula.Base.{ℕ, zero, suc, arith, ◌≡◌, refl, some, none, List, [], ◌∷◌, Str, codes}
use sukkula.Hex.{encode, decode_32}
use sukkula.Hex.RoundTrip.{IsBytes, IsDigest, decode_32-encode, decode_32-IsDigest}

abbrev repeat : ℕ → ℕ → List ℕ
repeat zero x = []
repeat (suc n) x = x ∷ repeat n x

abbrev digest : List ℕ
digest = repeat 32 0xAB

abbrev digest_text : Str
digest_text = codes "ABabABabABabABabABabABabABabABabABabABabABabABabABabABabABabABab"

not_hex : decode_32 (repeat 64 b'g') ≡ none
unfolding decode_32
not_hex = refl

too_long : decode_32 (repeat 65 b'0') ≡ none
unfolding decode_32
too_long = refl

two_byte_characters : decode_32 (repeat 32 0xE9) ≡ none
unfolding decode_32
two_byte_characters = refl

repeat-IsBytes : (n : ℕ) → IsBytes (repeat n 0xAB)
repeat-IsBytes zero = tt
repeat-IsBytes (suc n) = (omega arith, repeat-IsBytes n)

digest_read : decode_32 digest_text ≡ some digest
unfolding decode_32
digest_read = refl

decode_32-encode_example : decode_32 (encode digest) ≡ some digest
decode_32-encode_example = decode_32-encode digest (repeat-IsBytes 32) refl

decode_32-IsDigest_example : IsDigest digest_text digest
decode_32-IsDigest_example = decode_32-IsDigest digest_text digest digest_read
