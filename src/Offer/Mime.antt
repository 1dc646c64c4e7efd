-- ===== src/Offer/Mime.antt =====
-- `clean_mime` of crates/sukkula-core/src/offer.rs: a MIME type is `type/subtype`, or it is dropped.
use sukkula.Base.{
  ℕ, Bool, not, ◌&&◌, ◌||◌, Option, none, some, [], ◌∷◌, ◌++◌, map, ltb, leb, ◌==◌, if◌then◌else◌,
  is_empty, any, all, Str, byte_len, as_bytes, to_lower, trim, codes,
}
use sukkula.Limits.{max_mime_bytes}

-- `split(d).next()`: the text before the first `d`.
pub before : ℕ → Str → Str
before d [] = []
before d (c ∷ cs) = let rest = before d cs in if c == d then [] else c ∷ rest

pub split_once : ℕ → Str → Option (Str × Str)
split_once d [] = none
split_once d (c ∷ cs) =
    if c == d
    then some ([], cs)
    else elim (split_once d cs) [ none ↦ none | some (a, b) ↦ some (c ∷ a, b) ]

abbrev pub is_alphanumeric : ℕ → Bool
is_alphanumeric b =
    (leb b'0' b && leb b b'9') || (leb b'A' b && leb b b'Z') || (leb b'a' b && leb b b'z')

abbrev pub is_name_byte : ℕ → Bool
is_name_byte b = is_alphanumeric b || any (λ c. c == b) (codes "!#$&-^_.+")

abbrev pub is_token : Str → Bool
is_token s = not (is_empty s) && all is_name_byte (as_bytes s)

pub mime_of : Option (Str × Str) → Option Str
mime_of none = none
mime_of (some (ty, sub)) =
    if is_token ty && is_token sub then some (map to_lower ty ++ b'/' ∷ map to_lower sub) else none

unfoldable pub clean_mime : Str → Option Str
unfolding before split_once mime_of
clean_mime m =
    let m' = trim (before b';' m) in
    if is_empty m' || ltb max_mime_bytes (byte_len m') then none else mime_of (split_once b'/' m')
