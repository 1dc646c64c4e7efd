-- ===== src/Store.antt =====
-- crates/sukkula-core/src/store.rs: the names of stored and of temporary files.
pub mod Apart
pub mod Names
use sukkula.Base.{
  ℕ, ◌+◌, ◌*◌, Bool, true, false, not, ◌&&◌, ◌||◌, Option, none, some, List, [], ◌∷◌, ◌++◌, ltb,
  leb, ◌==◌, if◌then◌else◌, is_empty, all, length, Str, byte_len, as_bytes, rfind, codes,
}
use sukkula.Hex.{encode}

abbrev pub max_store_name : ℕ
max_store_name = 64

abbrev pub tmp_random_bytes : ℕ
tmp_random_bytes = 8

abbrev is_store_byte : ℕ → Bool
is_store_byte b =
    (leb b'a' b && leb b b'z') || (leb b'0' b && leb b b'9') || b == b'.' || b == b'_' || b == b'-'

-- `strip_prefix` of one character; a name starts with a dot when it has one.
pub strip_dot : Str → Option Str
strip_dot [] = none
strip_dot (c ∷ cs) = if c == b'.' then some cs else none

abbrev pub is_absent {ℓ} : {A : Type ℓ} → Option A → Bool
is_absent none = true
is_absent (some a) = false

-- Whether `check_name` returns `Ok`.
unfoldable pub check_name : Str → Bool
unfolding strip_dot
check_name name =
    not (is_empty name)
    && leb (byte_len name) max_store_name
    && is_absent (strip_dot name)
    && all is_store_byte (as_bytes name)

unfoldable pub temporary_name : Str → List ℕ → Str
temporary_name name random = b'.' ∷ (name ++ b'.' ∷ (encode random ++ codes ".tmp"))

is_equal : Str → Str → Bool
is_equal [] [] = true
is_equal [] (d ∷ ds) = false
is_equal (c ∷ cs) [] = false
is_equal (c ∷ cs) (d ∷ ds) = c == d && is_equal cs ds

strip_suffix : Str → Str → Option Str
unfolding is_equal
strip_suffix end [] = if is_equal [] end then some [] else none
strip_suffix end (c ∷ cs) =
    if is_equal (c ∷ cs) end
    then some []
    else elim (strip_suffix end cs) [ none ↦ none | some s ↦ some (c ∷ s) ]

abbrev is_lower_hex : ℕ → Bool
is_lower_hex b = (leb b'0' b && leb b b'9') || (leb b'a' b && leb b b'f')

-- The two parts around the last dot.
is_temporary_parts : Option (Str × Str) → Bool
unfolding check_name
is_temporary_parts none = false
is_temporary_parts (some (store_name, random)) =
    byte_len random == tmp_random_bytes * 2
    && all is_lower_hex (as_bytes random)
    && check_name store_name

pub is_temporary_rest : Option Str → Bool
unfolding is_temporary_parts
is_temporary_rest none = false
is_temporary_rest (some rest) = elim (strip_suffix (codes ".tmp") rest) [
  | none ↦ false
  | some s ↦ is_temporary_parts (rfind s b'.')
]

unfoldable pub is_temporary : Str → Bool
unfolding strip_dot is_temporary_rest strip_suffix
is_temporary name = is_temporary_rest (strip_dot name)
