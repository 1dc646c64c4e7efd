-- ===== src/Base/Strings.antt =====
-- Rust's `str`: a sequence of Unicode scalar values, each a number, measured in UTF-8 bytes, with
-- the operations of the standard library that the program uses.
use Prim.Native.Nat.{ℕ, ◌+◌, ◌-◌, ◌/◌, ◌%◌, ◌≤◌, ◌<◌}
use mathlib.Core.Path.{◌≡◌, refl, ap}
use mathlib.Core.Bool.{Bool, true, false, ◌&&◌, ◌||◌}
use mathlib.Core.List.{List, [], ◌∷◌, ◌++◌}
use mathlib.Core.Option
use mathlib.Core.Option.{Option, none, some}
use native.Mathlib.Omega.{arith}
use Prim.Native.Char.{code}
use Prim.Native.String.{String}
use sukkula.Base.Tests.{ltb, leb, ◌==◌, if◌then◌else◌, Bool-cases}
use mathlib.Core.Logic.{inl, inr}
use sukkula.Base.Lists.{is_empty, any, all}

abbrev pub Str : Type 0
Str = List ℕ

-- `char::len_utf8`.
unfoldable pub len_utf8 : ℕ → ℕ
len_utf8 c = if ltb c 0x80 then 1 else if ltb c 0x800 then 2 else if ltb c 0x10000 then 3 else 4

-- `str::len`.
abbrev pub byte_len : Str → ℕ
byte_len [] = 0
byte_len (c ∷ cs) = len_utf8 c + byte_len cs

abbrev pub continuation : ℕ → ℕ
continuation c = 0x80 + c % 64

-- `str::as_bytes`: the UTF-8 bytes of one character, and of a text.
abbrev pub utf8 : ℕ → List ℕ
utf8 c =
    if ltb c 0x80
    then c ∷ []
    else if ltb c 0x800
    then (0xC0 + c / 64) ∷ continuation c ∷ []
    else if ltb c 0x10000
    then (0xE0 + c / 4096) ∷ continuation (c / 64) ∷ continuation c ∷ []
    else (0xF0 + c / 262144) ∷ continuation (c / 4096) ∷ continuation (c / 64) ∷ continuation c ∷ []

unfoldable pub as_bytes : Str → List ℕ
as_bytes [] = []
as_bytes (c ∷ cs) = utf8 c ++ as_bytes cs

-- `to_ascii_lowercase` of one character.
abbrev pub to_lower : ℕ → ℕ
to_lower c = if leb b'A' c && leb c b'Z' then c + 32 else c

abbrev pub is_ascii : ℕ → Bool
is_ascii c = ltb c 0x80

-- `str::is_char_boundary`.
unfoldable pub is_char_boundary : Str → ℕ → Bool
is_char_boundary [] i = i == 0
is_char_boundary (c ∷ cs) i = i == 0 || (leb (len_utf8 c) i && is_char_boundary cs (i - len_utf8 c))

-- `s.get(..i)`: nothing unless byte `i` is a boundary.
unfoldable pub get_to : Str → ℕ → Option Str
get_to [] i = if i == 0 then some [] else none
get_to (c ∷ cs) i =
    let rest = get_to cs (i - len_utf8 c) in
    if i == 0 then some [] else if leb (len_utf8 c) i then Option.map (λ p. c ∷ p) rest else none

-- `ends_with` one character.
unfoldable pub ends_with : Str → ℕ → Bool
ends_with [] d = false
ends_with (c ∷ cs) d = let rest = ends_with cs d in if is_empty cs then c == d else rest

-- `contains` one character.
abbrev pub contains : Str → ℕ → Bool
contains s d = any (λ c. c == d) s

-- `String::pop`, without the character.
unfoldable pub pop : Str → Str
pop [] = []
pop (c ∷ cs) = let rest = pop cs in if is_empty cs then [] else c ∷ rest

-- `trim_start_matches` and `trim_end_matches`, for a test on characters.
unfoldable pub trim_start_matches : (ℕ → Bool) → Str → Str
trim_start_matches p [] = []
trim_start_matches p (c ∷ cs) = let rest = trim_start_matches p cs in if p c then rest else c ∷ cs

unfoldable pub trim_end_matches : (ℕ → Bool) → Str → Str
trim_end_matches p [] = []
trim_end_matches p (c ∷ cs) =
    let rest = trim_end_matches p cs in if is_empty rest && p c then [] else c ∷ rest

-- `char::is_whitespace`, and the trims by it.
abbrev pub is_whitespace : ℕ → Bool
is_whitespace c =
    leb 0x09 c && leb c 0x0D
    || c == 0x20
    || c == 0x85
    || c == 0xA0
    || c == 0x1680
    || leb 0x2000 c && leb c 0x200A
    || c == 0x2028
    || c == 0x2029
    || c == 0x202F
    || c == 0x205F
    || c == 0x3000

abbrev pub trim_end : Str → Str
trim_end s = trim_end_matches is_whitespace s

abbrev pub trim : Str → Str
trim s = trim_start_matches is_whitespace (trim_end s)

-- `rfind(d)`, as the text before the last `d` and the text after it.
unfoldable pub rfind : Str → ℕ → Option (Str × Str)
rfind [] d = none
rfind (c ∷ cs) d = elim (rfind cs d) [
  | some (before, after) ↦ some (c ∷ before, after)
  | none ↦ if c == d then some ([], cs) else none
]

pub len_utf8-pos : (c : ℕ) → 0 < len_utf8 c
unfolding len_utf8
len_utf8-pos c = ground arith

pub len_utf8-le : (c : ℕ) → len_utf8 c ≤ 4
unfolding len_utf8
len_utf8-le c = ground arith

pub byte_len-append : (s t : Str) → byte_len (s ++ t) ≡ byte_len s + byte_len t
byte_len-append [] t = omega arith
byte_len-append (c ∷ s) t = omega (arith, byte_len-append s t)

pub ends_with-append_cons : (s t : Str) (c d : ℕ) → ends_with (s ++ c ∷ t) d ≡ ends_with (c ∷ t) d
unfolding ends_with
ends_with-append_cons [] t c d = refl
ends_with-append_cons (x ∷ []) t c d = refl
ends_with-append_cons (x ∷ y ∷ s) t c d = ends_with-append_cons (y ∷ s) t c d

pub is_empty-append_cons : (s t : Str) (c : ℕ) → is_empty (s ++ c ∷ t) ≡ false
is_empty-append_cons [] t c = refl
is_empty-append_cons (x ∷ s) t c = refl

-- Trimming the end keeps a prefix.
pub trim_end_matches-prefix : (p : ℕ → Bool) (s : Str) → (t : Str) × (trim_end_matches p s ++ t ≡ s)
unfolding trim_end_matches
trim_end_matches-prefix p [] = ([], refl)
trim_end_matches-prefix p (c ∷ cs) =
    go (is_empty (trim_end_matches p cs) && p c) refl (trim_end_matches-prefix p cs)
  where
    go :
        (b : Bool)
        → is_empty (trim_end_matches p cs) && p c ≡ b
        → (t : Str) × (trim_end_matches p cs ++ t ≡ cs)
        → (t : Str) × (trim_end_matches p (c ∷ cs) ++ t ≡ c ∷ cs)
    go true e ih = (c ∷ cs, rw e)
    go false e ih = (ih.0, rw e (ap (λ r. c ∷ r) ih.1))

pub byte_len-prefix : (s t u : Str) → s ++ t ≡ u → byte_len s ≤ byte_len u
byte_len-prefix s t u e = omega (arith, byte_len-append s t, ap (λ (x : Str). byte_len x) e)

-- The characters of a text literal.
abbrev pub codes : String → Str
codes String.[] = []
codes (String.◌∷◌ c s) = code c ∷ codes s

-- `rfind` finds a character with what stands on its two sides.
pub rfind_parts : (s : Str) (d : ℕ) {a b : Str} → rfind s d ≡ some (a, b) → s ≡ a ++ d ∷ b
unfolding rfind
rfind_parts [] d h = ground arith
rfind_parts (c ∷ cs) d {a} {b} h = go (rfind cs d) refl (λ x y. rfind_parts cs d {a = x} {b = y})
  where
    go :
        (o : Option (Str × Str))
        → rfind cs d ≡ o
        → ((a b : Str) → rfind cs d ≡ some (a, b) → cs ≡ a ++ d ∷ b)
        → c ∷ cs ≡ a ++ d ∷ b
    go none e ih = ground arith
    go (some (x, y)) e ih = ground (arith, ih x y e)

-- After trimming, the last character is not one that is trimmed.
pub ends_with-trim_end_matches :
    (p : ℕ → Bool) (s : Str) (d : ℕ) → ends_with (trim_end_matches p s) d ≡ true → p d ≡ false
unfolding trim_end_matches ends_with
ends_with-trim_end_matches p [] d h = cc
ends_with-trim_end_matches p (c ∷ cs) d h = ground (arith, ends_with-trim_end_matches p cs d)

pub trim_end_matches_twice :
    (p : ℕ → Bool) (s : Str) → trim_end_matches p (trim_end_matches p s) ≡ trim_end_matches p s
unfolding trim_end_matches
trim_end_matches_twice p [] = refl
trim_end_matches_twice p (c ∷ cs) = ground (arith, trim_end_matches_twice p cs)

pub byte_len-trim_end_matches :
    (p : ℕ → Bool) (s : Str) → byte_len (trim_end_matches p s) ≤ byte_len s
byte_len-trim_end_matches p s = let (t, e) = trim_end_matches-prefix p s in byte_len-prefix _ t s e

-- A text ends as its last part does.
pub trimmed-append :
    (p : ℕ → Bool) (s t : Str)
    → is_empty t ≡ false
    → trim_end_matches p t ≡ t
    → trim_end_matches p (s ++ t) ≡ s ++ t
unfolding trim_end_matches
trimmed-append p [] t n h = h
trimmed-append p (c ∷ s) (d ∷ t) n h =
    ground (arith, trimmed-append p s (d ∷ t) n h, is_empty-append_cons s t d)
trimmed-append p (c ∷ s) [] n h = cc

pub trimmed_tail :
    (p : ℕ → Bool) (s t : Str) → trim_end_matches p (s ++ t) ≡ s ++ t → trim_end_matches p t ≡ t
unfolding trim_end_matches
trimmed_tail p [] t h = h
trimmed_tail p (c ∷ s) t h = trimmed_tail p s t (ground arith)

pub is_empty-append_left : (s t : Str) → is_empty s ≡ false → is_empty (s ++ t) ≡ false
is_empty-append_left [] t h = cc
is_empty-append_left (c ∷ s) t h = refl

pub as_bytes-ascii : (s : Str) → all is_ascii s ≡ true → as_bytes s ≡ s
unfolding as_bytes
as_bytes-ascii [] h = refl
as_bytes-ascii (c ∷ cs) h = ground (arith, as_bytes-ascii cs)

-- A text whose bytes are all ASCII is its own bytes.
pub as_bytes_plain : (s : Str) → all is_ascii (as_bytes s) ≡ true → as_bytes s ≡ s
unfolding as_bytes
as_bytes_plain [] h = refl
as_bytes_plain (c ∷ cs) h = elim (Bool-cases (ltb c 0x80)) [
  | inl e ↦ rw e (ap (λ r. c ∷ r) (as_bytes_plain cs (ground arith)))
  | inr e ↦ ground arith
]
