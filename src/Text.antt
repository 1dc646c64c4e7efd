-- ===== src/Text.antt =====
-- crates/sukkula-core/src/text.rs: text a peer chose, made safe to show.
pub mod Marks
pub mod Truncate
pub mod Line
pub mod Message
pub mod Tests
use Prim.Native.Nat.{bit_and}
use mathlib.Core.Option.{get_or}
use sukkula.Base.{
  ℕ, zero, suc, ◌+◌, ◌-◌, Bool, true, false, not, ◌&&◌, ◌||◌, Option, none, some, List, [], ◌∷◌,
  ◌++◌, ltb, leb, ◌==◌, if◌then◌else◌, is_empty, Str, len_utf8, byte_len, is_char_boundary, get_to,
  ends_with, pop, trim_end_matches,
}
use sukkula.Limits.{max_combining_run, max_message_bytes}
use Marks.{marks}

-- `Class`: what happens to one character on its way to the screen.
pub data Class : Type 0 where
  keep space newline combining drop : Class

abbrev Ranges : Type 0
Ranges = List (ℕ × ℕ)

unfoldable pub in_ranges : Ranges → ℕ → Bool
in_ranges [] u = false
in_ranges ((lo, hi) ∷ rs) u = (leb lo u && leb u hi) || in_ranges rs u

-- The patterns of `classify`, an arm each.
abbrev line_breaks : Ranges
line_breaks = (0x0A, 0x0A) ∷ (0x0D, 0x0D) ∷ (0x2028, 0x2029) ∷ (0x85, 0x85) ∷ []

abbrev controls : Ranges
controls = (0x00, 0x1F) ∷ (0x7F, 0x9F) ∷ []

abbrev spaces : Ranges
spaces =
    (0x20, 0x20)
    ∷ (0xA0, 0xA0)
    ∷ (0x1680, 0x1680)
    ∷ (0x2000, 0x200A)
    ∷ (0x202F, 0x202F)
    ∷ (0x205F, 0x205F)
    ∷ (0x3000, 0x3000)
    ∷ (0x2800, 0x2800)
    ∷ []

abbrev bidi_controls : Ranges
bidi_controls = (0x061C, 0x061C) ∷ (0x200E, 0x200F) ∷ (0x202A, 0x202E) ∷ (0x2066, 0x2069) ∷ []

abbrev invisibles : Ranges
invisibles =
    (0xAD, 0xAD)
    ∷ (0x034F, 0x034F)
    ∷ (0x0600, 0x0605)
    ∷ (0x06DD, 0x06DD)
    ∷ (0x070F, 0x070F)
    ∷ (0x0890, 0x0891)
    ∷ (0x08E2, 0x08E2)
    ∷ (0x115F, 0x115F)
    ∷ (0x1160, 0x1160)
    ∷ (0x17B4, 0x17B4)
    ∷ (0x17B5, 0x17B5)
    ∷ (0x180B, 0x180F)
    ∷ (0x200B, 0x200D)
    ∷ (0x2060, 0x2065)
    ∷ (0x206A, 0x206F)
    ∷ (0x3164, 0x3164)
    ∷ (0xFE00, 0xFE0F)
    ∷ (0xFEFF, 0xFEFF)
    ∷ (0xFFA0, 0xFFA0)
    ∷ (0xFFF0, 0xFFFB)
    ∷ (0x110BD, 0x110BD)
    ∷ (0x110CD, 0x110CD)
    ∷ (0x13430, 0x1343F)
    ∷ (0x1BCA0, 0x1BCA3)
    ∷ (0x1D173, 0x1D17A)
    ∷ (0xE0000, 0xE0FFF)
    ∷ []

abbrev private_use : Ranges
private_use = (0xE000, 0xF8FF) ∷ (0xF0000, 0x10FFFF) ∷ []

abbrev noncharacters : Ranges
noncharacters = (0xFDD0, 0xFDEF) ∷ []

-- `is_mark`. The binary search over the sorted table finds a range that holds `u` when there is one.
is_mark : ℕ → Bool
unfolding in_ranges marks
is_mark u = in_ranges marks u

unfoldable pub classify : ℕ → Class
unfolding in_ranges is_mark
classify u =
    if in_ranges line_breaks u
    then newline
    else if u == 0x09
    then space
    else if in_ranges controls u
    then drop
    else if in_ranges spaces u
    then space
    else if in_ranges bidi_controls u
    then drop
    else if in_ranges invisibles u
    then drop
    else if in_ranges private_use u
    then drop
    else if in_ranges noncharacters u
    then drop
    else if bit_and u 0xFFFE == 0xFFFE
    then drop
    else if is_mark u
    then combining
    else keep

-- `is_forbidden`: never in the output of `display` or of `sanitize`.
unfoldable pub is_forbidden : ℕ → Bool
is_forbidden c = elim (classify c) [
  | drop ↦ true
  | newline ↦ true
  | space ↦ not (c == b' ')
  | _ ↦ false
]

unfoldable pub is_forbidden_in_message : ℕ → Bool
is_forbidden_in_message c = elim (classify c) [
  | drop ↦ true
  | newline ↦ not (c == 0x0A)
  | space ↦ not (c == b' ')
  | _ ↦ false
]

-- The variables of `display`'s loop.
pub record Display : Type 0 where
  pub out : Str
  pub chars : ℕ
  pub pending_space : Bool
  pub combining_run : ℕ

-- What one turn of a loop does: go on, or return (or break) with a value.
pub data Turn (S : Type 0) : Type 0 where
  go : S → Turn S
  stop : Str → Turn S

abbrev ellipsis : ℕ
ellipsis = 0x2026

-- `while chars >= max_chars { out.pop(); chars -= 1 }`, on `chars` rounds at most.
pop_to : ℕ → ℕ → Str → Str
pop_to zero max_chars out = out
pop_to (suc chars) max_chars out = elim (leb max_chars (suc chars) && not (is_empty out)) [
  | true ↦ pop_to chars max_chars (pop out)
  | false ↦ out
]

-- The text that ends with an ellipsis.
truncated : ℕ → Display → Str
unfolding pop_to
truncated max_chars s =
    trim_end_matches (λ c. c == b' ') (pop_to s.chars max_chars s.out) ++ ellipsis ∷ []

-- The end of the loop's body, for a character that is kept.
push_kept : ℕ → Display → ℕ → Turn Display
unfolding truncated
push_kept max_chars s c =
    let spaced = s.pending_space && not (is_empty s.out) in
    let needed : ℕ = if spaced then 2 else 1 in
    if ltb max_chars (s.chars + needed)
    then stop (truncated max_chars s)
    else go (record s {
      out = (if spaced then s.out ++ b' ' ∷ c ∷ [] else s.out ++ c ∷ []);
      chars = s.chars + needed;
      pending_space = false;
    })

display_turn : ℕ → Display → ℕ → Turn Display
unfolding push_kept
display_turn max_chars s c = elim (classify c) [
  | drop ↦ go s
  | space ↦ go (record s { pending_space = true })
  | newline ↦ go (record s { pending_space = true })
  | combining ↦
      if is_empty s.out || leb max_combining_run s.combining_run
      then go s
      else push_kept max_chars (record s { combining_run = s.combining_run + 1 }) c
  | keep ↦ push_kept max_chars (record s { combining_run = 0 }) c
]

display_loop : ℕ → List ℕ → Display → Str
unfolding display_turn
display_loop max_chars [] s = s.out
display_loop max_chars (c ∷ cs) s = elim (display_turn max_chars s c) [
  | go s' ↦ display_loop max_chars cs s'
  | stop out ↦ out
]

abbrev display_start : Display
display_start = record { out = []; chars = 0; pending_space = false; combining_run = 0 }

unfoldable pub display : Str → ℕ → Str
unfolding display_loop
display raw max_chars = if max_chars == 0 then [] else display_loop max_chars raw display_start

-- The loop of `truncate_bytes`: the last boundary at or below `end`.
boundary_below : Str → ℕ → ℕ
boundary_below s zero = zero
boundary_below s (suc e) =
    let lower = boundary_below s e in if is_char_boundary s (suc e) then suc e else lower

unfoldable pub truncate_bytes : Str → ℕ → Str
unfolding boundary_below is_char_boundary get_to
truncate_bytes s limit =
    if leb (byte_len s) limit then s else get_or (get_to s (boundary_below s limit)) []
