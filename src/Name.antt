-- ===== src/Name.antt =====
-- crates/sukkula-core/src/name.rs: a peer-supplied file name, made into one safe path component.
pub mod Clean
pub mod Loop
pub mod Keeps
pub mod Shorten
pub mod Safe
pub mod Promises
pub mod Numbered
pub mod Tests
use mathlib.Core.Option.{get_or}
use sukkula.Base.{
  ℕ, zero, suc, ◌+◌, ◌-◌, ◌*◌, ◌/◌, ◌%◌, Bool, true, false, not, ◌&&◌, ◌||◌, Option, none, some,
  List, [], ◌∷◌, ◌++◌, ltb, leb, ◌==◌, if◌then◌else◌, is_empty, any, length, take, Str, len_utf8,
  byte_len, ends_with, ◌≡◌, codes, contains, rfind, trim_start_matches, trim_end_matches,
}
use sukkula.Limits.{max_combining_run, max_extension_bytes, max_name_bytes}
use sukkula.Text.{Class, classify, truncate_bytes}

abbrev pub scan_bytes : ℕ
scan_bytes = max_name_bytes * 4

abbrev pub dot : ℕ
dot = b'.'

abbrev pub is_separator : ℕ → Bool
is_separator c = c == b'/' || c == b'\\'

abbrev pub is_dot_or_space : ℕ → Bool
is_dot_or_space c = c == dot || c == b' '

-- "received-file".
unfoldable pub fallback_name : Str
fallback_name = codes "received-file"

-- `raw.rsplit(['/', '\\']).next()`: what follows the last separator.
pub last_segment : Str → Str
last_segment [] = []
last_segment (c ∷ cs) =
    let rest = last_segment cs in
    if any is_separator cs then rest else if is_separator c then cs else c ∷ cs

-- The variables of `sanitize`'s loop; `cut` says that it ended early.
pub record Scan : Type 0 where
  pub cleaned : Str
  pub pending_space : Bool
  pub combining_run : ℕ
  pub cut : Bool

-- The body of the loop, for one character of the last segment.
pub scan_turn : Scan → ℕ → Scan
scan_turn s c = elim (classify c) [
  | Class.drop ↦ s
  | Class.space ↦ record s { pending_space = true }
  | Class.newline ↦ record s { pending_space = true }
  | Class.combining ↦
      if not (is_empty s.cleaned)
        && not (ends_with s.cleaned dot)
        && ltb s.combining_run max_combining_run
      then record s { combining_run = s.combining_run + 1; cleaned = s.cleaned ++ c ∷ [] }
      else s
  | Class.keep ↦ if c == dot && is_empty s.cleaned then s else record s {
    cleaned =
        (if s.pending_space && not (is_empty s.cleaned)
          then s.cleaned ++ b' ' ∷ c ∷ []
          else s.cleaned ++ c ∷ []);
    pending_space = false;
    combining_run = 0;
  }
]

pub scan : List ℕ → Scan → Scan
scan [] s = s
scan (c ∷ cs) s =
    let rest = scan cs (scan_turn s c) in
    if ltb scan_bytes (byte_len s.cleaned) then record s { cut = true } else rest

abbrev pub scan_start : Scan
scan_start = record { cleaned = []; pending_space = false; combining_run = 0; cut = false }

pub is_keep : ℕ → Bool
is_keep c = elim (classify c) [ Class.keep ↦ true | _ ↦ false ]

-- `filter`, then `take` so many characters, then `scan` while the bytes fit.
pub filter_keep : Str → Str
unfolding is_keep
filter_keep [] = []
filter_keep (c ∷ cs) = let rest = filter_keep cs in if is_keep c then c ∷ rest else rest

pub take_bytes : ℕ → Str → Str
take_bytes len [] = []
take_bytes len (c ∷ cs) =
    let after = len + len_utf8 c in
    let rest = take_bytes after cs in if leb after max_extension_bytes then c ∷ rest else []

pub sanitize_extension : Str → Str
unfolding filter_keep take_bytes
sanitize_extension ext = take_bytes 0 (take max_extension_bytes (filter_keep ext))

-- `name.rfind('.')`, with the parts of the name on its two sides.
pub split_at : Str → Option (Str × Str) → Str × Option Str
split_at name none = (name, none)
split_at name (some (stem, ext)) =
    if is_empty stem
    then (name, none)
    else if is_empty ext || ltb max_extension_bytes (byte_len ext) || contains ext b' '
    then (name, none)
    else (stem, some ext)

pub split_extension : Str → Str × Option Str
unfolding split_at rfind
split_extension name = split_at name (rfind name dot)

pub shorten_with : Str → Str × Option Str → Str
shorten_with name (stem, some ext) =
    let stem' =
      trim_end_matches is_dot_or_space
        (truncate_bytes stem (max_name_bytes - (byte_len ext + 1))) in
    if is_empty stem' then truncate_bytes name max_name_bytes else stem' ++ dot ∷ ext
shorten_with name (stem, none) = truncate_bytes name max_name_bytes

pub shorten : Str → Str
shorten name =
    if leb (byte_len name) max_name_bytes then name else shorten_with name (split_extension name)

-- A very long name loses its middle, not its extension.
pub restore_extension : Str → Option Str → Str
restore_extension cleaned none = cleaned
restore_extension cleaned (some ext) =
    let ext_clean = sanitize_extension ext in
    if is_empty ext_clean then cleaned else cleaned ++ dot ∷ ext_clean

pub clean : Str → Str
clean segment =
    let s = scan segment scan_start in
    if s.cut then restore_extension s.cleaned (split_extension segment).1 else s.cleaned

pub or_fallback : Str → Str
unfolding fallback_name
or_fallback s = if is_empty s then fallback_name else s

unfoldable pub sanitize : Str → Str
unfolding last_segment clean scan scan_turn restore_extension sanitize_extension split_extension
    shorten shorten_with or_fallback trim_start_matches trim_end_matches
sanitize raw =
    let trimmed =
      trim_end_matches is_dot_or_space
        (trim_start_matches is_dot_or_space (clean (last_segment raw))) in
    or_fallback (trim_end_matches is_dot_or_space (shorten trimmed))

-- `is_safe s` is `sanitize s ≡ s`.
abbrev pub IsSafe : Str → Type 0
IsSafe s = sanitize s ≡ s
