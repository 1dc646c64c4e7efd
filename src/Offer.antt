-- ===== src/Offer.antt =====
-- crates/sukkula-core/src/offer.rs: an incoming offer, checked before anyone looks at it.
pub mod Mime
pub mod Files
pub mod Explains
pub mod Refusals
pub mod Promises
pub mod Tests
use sukkula.Base.{
  ℕ, ◌+◌, ◌^◌, Bool, true, false, not, ◌&&◌, Option, none, some, List, [], ◌∷◌, ltb, leb,
  if◌then◌else◌, length, is_empty, all, Str, byte_len, trim, codes,
}
use sukkula.Base.Ints.{ℤ, pos, negsuc}
use sukkula.Base.Outcome.{Result, ok, err, ◌>>=◌}
use sukkula.Limits.{
  max_alias_chars, max_file_bytes, max_files_per_offer, max_message_bytes, max_model_chars,
  max_offer_bytes, max_pin_chars,
}
use sukkula.Hex.{decode_32}
use sukkula.Name.{sanitize}
use sukkula.Text.{display}
use sukkula.Text.Message.{message}
use Mime.{clean_mime}

pub data Protocol : Type 0 where
  local_send quick_share wormhole bluetooth croc : Protocol

unfoldable pub unknown_sender : Str
unknown_sender = codes "Unknown device"

-- A file and an offer as the peer described them.
pub record RawFile : Type 0 where
  pub name : Str
  pub size : ℤ
  pub mime : Option Str
  pub sha256 : Option Str

pub record RawOffer : Type 0 where
  pub protocol : Protocol
  pub sender : Str
  pub model : Option Str
  pub files : List RawFile
  pub text : Option Str
  pub pin : Option Str

-- A checked file and a checked offer.
pub record OfferFile : Type 0 where
  pub name : Str
  pub size : ℕ
  pub mime : Option Str
  pub sha256 : Option (List ℕ)

pub record Offer : Type 0 where
  pub protocol : Protocol
  pub sender : Str
  pub model : Option Str
  pub files : List OfferFile
  pub total_bytes : ℕ
  pub text : Option Str
  pub pin : Option Str

pub data OfferError : Type 0 where
  empty offer_too_large text_too_large bad_pin : OfferError
  too_many_files negative_size file_too_large bad_digest : ℕ → OfferError

-- `if broken { return Err(e) }`.
abbrev pub refuse_if {ℓ} :
    {A : Type ℓ} → Bool → OfferError → Result OfferError A → Result OfferError A
refuse_if broken e rest = if broken then err e else rest

-- The size of the file `i`: not negative, a `u64`, and within the limit.
pub check_size : ℕ → ℤ → Result OfferError ℕ
check_size i (negsuc n) = err (negative_size i)
check_size i (pos n) =
    refuse_if (leb (2 ^ 64) n) (file_too_large i)
      (refuse_if (ltb max_file_bytes n) (file_too_large i) (ok n))

-- `total.checked_add(size)`, and the limit on the sum.
pub check_total : ℕ → ℕ → Result OfferError ℕ
check_total total size =
    refuse_if (leb (2 ^ 64) (total + size)) offer_too_large
      (refuse_if (ltb max_offer_bytes (total + size)) offer_too_large (ok (total + size)))

pub digest_or : ℕ → Option (List ℕ) → Result OfferError (Option (List ℕ))
digest_or i (some d) = ok (some d)
digest_or i none = err (bad_digest i)

pub check_digest : ℕ → Option Str → Result OfferError (Option (List ℕ))
unfolding digest_or
check_digest i none = ok none
check_digest i (some h) = if is_empty (trim h) then ok none else digest_or i (decode_32 (trim h))

abbrev pub and_then {ℓ κ} : {A : Type ℓ} {B : Type κ} → Option A → (A → Option B) → Option B
and_then none f = none
and_then (some a) f = f a

-- One turn of the loop over the files: the new total, and the checked file.
pub check_file : ℕ → ℕ → RawFile → Result OfferError (ℕ × OfferFile)
unfolding check_size check_total check_digest
check_file i total f = do
  size ← check_size i f.size
  total' ← check_total total size
  sha256 ← check_digest i f.sha256
  ok (
    total',
    record {
      name = sanitize f.name;
      size = size;
      mime = and_then f.mime clean_mime;
      sha256 = sha256;
    },
  )

pub check_files : ℕ → ℕ → List RawFile → Result OfferError (ℕ × List OfferFile)
unfolding check_file
check_files i total [] = ok (total, [])
check_files i total (f ∷ fs) = do
  (total', file) ← check_file i total f
  (sum, rest) ← check_files (i + 1) total' fs
  ok (sum, file ∷ rest)

abbrev pub is_digit : ℕ → Bool
is_digit c = leb b'0' c && leb c b'9'

abbrev pub is_pin : Str → Bool
is_pin p = not (is_empty p) && leb (length p) max_pin_chars && all is_digit p

pub check_pin : Option Str → Result OfferError (Option Str)
check_pin none = ok none
check_pin (some p) = refuse_if (not (is_pin p)) bad_pin (ok (some p))

-- `.map(f).filter(|m| !m.is_empty())`.
abbrev pub shown : (Str → Str) → Option Str → Option Str
shown f none = none
shown f (some s) = if is_empty (f s) then none else some (f s)

abbrev pub is_none {ℓ} : {A : Type ℓ} → Option A → Bool
is_none none = true
is_none (some a) = false

abbrev pub is_blank : Option Str → Bool
is_blank none = true
is_blank (some t) = is_empty t

abbrev pub is_oversized : Option Str → Bool
is_oversized none = false
is_oversized (some t) = ltb max_message_bytes (byte_len t)

abbrev pub sender_or_unknown : Str → Str
sender_or_unknown s = if is_empty s then unknown_sender else s

-- The end of `validate`.
pub build : RawOffer → ℕ → List OfferFile → Option Str → Result OfferError Offer
build raw total files pin =
    let text = shown message raw.text in
    refuse_if (is_empty files && is_none text) empty (
      ok (record {
        protocol = raw.protocol;
        sender = sender_or_unknown (display raw.sender max_alias_chars);
        model = shown (λ m. display m max_model_chars) raw.model;
        files = files;
        total_bytes = total;
        text = text;
        pin = pin;
      }))

unfoldable pub validate : RawOffer → Result OfferError Offer
unfolding check_files check_pin build
validate raw = refuse_if (is_empty raw.files && is_blank raw.text) empty (
    refuse_if (ltb max_files_per_offer (length raw.files)) (too_many_files (length raw.files)) (
      refuse_if (is_oversized raw.text) text_too_large (do
        (total, files) ← check_files 0 0 raw.files
        pin ← check_pin raw.pin
        build raw total files pin)))
