-- ===== src/Offer/Promises.antt =====
-- What an offer that `Offer::validate` of offer.rs lets through is like.
use mathlib.Core.Path.{subst}
use sukkula.Base.{
  ℕ, ◌≤◌, ◌≡◌, refl, Bool, true, false, not, ◌&&◌, Option, none, some, List, ltb, length, is_empty,
  Str, arith, inl, inr, Bool-cases, tests,
}
use sukkula.Base.Outcome.{ok, ok-bind, ok-injective}
use sukkula.Limits.{max_files_per_offer, max_offer_bytes, max_alias_chars, max_model_chars}
use sukkula.Text.{display}
use sukkula.Text.Line.{IsShort, display-IsShort}
use sukkula.Text.Message.{message}
use sukkula.Text.Message.Promise.{IsPlainMessage, message-IsPlainMessage}
use sukkula.Offer.{
  RawOffer, OfferFile, Offer, OfferError, check_files, is_pin, check_pin, shown, is_none, is_blank,
  is_oversized, sender_or_unknown, unknown_sender, build, validate,
}
use sukkula.Offer.Files.{ok-refuse_if, AllChecked, AreChecked, sum_sizes, check_files-ok}

abbrev pub IfSome {ℓ κ} : {A : Type ℓ} → (A → Type κ) → Option A → Type κ
IfSome P none = Unit
IfSome P (some a) = P a

abbrev pub IsLabel : ℕ → Str → Type 0
IsLabel limit s = IsShort limit s × (is_empty s ≡ false)

abbrev pub IsMessage : Str → Type 0
IsMessage s = IsPlainMessage s × (is_empty s ≡ false)

-- What a checked offer is like.
pub record IsOffer (raw : RawOffer) (o : Offer) : Type 0 where
  pub files_checked : AllChecked raw.files o.files
  pub few_files : length raw.files ≤ max_files_per_offer
  pub total_kept : o.total_bytes ≡ sum_sizes o.files
  pub within : o.total_bytes ≤ max_offer_bytes
  pub sender_shown : IsLabel max_alias_chars o.sender
  pub model_shown : IfSome (IsLabel max_model_chars) o.model
  pub text_shown : IfSome IsMessage o.text
  pub something : is_empty o.files && is_none o.text ≡ false
  pub pin_kept : o.pin ≡ raw.pin
  pub pin_valid : IfSome (λ p. is_pin p ≡ true) o.pin

check_pin-ok : (o p : Option Str) → check_pin o ≡ ok p → (p ≡ o) × IfSome (λ x. is_pin x ≡ true) p
unfolding check_pin
check_pin-ok none p h =
    subst (λ q. (q ≡ none) × IfSome (λ x. is_pin x ≡ true) q) (ok-injective h) (refl, tt)
check_pin-ok (some x) p h =
    let (v, r) = ok-refuse_if (not (is_pin x)) OfferError.bad_pin _ h in
    subst (λ q. (q ≡ some x) × IfSome (λ y. is_pin y ≡ true) q) (ok-injective r)
      (refl, unnegated (is_pin x) v)
  where
    unnegated : (b : Bool) → not b ≡ false → b ≡ true
    unnegated true e = refl
    unnegated false e = ground arith

shown-IfSome :
    (P : Str → Type 0) (f : Str → Str) (o : Option Str)
    → ((s : Str) → P (f s))
    → IfSome (λ s. P s × (is_empty s ≡ false)) (shown f o)
shown-IfSome P f none h = tt
shown-IfSome P f (some s) h = elim (Bool-cases (is_empty (f s))) [
  | inl e ↦ rw e tt
  | inr e ↦ rw e (h s, e)
]

unknown-IsLabel : IsLabel max_alias_chars unknown_sender
unfolding unknown_sender sukkula.Text.is_forbidden sukkula.Text.classify
unknown-IsLabel = (record { within = omega arith; showable = refl }, refl)

sender-IsLabel :
    (raw : Str) → IsLabel max_alias_chars (sender_or_unknown (display raw max_alias_chars))
sender-IsLabel raw = elim (Bool-cases (is_empty (display raw max_alias_chars))) [
  | inl e ↦ rw e unknown-IsLabel
  | inr e ↦ rw e (display-IsShort raw max_alias_chars, e)
]

build-IsOffer :
    (raw : RawOffer) (total : ℕ) (files : List OfferFile) (pin : Option Str) (o : Offer)
    → length raw.files ≤ max_files_per_offer
    → AreChecked raw.files 0 total files
    → (pin ≡ raw.pin) × IfSome (λ x. is_pin x ≡ true) pin
    → build raw total files pin ≡ ok o
    → IsOffer raw o
unfolding build
build-IsOffer raw total files pin o c v p h =
    let (some_left, r) =
      ok-refuse_if (is_empty files && is_none (shown message raw.text)) OfferError.empty _ h in
    subst (λ x. IsOffer raw x) (ok-injective r)
      (record {
        files_checked = v.checked;
        few_files = c;
        total_kept = omega (arith, v.sum_kept);
        within = v.within;
        sender_shown = sender-IsLabel raw.sender;
        model_shown =
            shown-IfSome (IsShort max_model_chars) (λ m. display m max_model_chars) raw.model
              (λ s. display-IsShort s max_model_chars);
        text_shown = shown-IfSome IsPlainMessage message raw.text message-IsPlainMessage;
        something = some_left;
        pin_kept = p.0;
        pin_valid = p.1;
      })

-- Whatever a peer sends, an offer that is let through has at most 500 files, each with the declared
-- size of at most 8 GiB, the sanitised name, the cleaned MIME type and the declared digest, if any;
-- its total is the sum of the sizes and at most 16 GiB; the sender, the model and the message are
-- not empty, within their limits and without forbidden characters; the PIN is the one sent, 1 to 16
-- digits; and there is a file or a message.
pub validate-IsOffer : (raw : RawOffer) (o : Offer) → validate raw ≡ ok o → IsOffer raw o
unfolding validate
validate-IsOffer raw o h =
    let (a, r) = ok-refuse_if (is_empty raw.files && is_blank raw.text) OfferError.empty _ h in
    let (b, s) =
      ok-refuse_if (ltb max_files_per_offer (length raw.files))
        (OfferError.too_many_files (length raw.files)) _ r in
    let (c, t) = ok-refuse_if (is_oversized raw.text) OfferError.text_too_large _ s in
    let ((total, files), d, u) = ok-bind (check_files 0 0 raw.files) _ t in
    let (pin, e, v) = ok-bind (check_pin raw.pin) _ u in
    build-IsOffer raw total files pin o (omega tests)
      (check_files-ok raw.files 0 0 total files (omega arith) d) (check_pin-ok raw.pin pin e) v
