-- ===== src/Offer/Tests.antt =====
-- The theorems about offer.rs at concrete offers.
use mathlib.Core.Path.{subst}
use sukkula.Base.{
  is_empty, trim, true, false, ◌∙◌, sym, ℕ, zero, suc, ◌+◌, ◌<◌, ◌≡◌, refl, sym, ap, some, none,
  Option, List, [], ◌∷◌, Str, codes, arith, get_elem?,
}
use sukkula.Base.Ints.{pos, negsuc}
use sukkula.Base.Outcome.{ok, err}
use sukkula.Limits.{max_file_bytes}
use sukkula.Offer.{RawFile, RawOffer, OfferFile, Offer, OfferError, Protocol, validate}
use sukkula.Offer.Explains.{Breaks, At, IsNegative, IsMalformed, bytes_of}
use sukkula.Offer.Promises.{IsOffer, validate-IsOffer}
use sukkula.Offer.Refusals.{validate-Breaks, validate-accepts}

abbrev pub photo : RawFile
photo = record {
  name = codes "../photo.jpg";
  size = pos 1000;
  mime = some (codes "Image/JPEG; q=1");
  sha256 = none;
}

abbrev pub offering : List RawFile → RawOffer
offering fs = record {
  protocol = Protocol.local_send;
  sender = codes " Phone ";
  model = none;
  files = fs;
  text = none;
  pin = none;
}

abbrev pub photo_offer : Offer
photo_offer = record {
  protocol = Protocol.local_send;
  sender = codes "Phone";
  model = none;
  files =
      record {
        name = codes "photo.jpg";
        size = 1000;
        mime = some (codes "image/jpeg");
        sha256 = none;
      }
      ∷ [];
  total_bytes = 1000;
  text = none;
  pin = none;
}

pub photo_offer_checked : validate (offering (photo ∷ [])) ≡ ok photo_offer
unfolding validate sukkula.Text.display sukkula.Name.sanitize sukkula.Offer.Mime.clean_mime
    sukkula.Text.classify sukkula.Base.len_utf8 sukkula.Base.as_bytes
photo_offer_checked = refl

abbrev pub bad_file : RawFile
bad_file = record photo { size = negsuc 0 }

pub bad_offer_refused :
    validate (offering (photo ∷ bad_file ∷ [])) ≡ err (OfferError.negative_size 1)
unfolding validate
bad_offer_refused = refl

validate-IsOffer_example : IsOffer (offering (photo ∷ [])) photo_offer
validate-IsOffer_example = validate-IsOffer (offering (photo ∷ [])) photo_offer photo_offer_checked

validate-Breaks_example : Breaks (offering (photo ∷ bad_file ∷ [])) (OfferError.negative_size 1)
validate-Breaks_example =
    validate-Breaks (offering (photo ∷ bad_file ∷ [])) (OfferError.negative_size 1)
      bad_offer_refused

-- A blank digest is none.
abbrev blank_photo : RawFile
blank_photo = record photo { sha256 = some (codes " ") }

blank_digest : is_empty (trim (codes " ")) ≡ true
unfolding sukkula.Base.trim_end_matches sukkula.Base.trim_start_matches
blank_digest = refl

only_photo : (j : ℕ) (P : RawFile → Type 0) → At 0 (blank_photo ∷ []) j P → P blank_photo
only_photo j P (zero, f, e, g, p) = subst P (some-injective (sym g)) p
  where
    some-injective : {a b : RawFile} → ◌≡◌ {A = Option RawFile} (some a) (some b) → a ≡ b
    some-injective {a} h = ap (λ o. elim o [ some x ↦ x | none ↦ a ]) h
only_photo j P (suc k, f, e, g, p) = ground arith

no_break : (e : OfferError) → ¬ Breaks (offering (blank_photo ∷ [])) e
no_break OfferError.empty b = ground (arith, b.0)
no_break OfferError.offer_too_large b = omega (arith, b)
no_break OfferError.text_too_large b = ground (arith, b.1)
no_break OfferError.bad_pin b = ground (arith, b.1)
no_break (OfferError.too_many_files n) b = omega (arith, b.1)
no_break (OfferError.negative_size j) b = only_photo j (λ f. IsNegative f.size) b
no_break (OfferError.file_too_large j) b =
    omega (arith, only_photo j (λ f. max_file_bytes < bytes_of f.size) b)
no_break (OfferError.bad_digest j) b =
    let e : true ≡ false = sym blank_digest ∙ (only_photo j (λ f. IsMalformed f.sha256) b).0 in
    ground (arith, e)

validate-accepts_example :
    (o : Offer) × (validate (offering (blank_photo ∷ [])) ≡ ok o)
    × IsOffer (offering (blank_photo ∷ [])) o
validate-accepts_example = validate-accepts (offering (blank_photo ∷ [])) no_break
