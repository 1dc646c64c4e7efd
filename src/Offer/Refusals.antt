-- ===== src/Offer/Refusals.antt =====
-- `Offer::validate` of offer.rs refuses an offer only for a rule that the offer breaks.
use mathlib.Core.Path.{subst}
use sukkula.Base.{
  ℕ, zero, suc, ◌+◌, ◌≤◌, ◌<◌, ◌≡◌, ◌⊎◌, refl, sym, ap, ◌∙◌, Bool, true, false, not, ◌&&◌, Option,
  none, some, List, [], ◌∷◌, ltb, leb, if◌then◌else◌, length, is_empty, Str, byte_len, arith, inl,
  inr, tests,
}
use sukkula.Base.Outcome.{Result, ok, err, ◌>>=◌, err-bind}
use sukkula.Limits.{max_files_per_offer, max_message_bytes}
use sukkula.Text.Message.{message}
use sukkula.Offer.{
  RawFile, RawOffer, Offer, OfferFile, OfferError, check_files, is_pin, check_pin, shown, is_none,
  is_blank, is_oversized, build, validate,
}
use sukkula.Offer.Files.{AllChecked, check_files-ok}
use sukkula.Offer.Explains.{err-refuse_if, FilesBreak, check_files-err, Breaks}
use sukkula.Offer.Promises.{IsOffer, validate-IsOffer}

FilesBreak-Breaks : (raw : RawOffer) (e : OfferError) → FilesBreak 0 0 raw.files e → Breaks raw e
FilesBreak-Breaks raw OfferError.empty b = absurd b
FilesBreak-Breaks raw OfferError.offer_too_large b = b
FilesBreak-Breaks raw OfferError.text_too_large b = absurd b
FilesBreak-Breaks raw OfferError.bad_pin b = absurd b
FilesBreak-Breaks raw (OfferError.too_many_files n) b = absurd b
FilesBreak-Breaks raw (OfferError.negative_size j) b = b
FilesBreak-Breaks raw (OfferError.file_too_large j) b = b
FilesBreak-Breaks raw (OfferError.bad_digest j) b = b

no_files : (fs : List RawFile) → is_empty fs ≡ true → fs ≡ []
no_files [] h = refl
no_files (f ∷ fs) h = ground arith

no_checked_files :
    (fs : List RawFile) (os : List OfferFile) → AllChecked fs os → is_empty os ≡ true → fs ≡ []
no_checked_files [] os v h = refl
no_checked_files (f ∷ fs) [] v h = absurd v
no_checked_files (f ∷ fs) (o ∷ os) v h = ground arith

blank_message : (t : Option Str) → is_blank t ≡ true → is_none (shown message t) ≡ true
unfolding message sukkula.Base.trim_end_matches
blank_message none h = refl
blank_message (some []) h = refl
blank_message (some (c ∷ cs)) h = ground arith

oversized :
    (t : Option Str)
    → is_oversized t ≡ true
    → (s : Str) × (t ≡ some s) × (max_message_bytes < byte_len s)
oversized none h = ground arith
oversized (some s) h = (s, refl, omega tests)

bad_pin_of :
    (o : Option Str) (e : OfferError)
    → check_pin o ≡ err e
    → (e ≡ OfferError.bad_pin) × (p : Str) × (o ≡ some p) × (is_pin p ≡ false)
unfolding check_pin
bad_pin_of none e h = ground arith
bad_pin_of (some p) e h = elim (err-refuse_if (not (is_pin p)) OfferError.bad_pin e _ h) [
  | inl (b, q) ↦ (sym q, p, refl, negated (is_pin p) b)
  | inr (b, q) ↦ ground arith
]
  where
    negated : (b : Bool) → not b ≡ true → b ≡ false
    negated true r = ground arith
    negated false r = refl

build-err :
    (raw : RawOffer) (total : ℕ) (files : List OfferFile) (pin : Option Str) (e : OfferError)
    → AllChecked raw.files files
    → build raw total files pin ≡ err e
    → Breaks raw e
unfolding build
build-err raw total files pin e v h =
    elim (err-refuse_if (is_empty files && is_none (shown message raw.text)) OfferError.empty e _
      h) [
        | inl (b, q) ↦
            subst (Breaks raw) q (no_checked_files raw.files files v (ground arith), ground arith)
        | inr (b, q) ↦ ground arith
      ]

contents-err :
    (raw : RawOffer) (e : OfferError)
    → (do
      (total, files) ← check_files 0 0 raw.files
      pin ← check_pin raw.pin
      build raw total files pin)
      ≡ err e
    → Breaks raw e
contents-err raw e h = elim (err-bind (check_files 0 0 raw.files) _ h) [
  | inl a ↦ FilesBreak-Breaks raw e (check_files-err raw.files 0 0 e a)
  | inr ((total, files), a, r) ↦ elim (err-bind (check_pin raw.pin) _ r) [
    | inl b ↦ let (q, p, x, y) = bad_pin_of raw.pin e b in subst (Breaks raw) (sym q) (p, x, y)
    | inr (pin, b, s) ↦
        build-err raw total files pin e
          (check_files-ok raw.files 0 0 total files (omega arith) a).checked s
  ]
]

-- Whatever a peer sends, a refused offer breaks the rule that the error names: a negative, too large
-- or malformed file stands at the index given, the declared sizes add up to more than 16 GiB, there
-- are more than 500 files and as many as the error says, the message is longer than 64 KiB, the PIN
-- is none of 1 to 16 digits, or there is neither a file nor anything of the message to show.
pub validate-Breaks : (raw : RawOffer) (e : OfferError) → validate raw ≡ err e → Breaks raw e
unfolding validate
validate-Breaks raw e h =
    elim (err-refuse_if (is_empty raw.files && is_blank raw.text) OfferError.empty e _ h) [
      | inl (a, q) ↦
          subst (Breaks raw) q
            (no_files raw.files (ground arith), blank_message raw.text (ground arith))
      | inr (a, r) ↦
          elim (err-refuse_if (ltb max_files_per_offer (length raw.files))
            (OfferError.too_many_files (length raw.files)) e _ r) [
              | inl (b, q) ↦ subst (Breaks raw) q (refl, omega tests)
              | inr (b, s) ↦
                  elim (err-refuse_if (is_oversized raw.text) OfferError.text_too_large e _ s) [
                    | inl (c, q) ↦ subst (Breaks raw) q (oversized raw.text c)
                    | inr (c, t) ↦ contents-err raw e t
                  ]
            ]
    ]

-- An offer that breaks no rule is let through, as an offer that keeps all the limits.
pub validate-accepts :
    (raw : RawOffer)
    → ((e : OfferError) → ¬ Breaks raw e)
    → (o : Offer) × (validate raw ≡ ok o) × IsOffer raw o
validate-accepts raw h = go (validate raw) refl
  where
    go :
        (r : Result OfferError Offer)
        → validate raw ≡ r
        → (o : Offer) × (validate raw ≡ ok o) × IsOffer raw o
    go (ok o) q = (o, q, validate-IsOffer raw o q)
    go (err e) q = absurd (h e (validate-Breaks raw e q))
