-- ===== src/Offer/Explains.antt =====
-- Why `Offer::validate` of offer.rs refuses an offer.
use mathlib.Core.Path.{subst}
use sukkula.Base.{
  ℕ, suc, ◌+◌, ◌<◌, ◌^◌, ◌≡◌, ◌⊎◌, refl, sym, ap, Bool, true, false, Option, none, some, List, [],
  ◌∷◌, ltb, leb, if◌then◌else◌, length, is_empty, Str, byte_len, trim, arith, inl, inr, tests,
  get_elem?,
}
use sukkula.Base.Ints.{ℤ, pos, negsuc}
use sukkula.Base.Outcome.{Result, ok, err, err-bind, err-injective}
use sukkula.Limits.{max_file_bytes, max_offer_bytes, max_files_per_offer, max_message_bytes}
use sukkula.Hex.{decode_32}
use sukkula.Text.Message.{message}
use sukkula.Offer.{
  RawFile, RawOffer, OfferFile, OfferError, refuse_if, check_size, check_total, check_digest,
  digest_or, check_file, check_files, is_pin, shown, is_none,
}
use sukkula.Offer.Files.{check_size-ok, check_file-ok}

pub err-refuse_if {ℓ} :
    {A : Type ℓ} (broken : Bool) (x e : OfferError) (rest : Result OfferError A)
    → refuse_if broken x rest ≡ err e
    → ((broken ≡ true) × (x ≡ e)) ⊎ ((broken ≡ false) × (rest ≡ err e))
err-refuse_if true x e rest h = inl (refl, ground arith)
err-refuse_if false x e rest h = inr (refl, h)

-- The bytes that a raw size stands for.
abbrev pub bytes_of : ℤ → ℕ
bytes_of (pos n) = n
bytes_of (negsuc n) = 0

abbrev pub declared : List RawFile → ℕ
declared [] = 0
declared (f ∷ fs) = bytes_of f.size + declared fs

abbrev pub IsNegative : ℤ → Type 0
IsNegative (pos n) = ⊥
IsNegative (negsuc n) = Unit

-- A digest that is not blank and not 64 digits of base 16.
abbrev pub IsMalformed : Option Str → Type 0
IsMalformed none = ⊥
IsMalformed (some h) = (is_empty (trim h) ≡ false) × (decode_32 (trim h) ≡ none)

-- The file number `j`, counted from `start`, is one for which `P` holds.
abbrev pub At : ℕ → List RawFile → ℕ → (RawFile → Type 0) → Type 0
At start fs j P = (k : ℕ) × (f : RawFile) × (j ≡ start + k) × (get_elem? fs k ≡ some f) × P f

-- The rule about files that an error names is broken by the files.
abbrev pub FilesBreak : ℕ → ℕ → List RawFile → OfferError → Type 0
FilesBreak start total fs (OfferError.negative_size j) = At start fs j (λ f. IsNegative f.size)
FilesBreak start total fs (OfferError.file_too_large j) =
    At start fs j (λ f. max_file_bytes < bytes_of f.size)
FilesBreak start total fs (OfferError.bad_digest j) = At start fs j (λ f. IsMalformed f.sha256)
FilesBreak start total fs OfferError.offer_too_large = max_offer_bytes < total + declared fs
FilesBreak start total fs _ = ⊥

At-cons :
    (start : ℕ) (x : RawFile) (fs : List RawFile) (j : ℕ) (P : RawFile → Type 0)
    → At (start + 1) fs j P
    → At start (x ∷ fs) j P
At-cons start x fs j P (k, f, e, g, p) = (suc k, f, omega arith, g, p)

At-first :
    (start : ℕ) (x : RawFile) (fs : List RawFile) (P : RawFile → Type 0)
    → P x
    → At start (x ∷ fs) start P
At-first start x fs P p = (0, x, omega arith, refl, p)

FilesBreak-cons :
    (start total mid : ℕ) (x : RawFile) (fs : List RawFile) (e : OfferError)
    → mid ≡ total + bytes_of x.size
    → FilesBreak (start + 1) mid fs e
    → FilesBreak start total (x ∷ fs) e
FilesBreak-cons start total mid x fs OfferError.empty m b = b
FilesBreak-cons start total mid x fs OfferError.offer_too_large m b = omega arith
FilesBreak-cons start total mid x fs OfferError.text_too_large m b = b
FilesBreak-cons start total mid x fs OfferError.bad_pin m b = b
FilesBreak-cons start total mid x fs (OfferError.too_many_files n) m b = b
FilesBreak-cons start total mid x fs (OfferError.negative_size j) m b = At-cons start x fs j _ b
FilesBreak-cons start total mid x fs (OfferError.file_too_large j) m b = At-cons start x fs j _ b
FilesBreak-cons start total mid x fs (OfferError.bad_digest j) m b = At-cons start x fs j _ b

size_breaks :
    (start total : ℕ) (x : RawFile) (fs : List RawFile) (e : OfferError) (z : ℤ)
    → x.size ≡ z
    → check_size start z ≡ err e
    → FilesBreak start total (x ∷ fs) e
unfolding check_size
size_breaks start total x fs e (negsuc n) s h =
    subst (FilesBreak start total (x ∷ fs)) (err-injective h)
      (At-first start x fs (λ f. IsNegative f.size) (rw s tt))
size_breaks start total x fs e (pos n) s h =
    let too_large : max_file_bytes < n
        → FilesBreak start total (x ∷ fs) (OfferError.file_too_large start) =
      λ l. At-first start x fs (λ f. max_file_bytes < bytes_of f.size) (rw s l) in
    elim (err-refuse_if (leb (2 ^ 64) n) (OfferError.file_too_large start) e _ h) [
      | inl (b, q) ↦ subst (FilesBreak start total (x ∷ fs)) q (too_large (omega tests))
      | inr (b, r) ↦
          elim (err-refuse_if (ltb max_file_bytes n) (OfferError.file_too_large start) e _ r) [
            | inl (c, q) ↦ subst (FilesBreak start total (x ∷ fs)) q (too_large (omega tests))
            | inr (c, q) ↦ ground arith
          ]
    ]

total_breaks :
    (total size : ℕ) (e : OfferError)
    → check_total total size ≡ err e
    → (e ≡ OfferError.offer_too_large) × (max_offer_bytes < total + size)
unfolding check_total
total_breaks total size e h =
    elim (err-refuse_if (leb (2 ^ 64) (total + size)) OfferError.offer_too_large e _ h) [
      | inl (b, q) ↦ (sym q, omega tests)
      | inr (b, r) ↦
          elim (err-refuse_if (ltb max_offer_bytes (total + size)) OfferError.offer_too_large e _
            r) [ inl (c, q) ↦ (sym q, omega tests) | inr (c, q) ↦ ground arith ]
    ]

digest_breaks :
    (i : ℕ) (o : Option Str) (e : OfferError)
    → check_digest i o ≡ err e
    → (e ≡ OfferError.bad_digest i) × IsMalformed o
unfolding check_digest digest_or
digest_breaks i none e h = ground arith
digest_breaks i (some x) e h = go (is_empty (trim x)) (decode_32 (trim x)) refl refl h
  where
    go :
        (b : Bool) (d : Option (List ℕ))
        → is_empty (trim x) ≡ b
        → decode_32 (trim x) ≡ d
        → (if b then ok none else digest_or i d) ≡ err e
        → (e ≡ OfferError.bad_digest i) × IsMalformed (some x)
    go true d p q r = ground arith
    go false none p q r = (ground arith, (p, q))
    go false (some k) p q r = ground arith

-- One turn of the loop fails because of its file.
check_file-err :
    (start total : ℕ) (x : RawFile) (fs : List RawFile) (e : OfferError)
    → check_file start total x ≡ err e
    → FilesBreak start total (x ∷ fs) e
unfolding check_file
check_file-err start total x fs e h = elim (err-bind (check_size start x.size) _ h) [
  | inl a ↦ size_breaks start total x fs e x.size refl a
  | inr (size, a, r) ↦ elim (err-bind (check_total total size) _ r) [
    | inl b ↦
        let (q, l) = total_breaks total size e b in
        let (z, m) = check_size-ok start x.size size a in
        let y : bytes_of x.size ≡ size = ap bytes_of z in
        subst (FilesBreak start total (x ∷ fs)) (sym q) (omega (arith, y, l))
    | inr (total', b, s) ↦ elim (err-bind (check_digest start x.sha256) _ s) [
      | inl c ↦
          let (q, l) = digest_breaks start x.sha256 e c in
          subst (FilesBreak start total (x ∷ fs)) (sym q)
            (At-first start x fs (λ f. IsMalformed f.sha256) l)
      | inr (d, c, t) ↦ ground arith
    ]
  ]
]

mid_total :
    (start total : ℕ) (x : RawFile) (mid : ℕ) (o : OfferFile)
    → check_file start total x ≡ ok (mid, o)
    → mid ≡ total + bytes_of x.size
mid_total start total x mid o h =
    let v = check_file-ok start total x mid o h in
    let y : bytes_of x.size ≡ o.size = ap bytes_of v.checked.size_kept in
    omega (arith, y, v.sum_kept)

pub check_files-err :
    (fs : List RawFile) (start total : ℕ) (e : OfferError)
    → check_files start total fs ≡ err e
    → FilesBreak start total fs e
unfolding check_files
check_files-err [] start total e h = ground arith
check_files-err (x ∷ fs) start total e h = elim (err-bind (check_file start total x) _ h) [
  | inl a ↦ check_file-err start total x fs e a
  | inr ((mid, o), a, r) ↦ elim (err-bind (check_files (start + 1) mid fs) _ r) [
    | inl b ↦
        FilesBreak-cons start total mid x fs e (mid_total start total x mid o a)
          (check_files-err fs (start + 1) mid e b)
    | inr (p, b, s) ↦ ground arith
  ]
]

-- The rule that an error names is broken by the offer.
abbrev pub Breaks : RawOffer → OfferError → Type 0
Breaks raw OfferError.empty = (raw.files ≡ []) × (is_none (shown message raw.text) ≡ true)
Breaks raw (OfferError.too_many_files n) =
    (n ≡ length raw.files) × (max_files_per_offer < length raw.files)
Breaks raw OfferError.text_too_large =
    (t : Str) × (raw.text ≡ some t) × (max_message_bytes < byte_len t)
Breaks raw OfferError.bad_pin = (p : Str) × (raw.pin ≡ some p) × (is_pin p ≡ false)
Breaks raw e = FilesBreak 0 0 raw.files e
