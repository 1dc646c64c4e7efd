-- ===== src/Offer/Files.antt =====
-- The loop over the files of `Offer::validate` of offer.rs, when it ends well.
use sukkula.Base.{
  ℕ, ◌+◌, ◌≤◌, ◌^◌, ◌≡◌, refl, ◌∙◌, Bool, true, false, Option, none, some, List, [], ◌∷◌, ltb, leb,
  if◌then◌else◌, is_empty, Str, trim, arith,
}
use sukkula.Base.Ints.{ℤ, pos, negsuc}
use sukkula.Base.Outcome.{Result, ok, ok-bind, ok-injective}
use mathlib.Core.Path.{subst}
use sukkula.Limits.{max_file_bytes, max_offer_bytes}
use sukkula.Hex.{decode_32}
use sukkula.Hex.RoundTrip.{IsDigest, decode_32-IsDigest}
use sukkula.Name.{sanitize}
use sukkula.Offer.{
  RawFile, OfferFile, OfferError, refuse_if, check_size, check_total, check_digest, digest_or,
  check_file, check_files, and_then,
}
use sukkula.Offer.Mime.{clean_mime}

pub ok-refuse_if {ℓ} :
    {A : Type ℓ} (broken : Bool) (e : OfferError) (rest : Result OfferError A) {a : A}
    → refuse_if broken e rest ≡ ok a
    → (broken ≡ false) × (rest ≡ ok a)
ok-refuse_if true e rest h = ground arith
ok-refuse_if false e rest h = (refl, h)

-- The digest that a file ends up with, for the text that was declared.
abbrev pub IsDigestOf : Option Str → Option (List ℕ) → Type 0
IsDigestOf none d = d ≡ none
IsDigestOf (some h) none = is_empty (trim h) ≡ true
IsDigestOf (some h) (some d) = IsDigest (trim h) d

-- A checked file says what the raw one said, within the limits.
pub record IsChecked (f : RawFile) (o : OfferFile) : Type 0 where
  pub name_kept : o.name ≡ sanitize f.name
  pub size_kept : f.size ≡ pos o.size
  pub within : o.size ≤ max_file_bytes
  pub digest_kept : IsDigestOf f.sha256 o.sha256
  pub mime_kept : o.mime ≡ and_then f.mime clean_mime

abbrev pub AllChecked : List RawFile → List OfferFile → Type 0
AllChecked [] [] = Unit
AllChecked [] (o ∷ os) = ⊥
AllChecked (f ∷ fs) [] = ⊥
AllChecked (f ∷ fs) (o ∷ os) = IsChecked f o × AllChecked fs os

abbrev pub sum_sizes : List OfferFile → ℕ
sum_sizes [] = 0
sum_sizes (o ∷ os) = o.size + sum_sizes os

pub check_size-ok :
    (i : ℕ) (z : ℤ) (n : ℕ) → check_size i z ≡ ok n → (z ≡ pos n) × (n ≤ max_file_bytes)
unfolding check_size
check_size-ok i (negsuc m) n h = ground arith
check_size-ok i (pos m) n h =
    let (p, r) = ok-refuse_if (leb (2 ^ 64) m) (OfferError.file_too_large i) _ h in
    let (q, s) = ok-refuse_if (ltb max_file_bytes m) (OfferError.file_too_large i) _ r in
    (ground (arith, s), ground (arith, s, q))

pub check_total-ok :
    (total size n : ℕ) → check_total total size ≡ ok n → (n ≡ total + size) × (n ≤ max_offer_bytes)
unfolding check_total
check_total-ok total size n h =
    let (p, r) = ok-refuse_if (leb (2 ^ 64) (total + size)) OfferError.offer_too_large _ h in
    let (q, s) = ok-refuse_if (ltb max_offer_bytes (total + size)) OfferError.offer_too_large _ r in
    (ground (arith, s), ground (arith, s, q))

digest_read :
    (i : ℕ) (h : Str) (o : Option (List ℕ)) (d : Option (List ℕ))
    → decode_32 (trim h) ≡ o
    → digest_or i o ≡ ok d
    → IsDigestOf (some h) d
unfolding digest_or
digest_read i h none d e r = ground arith
digest_read i h (some x) (some y) e r = decode_32-IsDigest (trim h) y (e ∙ ground arith)
digest_read i h (some x) none e r = ground arith

pub check_digest-ok :
    (i : ℕ) (o : Option Str) (d : Option (List ℕ)) → check_digest i o ≡ ok d → IsDigestOf o d
unfolding check_digest
check_digest-ok i none d h = ground arith
check_digest-ok i (some x) d h = go (is_empty (trim x)) refl h
  where
    go :
        (b : Bool)
        → is_empty (trim x) ≡ b
        → (if b then ok none else digest_or i (decode_32 (trim x))) ≡ ok d
        → IsDigestOf (some x) d
    go true e r = blank d (ground arith)
      where
        blank : (k : Option (List ℕ)) → k ≡ none → IsDigestOf (some x) k
        blank none q = e
        blank (some k) q = ground arith
    go false e r = digest_read i x (decode_32 (trim x)) d refl r

-- What one turn of the loop promises.
pub record IsTurn (f : RawFile) (total sum : ℕ) (o : OfferFile) : Type 0 where
  pub checked : IsChecked f o
  pub sum_kept : sum ≡ total + o.size
  pub within : sum ≤ max_offer_bytes

pub check_file-ok :
    (i total : ℕ) (f : RawFile) (sum : ℕ) (o : OfferFile)
    → check_file i total f ≡ ok (sum, o)
    → IsTurn f total sum o
unfolding check_file
check_file-ok i total f sum o h =
    let (size, a, r) = ok-bind (check_size i f.size) _ h in
    let (total', b, s) = ok-bind (check_total total size) _ r in
    let (sha256, c, t) = ok-bind (check_digest i f.sha256) _ s in
    let (z, m) = check_size-ok i f.size size a in
    let (u, v) = check_total-ok total size total' b in
    let x : IsTurn f total total' (record {
      name = sanitize f.name;
      size = size;
      mime = and_then f.mime clean_mime;
      sha256 = sha256;
    }) =
      record {
        checked = record {
          name_kept = refl;
          size_kept = z;
          within = m;
          digest_kept = check_digest-ok i f.sha256 sha256 c;
          mime_kept = refl;
        };
        sum_kept = u;
        within = v;
      } in
    subst (λ (p : ℕ × OfferFile). IsTurn f total p.0 p.1) (ok-injective t) x

-- What the loop promises.
pub record AreChecked (fs : List RawFile) (total sum : ℕ) (os : List OfferFile) : Type 0 where
  pub checked : AllChecked fs os
  pub sum_kept : sum ≡ total + sum_sizes os
  pub within : sum ≤ max_offer_bytes

AreChecked-cons :
    (f : RawFile) (fs : List RawFile) (total mid sum : ℕ) (o : OfferFile) (os : List OfferFile)
    → IsTurn f total mid o
    → AreChecked fs mid sum os
    → AreChecked (f ∷ fs) total sum (o ∷ os)
AreChecked-cons f fs total mid sum o os v w = record {
  checked = (v.checked, w.checked);
  sum_kept = omega (arith, v.sum_kept, w.sum_kept);
  within = w.within;
}

pub check_files-ok :
    (fs : List RawFile) (i total sum : ℕ) (os : List OfferFile)
    → total ≤ max_offer_bytes
    → check_files i total fs ≡ ok (sum, os)
    → AreChecked fs total sum os
unfolding check_files
check_files-ok [] i total sum os k h =
    subst (λ (p : ℕ × List OfferFile). AreChecked [] total p.0 p.1) (ok-injective h)
      (record { checked = tt; sum_kept = omega arith; within = k })
check_files-ok (f ∷ fs) i total sum os k h =
    let ((mid, o), a, r) = ok-bind (check_file i total f) _ h in
    let ((end, rest), b, s) = ok-bind (check_files (i + 1) mid fs) _ r in
    let v = check_file-ok i total f mid o a in
    let w = check_files-ok fs (i + 1) mid end rest v.within b in
    subst (λ (p : ℕ × List OfferFile). AreChecked (f ∷ fs) total p.0 p.1) (ok-injective s)
      (AreChecked-cons f fs total mid end o rest v w)
