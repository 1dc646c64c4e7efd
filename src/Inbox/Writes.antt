-- ===== src/Inbox/Writes.antt =====
-- What a sequence of calls of `write` of inbox.rs leaves in the staging file.
use mathlib.Core.Path.{subst}
use mathlib.Core.List.{append_assoc, append-nil}
use sukkula.Base.{
  ℕ, ◌+◌, ◌≤◌, ◌^◌, ◌≡◌, ◌⊎◌, refl, sym, ap, ◌∙◌, Bool, true, false, ◌||◌, List, [], ◌∷◌, ◌++◌,
  arith, ltb, leb, if◌then◌else◌, length, length-append, Bool-cases, inl, inr,
}
use sukkula.Base.Outcome.{Result, err}
use sukkula.Inbox.{Done, Incoming, InboxError, WriteAll, complete, stopped, write_all, write}

abbrev pub write_run : Incoming → List (List ℕ × WriteAll) → Incoming
write_run s [] = s
write_run s ((chunk, w) ∷ calls) = write_run ((write s chunk w).0) calls

-- The bytes of all the chunks.
abbrev pub bytes : List (List ℕ × WriteAll) → List ℕ
bytes [] = []
bytes ((chunk, w) ∷ calls) = chunk ++ bytes calls

write-failed :
    (s : Incoming) (chunk : List ℕ) (w : WriteAll) → s.is_failed ≡ true → (write s chunk w).0 ≡ s
unfolding write
write-failed s chunk w h = rw h refl

write_run-failed :
    (calls : List (List ℕ × WriteAll)) (s : Incoming) → s.is_failed ≡ true → write_run s calls ≡ s
write_run-failed [] s h = refl
write_run-failed ((chunk, w) ∷ calls) s h =
    ap (λ t. write_run t calls) (write-failed s chunk w h) ∙ write_run-failed calls s h

-- What one call of `write` does to a file that is not spoiled.
abbrev Written : Incoming → List ℕ → Incoming → Type 0
Written s chunk t =
    (t.is_failed ≡ true)
    ⊎ (t ≡ record s {
      written = s.written + length chunk;
      disk = s.disk ++ chunk;
      hashed = s.hashed ++ chunk;
    })
      × (s.written + length chunk ≤ s.declared)

write_all-Written :
    (s : Incoming) (chunk : List ℕ) (w : WriteAll)
    → s.written + length chunk ≤ s.declared
    → Written s chunk ((write_all s chunk w).0)
unfolding write_all
write_all-Written s chunk complete h = inr (refl, h)
write_all-Written s chunk (stopped n) h = inl refl

pub else_of {ℓ} : {A : Type ℓ} (b : Bool) (x y : A) → b ≡ false → (if b then x else y) ≡ y
else_of true x y h = ground arith
else_of false x y h = refl

unfoldable pub write_open : Incoming → List ℕ → WriteAll → Incoming × Result InboxError Done
write_open s chunk w =
    if leb (2 ^ 64) (s.written + length chunk) || ltb s.declared (s.written + length chunk)
    then (record s { is_failed = true }, err InboxError.overflow)
    else write_all s chunk w

pub write-open :
    (s : Incoming) (chunk : List ℕ) (w : WriteAll)
    → s.is_failed ≡ false
    → write s chunk w ≡ write_open s chunk w
unfolding write write_open
write-open s chunk w h = else_of s.is_failed _ _ h

write_open-Written :
    (s : Incoming) (chunk : List ℕ) (w : WriteAll) → Written s chunk ((write_open s chunk w).0)
unfolding write_open
write_open-Written s chunk w =
    elim (Bool-cases
      (leb (2 ^ 64) (s.written + length chunk) || ltb s.declared (s.written + length chunk))) [
        | inl e ↦ rw e (inl refl)
        | inr e ↦ rw e (write_all-Written s chunk w (ground arith))
      ]

write-Written :
    (s : Incoming) (chunk : List ℕ) (w : WriteAll)
    → s.is_failed ≡ false
    → Written s chunk ((write s chunk w).0)
write-Written s chunk w h =
    subst (λ r. Written s chunk (r.0)) (sym (write-open s chunk w h)) (write_open-Written s chunk w)

-- What an unspoiled file is after some calls of `write`.
pub record IsWritten (s t : Incoming) (added : List ℕ) : Type 0 where
  pub disk_is : t.disk ≡ s.disk ++ added
  pub hashed_is : t.hashed ≡ s.hashed ++ added
  pub written_is : t.written ≡ s.written + length added
  pub name_is : t.name ≡ s.name
  pub declared_is : t.declared ≡ s.declared
  pub expected_is : t.expected ≡ s.expected

pub write_run-IsWritten :
    (calls : List (List ℕ × WriteAll)) (s : Incoming)
    → s.is_failed ≡ false
    → (write_run s calls).is_failed ≡ false
    → IsWritten s (write_run s calls) (bytes calls)
write_run-IsWritten [] s h k = record {
  disk_is = sym (append-nil s.disk);
  hashed_is = sym (append-nil s.hashed);
  written_is = omega arith;
  name_is = refl;
  declared_is = refl;
  expected_is = refl;
}
write_run-IsWritten ((chunk, w) ∷ calls) s h k =
    go ((write s chunk w).0) (write-Written s chunk w h) k (λ t. write_run-IsWritten calls t)
  where
    go :
        (t : Incoming)
        → Written s chunk t
        → (write_run t calls).is_failed ≡ false
        → ((u : Incoming)
            → u.is_failed ≡ false
            → (write_run u calls).is_failed ≡ false
            → IsWritten u (write_run u calls) (bytes calls))
        → IsWritten s (write_run t calls) (chunk ++ bytes calls)
    go t (inl f) k ih =
        let e : t.is_failed ≡ false =
          subst (λ u. u.is_failed ≡ false) (write_run-failed calls t f) k in
        ground (arith, e, f)
    go t (inr (e, b)) k ih =
        let f : t.is_failed ≡ false = ap (λ u. u.is_failed) e ∙ h in
        let v = ih t f k in
        let d : t.disk ≡ s.disk ++ chunk = ap (λ u. u.disk) e in
        let q : t.hashed ≡ s.hashed ++ chunk = ap (λ u. u.hashed) e in
        let n : t.written ≡ s.written + length chunk = ap (λ u. u.written) e in
        record {
          disk_is =
              v.disk_is ∙ ap (λ x. x ++ bytes calls) d ∙ append_assoc s.disk chunk (bytes calls);
          hashed_is =
              v.hashed_is
              ∙ ap (λ x. x ++ bytes calls) q
              ∙ append_assoc s.hashed chunk (bytes calls);
          written_is = omega (arith, v.written_is, n, length-append chunk (bytes calls));
          name_is = v.name_is ∙ ap (λ u. u.name) e;
          declared_is = v.declared_is ∙ ap (λ u. u.declared) e;
          expected_is = v.expected_is ∙ ap (λ u. u.expected) e;
        }
