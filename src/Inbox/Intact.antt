-- ===== src/Inbox/Intact.antt =====
-- That inbox.rs saves a file which arrives whole.
use mathlib.Core.Path.{subst}
use sukkula.Base.{
  ℕ, zero, suc, ◌+◌, ◌≤◌, ◌<◌, ◌^◌, ◌≡◌, refl, sym, ap, ◌∙◌, Bool, true, false, not, ◌||◌, Option,
  List, [], ◌∷◌, ◌++◌, arith, ltb, leb, ◌==◌, ==_iff, length, length-append, Str,
}
use sukkula.Base.Outcome.{Result, ok, err}
use sukkula.Limits.{max_file_bytes}
use sukkula.Name.Numbered.{numbered}
use sukkula.Inbox.{
  Incoming, InboxError, Opening, Saved, Placing, placed, taken, broken, WriteAll, complete, begin,
  write, write_all, commit, place_first, saved_as, is_match, max_name_attempts,
}
use sukkula.Inbox.Writes.{write_run, bytes, else_of, write-open, write_open, write_run-IsWritten}
use sukkula.Inbox.Promises.{started}

-- Every chunk is written in full.
abbrev pub in_full : List (List ℕ) → List (List ℕ × WriteAll)
in_full [] = []
in_full (c ∷ cs) = (c, complete) ∷ in_full cs

write-complete :
    (s : Incoming) (chunk : List ℕ)
    → s.is_failed ≡ false
    → s.written + length chunk ≤ s.declared
    → s.declared < 2 ^ 64
    → (write s chunk complete).0 ≡ record s {
      written = s.written + length chunk;
      disk = s.disk ++ chunk;
      hashed = s.hashed ++ chunk;
    }
unfolding write_open write_all
write-complete s chunk h b m =
    let e : (leb (2 ^ 64) (s.written + length chunk) || ltb s.declared (s.written + length chunk))
        ≡ false =
      ground arith in
    ap (λ r. r.0) (write-open s chunk complete h ∙ else_of _ _ _ e)

write_run-in_full :
    (chunks : List (List ℕ)) (s : Incoming)
    → s.is_failed ≡ false
    → s.written + length (bytes (in_full chunks)) ≤ s.declared
    → s.declared < 2 ^ 64
    → (write_run s (in_full chunks)).is_failed ≡ false
write_run-in_full [] s h b m = h
write_run-in_full (c ∷ cs) s h b m =
    let l = length-append c (bytes (in_full cs)) in
    subst (λ t. (write_run t (in_full cs)).is_failed ≡ false)
      (sym (write-complete s c h (omega (arith, b, l)) m))
      (write_run-in_full cs
        (record s { written = s.written + length c; disk = s.disk ++ c; hashed = s.hashed ++ c }) h
        (omega (arith, b, l)) m)

-- A free name that only taken ones precede is the one that is found.
place_first-free :
    (place : Str → Placing) (name : Str) (fuel start k : ℕ)
    → k < fuel
    → place (numbered name (start + k)) ≡ placed
    → ((j : ℕ) → j < k → place (numbered name (start + j)) ≡ taken)
    → place_first place name fuel start ≡ ok (numbered name (start + k))
unfolding place_first
place_first-free place name zero start k h p t = absurd (omega (arith, h))
place_first-free place name (suc fuel) start zero h p t =
    let e : start + 0 ≡ start = omega arith in
    subst
      (λ q.
        elim q [
          | placed ↦ ok (numbered name start)
          | taken ↦ place_first place name fuel (start + 1)
          | broken ↦ err InboxError.io
        ]
        ≡ ok (numbered name (start + 0)))
      (sym (ap (λ n. place (numbered name n)) (sym e) ∙ p)) (ap (λ n. ok (numbered name n)) (sym e))
place_first-free place name (suc fuel) start (suc k) h p t =
    let e : start + 0 ≡ start = omega arith in
    let next : (j : ℕ) → start + 1 + j ≡ start + suc j = λ j. omega arith in
    let rest =
      place_first-free place name fuel (start + 1) k (omega (arith, h))
        (ap (λ n. place (numbered name n)) (next k) ∙ p)
        (λ j b. ap (λ n. place (numbered name n)) (next j) ∙ t (suc j) (omega (arith, b))) in
    subst
      (λ q.
        elim q [
          | placed ↦ ok (numbered name start)
          | taken ↦ place_first place name fuel (start + 1)
          | broken ↦ err InboxError.io
        ]
        ≡ ok (numbered name (start + suc k)))
      (sym (ap (λ n. place (numbered name n)) (sym e) ∙ t zero (omega arith)))
      (rest ∙ ap (λ n. ok (numbered name n)) (next k))

place_first-found :
    (place : Str → Placing) (name : Str) (fuel k : ℕ)
    → k < fuel
    → place (numbered name k) ≡ placed
    → ((j : ℕ) → j < k → place (numbered name j) ≡ taken)
    → place_first place name fuel 0 ≡ ok (numbered name k)
place_first-found place name fuel k h p t =
    let z : (j : ℕ) → 0 + j ≡ j = λ j. omega arith in
    place_first-free place name fuel 0 k h (ap (λ n. place (numbered name n)) (z k) ∙ p)
      (λ j b. ap (λ n. place (numbered name n)) (z j) ∙ t j b)
    ∙ ap (λ n. ok (numbered name n)) (z k)

denied : (b : Bool) → b ≡ true → not b ≡ false
denied true h = refl
denied false h = ground arith

same : (a b : ℕ) → a ≡ b → not (a == b) ≡ false
same a b h = denied (a == b) ((==_iff a b).1 h)

-- `commit` saves a file that it has no complaint about.
commit-saved :
    (sha256 : List ℕ → List ℕ) (place : Str → Placing) (size : ℕ) (t : Incoming) (r : Str)
    → t.is_failed ≡ false
    → t.written ≡ t.declared
    → size ≡ t.declared
    → is_match sha256 t.hashed t.expected ≡ true
    → place_first place t.name max_name_attempts 0 ≡ ok r
    → (commit sha256 place true size t).1 ≡ ok (record { name = r; size = t.declared })
unfolding commit
commit-saved sha256 place size t r h w d m p =
    ap (λ x. x.1)
      (else_of t.is_failed _ _ h
        ∙ else_of (not (t.written == t.declared)) _ _ (same t.written t.declared w)
        ∙ else_of (not (size == t.declared)) _ _ (same size t.declared d)
        ∙ else_of (not (is_match sha256 t.hashed t.expected)) _ _
            (denied (is_match sha256 t.hashed t.expected) m)
        ∙ ap (saved_as t) p)

-- A file as the engine receives it: begun, written chunk by chunk, and committed.
receive_from :
    (List ℕ → List ℕ)
    → (Str → Placing)
    → ℕ
    → List (List ℕ)
    → Result InboxError Incoming
    → Result InboxError Saved
receive_from sha256 place size chunks (ok s) =
    (commit sha256 place true size (write_run s (in_full chunks))).1
receive_from sha256 place size chunks (err e) = err e

unfoldable pub receive :
    (List ℕ → List ℕ)
    → (Str → Placing)
    → Opening
    → Str
    → ℕ
    → Option (List ℕ)
    → List (List ℕ)
    → Result InboxError Saved
unfolding receive_from
receive sha256 place o name size digest chunks =
    receive_from sha256 place size chunks (begin o name size digest)

-- The directories and the staging file open.
pub record IsOpened (o : Opening) : Type 0 where
  pub target : o.target ≡ ok tt
  pub staging : o.staging ≡ ok tt
  pub named : o.is_named ≡ true
  pub created : o.is_created ≡ true
  pub stated : o.is_stated ≡ true

pub begin-IsOpened :
    (o : Opening) (name : Str) (size : ℕ) (digest : Option (List ℕ))
    → IsOpened o
    → size ≤ max_file_bytes
    → begin o name size digest ≡ ok (started name size digest)
unfolding begin
begin-IsOpened o name size digest v h =
    else_of (ltb max_file_bytes size) _ _ (ground (arith, h))
    ∙ rw (v.target, v.staging, v.named, v.created, v.stated) refl

-- A file that arrives whole is saved. When its directories and its staging file open, the size is at
-- most 8 GiB, every chunk is written without an error, the chunks hold as many bytes as were declared
-- and have the declared digest, if any, the synchronisation succeeds and reports that size, and one of
-- the 1000 names is free after taken ones only, then the file is saved with its size and under that
-- name.
pub receive-in_full :
    (sha256 : List ℕ → List ℕ) (place : Str → Placing) (o : Opening) (name : Str) (size : ℕ)
    (digest : Option (List ℕ)) (chunks : List (List ℕ)) (k : ℕ)
    → IsOpened o
    → size ≤ max_file_bytes
    → length (bytes (in_full chunks)) ≡ size
    → is_match sha256 (bytes (in_full chunks)) digest ≡ true
    → k < max_name_attempts
    → place (numbered name k) ≡ placed
    → ((j : ℕ) → j < k → place (numbered name j) ≡ taken)
    → receive sha256 place o name size digest chunks
      ≡ ok (record { name = numbered name k; size = size })
unfolding receive receive_from
receive-in_full sha256 place o name size digest chunks k g h l m b p q =
    let s = started name size digest in
    let f = write_run-in_full chunks s refl (omega (arith, l)) (omega (arith, h)) in
    let w = write_run-IsWritten (in_full chunks) s refl f in
    let t = write_run s (in_full chunks) in
    let n : t.written ≡ length (bytes (in_full chunks)) = w.written_is ∙ omega arith in
    ap (receive_from sha256 place size chunks) (begin-IsOpened o name size digest g h)
    ∙ commit-saved sha256 place size t (numbered name k) f (n ∙ l ∙ sym w.declared_is)
        (sym w.declared_is)
        (ap (λ x. is_match sha256 x t.expected) w.hashed_is
          ∙ ap (is_match sha256 (bytes (in_full chunks))) w.expected_is
          ∙ m)
        (ap (λ x. place_first place x max_name_attempts 0) w.name_is
          ∙ place_first-found place name max_name_attempts k b p q)
    ∙ ap (λ n. ok (record { name = numbered name k; size = n })) w.declared_is
