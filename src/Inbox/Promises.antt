-- ===== src/Inbox/Promises.antt =====
-- What a file is that inbox.rs says it has saved.
use mathlib.Core.Path.{subst}
use sukkula.Base.{
  ℕ, zero, suc, ◌+◌, ◌≤◌, ◌<◌, ◌≡◌, refl, sym, ap, ◌∙◌, Bool, true, false, not, Option, List, [],
  arith, ltb, ◌==◌, ==_iff, if◌then◌else◌, length, Str, Bool-cases, inl, inr, not_ltb→le,
}
use sukkula.Base.Outcome.{Result, ok, err, ok-bind, ok-injective}
use sukkula.Limits.{max_file_bytes}
use sukkula.Name.Numbered.{numbered}
use sukkula.Inbox.{
  Incoming, InboxError, Opening, stage, open_dirs, io_result, Saved, Placing, placed, taken, broken,
  WriteAll, begin, commit, place_first, saved_as, is_match, max_name_attempts,
}
use sukkula.Inbox.Writes.{write_run, bytes, else_of, write_run-IsWritten}

-- The first name that is free, of some numbered names.
pub record IsFirstFree (place : Str → Placing) (name : Str) (start fuel : ℕ) (r : Str)
    : Type 0 where
  pub number : ℕ
  pub within : number < fuel
  pub name_is : r ≡ numbered name (start + number)
  pub placed_there : place r ≡ placed
  pub taken_before : (j : ℕ) → j < number → place (numbered name (start + j)) ≡ taken

first_here :
    (place : Str → Placing) (name : Str) (start fuel : ℕ)
    → place (numbered name start) ≡ placed
    → IsFirstFree place name start (suc fuel) (numbered name start)
first_here place name start fuel p =
    let e : start + 0 ≡ start = omega arith in
    record {
      number = 0;
      within = omega arith;
      name_is = ap (numbered name) (sym e);
      placed_there = p;
      taken_before = λ j h. absurd (omega (arith, h));
    }

first_later :
    (place : Str → Placing) (name : Str) (start fuel : ℕ) (r : Str)
    → place (numbered name start) ≡ taken
    → IsFirstFree place name (start + 1) fuel r
    → IsFirstFree place name start (suc fuel) r
first_later place name start fuel r p v =
    let e : start + 1 + v.number ≡ start + suc v.number = omega arith in
    record {
      number = suc v.number;
      within = omega (arith, v.within);
      name_is = v.name_is ∙ ap (numbered name) e;
      placed_there = v.placed_there;
      taken_before = earlier;
    }
  where
    earlier : (j : ℕ) → j < suc v.number → place (numbered name (start + j)) ≡ taken
    earlier zero h =
        let e : start + 0 ≡ start = omega arith in ap (λ n. place (numbered name n)) e ∙ p
    earlier (suc j) h =
        let e : start + suc j ≡ start + 1 + j = omega arith in
        ap (λ n. place (numbered name n)) e ∙ v.taken_before j (omega (arith, h))

place_first-IsFirstFree :
    (place : Str → Placing) (name : Str) (fuel start : ℕ) (r : Str)
    → place_first place name fuel start ≡ ok r
    → IsFirstFree place name start fuel r
unfolding place_first
place_first-IsFirstFree place name zero start r h = ground arith
place_first-IsFirstFree place name (suc fuel) start r h =
    go (place (numbered name start)) refl h (place_first-IsFirstFree place name fuel (start + 1) r)
  where
    go :
        (p : Placing)
        → place (numbered name start) ≡ p
        → elim p [
          | placed ↦ ok (numbered name start)
          | taken ↦ place_first place name fuel (start + 1)
          | broken ↦ err InboxError.io
        ]
          ≡ ok r
        → (place_first place name fuel (start + 1) ≡ ok r
            → IsFirstFree place name (start + 1) fuel r)
        → IsFirstFree place name start (suc fuel) r
    go placed e q ih =
        subst (IsFirstFree place name start (suc fuel)) (ok-injective q)
          (first_here place name start fuel e)
    go taken e q ih = first_later place name start fuel r e (ih q)
    go broken e q ih = ground arith

-- A guard that a committed file has passed.
passed :
    (b : Bool) (s : Incoming) (e : InboxError) (y : Incoming × Result InboxError Saved) {v : Saved}
    → (if b then (s, err e) else y).1 ≡ ok v
    → (b ≡ false) × (y.1 ≡ ok v)
passed true s e y h = ground arith
passed false s e y h = (refl, h)

unnegated : (b : Bool) → not b ≡ false → b ≡ true
unnegated true h = refl
unnegated false h = ground arith

saved_name :
    (s : Incoming) (r : Result InboxError Str) (v : Saved)
    → (saved_as s r).1 ≡ ok v
    → (r ≡ ok v.name) × (v.size ≡ s.declared)
saved_name s (ok x) v h =
    let e = ok-injective h in (ap (λ u. ok u.name) e, sym (ap (λ u. u.size) e))
saved_name s (err e) v h = ground arith

-- What `commit` has checked of a file that it saves.
record IsCommitted (sha256 : List ℕ → List ℕ) (place : Str → Placing) (s : Incoming) (v : Saved)
    : Type 0 where
  whole : s.is_failed ≡ false
  counted : s.written ≡ s.declared
  size_is : v.size ≡ s.declared
  matches : is_match sha256 s.hashed s.expected ≡ true
  first : IsFirstFree place s.name 0 max_name_attempts v.name

commit-IsCommitted :
    (sha256 : List ℕ → List ℕ) (place : Str → Placing) (b : Bool) (st_size : ℕ) (s : Incoming)
    (v : Saved)
    → (commit sha256 place b st_size s).1 ≡ ok v
    → IsCommitted sha256 place s v
unfolding commit
commit-IsCommitted sha256 place b st_size s v h =
    let (p, h1) = passed s.is_failed _ _ _ h in
    let (q, h2) = passed (not (s.written == s.declared)) _ _ _ h1 in
    let (x, h3) = passed (not b) _ _ _ h2 in
    let (y, h4) = passed (not (st_size == s.declared)) _ _ _ h3 in
    let (z, h5) = passed (not (is_match sha256 s.hashed s.expected)) _ _ _ h4 in
    let (e, n) = saved_name s (place_first place s.name max_name_attempts 0) v h5 in
    record {
      whole = p;
      counted = (==_iff s.written s.declared).0 (unnegated (s.written == s.declared) q);
      size_is = n;
      matches = unnegated (is_match sha256 s.hashed s.expected) z;
      first = place_first-IsFirstFree place s.name max_name_attempts 0 v.name e;
    }

-- What a saved file is, for the calls of `write` that it was received by.
pub record IsReceived (sha256 : List ℕ → List ℕ) (place : Str → Placing) (name : Str) (size : ℕ)
    (digest : Option (List ℕ)) (calls : List (List ℕ × WriteAll)) (disk : List ℕ) (v : Saved)
    : Type 0 where
  pub within : size ≤ max_file_bytes
  pub size_is : v.size ≡ size
  pub count : length (bytes calls) ≡ size
  pub contents : disk ≡ bytes calls
  pub matches : is_match sha256 (bytes calls) digest ≡ true
  pub first : IsFirstFree place name 0 max_name_attempts v.name

abbrev pub started : Str → ℕ → Option (List ℕ) → Incoming
started name size digest = record {
  name = name;
  declared = size;
  written = 0;
  disk = [];
  hashed = [];
  expected = digest;
  is_failed = false;
  is_done = false;
}

stage-ok : (o : Opening) (file s : Incoming) → stage o file ≡ ok s → file ≡ s
stage-ok o file s h =
    let (dirs, a, h1) = ok-bind (open_dirs o) _ h in
    let (staging_name, b, h2) = ok-bind (io_result o.is_named) _ h1 in
    let (fd, c, h3) = ok-bind (io_result o.is_created) _ h2 in
    let (id, d, h4) = ok-bind (io_result o.is_stated) _ h3 in ok-injective h4

begin-started :
    (o : Opening) (name : Str) (size : ℕ) (digest : Option (List ℕ)) (s : Incoming)
    → begin o name size digest ≡ ok s
    → (size ≤ max_file_bytes) × (started name size digest ≡ s)
unfolding begin
begin-started o name size digest s h = elim (Bool-cases (ltb max_file_bytes size)) [
  | inl e ↦ ground (arith, h, e)
  | inr e ↦ (
    not_ltb→le max_file_bytes size e,
    stage-ok o (started name size digest) s
        (sym (else_of (ltb max_file_bytes size) _ (stage o (started name size digest)) e) ∙ h),
  )
]

received :
    (sha256 : List ℕ → List ℕ) (place : Str → Placing) (name : Str) (size : ℕ)
    (digest : Option (List ℕ)) (calls : List (List ℕ × WriteAll)) (v : Saved)
    → size ≤ max_file_bytes
    → IsCommitted sha256 place (write_run (started name size digest) calls) v
    → IsReceived sha256 place name size digest calls
        ((write_run (started name size digest) calls).disk)
        v
received sha256 place name size digest calls v h c =
    let t = write_run (started name size digest) calls in
    let w = write_run-IsWritten calls (started name size digest) refl c.whole in
    record {
      within = h;
      size_is = c.size_is ∙ w.declared_is;
      count = omega (arith, w.written_is, c.counted, w.declared_is);
      contents = w.disk_is;
      matches =
          ap (λ x. is_match sha256 x digest) (sym w.hashed_is)
          ∙ ap (λ o. is_match sha256 t.hashed o) (sym w.expected_is)
          ∙ c.matches;
      first = subst (λ n. IsFirstFree place n 0 max_name_attempts v.name) w.name_is c.first;
    }

-- For every file that is begun, every sequence of writes, failed ones included, and every behaviour
-- of the file system: if the commit says that it saved the file, then its size is the declared one,
-- at most 8 GiB; the staging file holds the bytes of all the chunks in order, and as many as were
-- declared; they have the declared digest, if any; and the name is the first of the numbered names
-- that was not taken.
pub commit-IsReceived :
    (sha256 : List ℕ → List ℕ) (place : Str → Placing) (o : Opening) (is_synced : Bool)
    (st_size : ℕ) (name : Str) (size : ℕ) (digest : Option (List ℕ))
    (calls : List (List ℕ × WriteAll)) (s : Incoming) (v : Saved)
    → begin o name size digest ≡ ok s
    → (commit sha256 place is_synced st_size (write_run s calls)).1 ≡ ok v
    → IsReceived sha256 place name size digest calls ((write_run s calls).disk) v
commit-IsReceived sha256 place o is_synced st_size name size digest calls s v b h =
    let (m, e) = begin-started o name size digest s b in
    let k : (commit sha256 place is_synced st_size (write_run (started name size digest) calls)).1
        ≡ ok v =
      ap (λ x. (commit sha256 place is_synced st_size (write_run x calls)).1) e ∙ h in
    subst (λ x. IsReceived sha256 place name size digest calls ((write_run x calls).disk) v) e
      (received sha256 place name size digest calls v m (
        commit-IsCommitted sha256 place is_synced st_size
          (write_run (started name size digest) calls) v k))
