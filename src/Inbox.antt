-- ===== src/Inbox.antt =====
-- crates/sukkula-core/src/inbox.rs: a file that is received, counted, hashed and placed.
pub mod Writes
pub mod Promises
pub mod Intact
pub mod Tests
use sukkula.Base.{
  ℕ, zero, suc, ◌+◌, ◌-◌, ◌*◌, ◌^◌, Bool, true, false, not, ◌&&◌, ◌||◌, Option, none, some, List,
  [], ◌∷◌, ◌++◌, ltb, leb, ◌==◌, if◌then◌else◌, length, take, Str, min,
}
use sukkula.Base.Outcome.{Result, ok, err, ◌>>=◌}
use sukkula.Limits.{max_file_bytes, mib}
use sukkula.Name.Numbered.{numbered}

abbrev pub max_name_attempts : ℕ
max_name_attempts = 1000

abbrev pub space_reserve : ℕ
space_reserve = 64 * mib

-- `Io` stands for every error of the file system, and of a spoiled or tampered file.
pub data InboxError : Type 0 where
  too_large overflow digest_mismatch no_space no_free_name io : InboxError
  truncated : ℕ → ℕ → InboxError
  not_a_directory : Str → InboxError

-- `()`.
abbrev pub Done : Type 0
Done = Unit

pub record Saved : Type 0 where
  pub name : Str
  pub size : ℕ

-- `Incoming`: `disk` is what is in the staging file, `hashed` what went into the hasher.
pub record Incoming : Type 0 where
  pub name : Str
  pub declared : ℕ
  pub written : ℕ
  pub disk : List ℕ
  pub hashed : List ℕ
  pub expected : Option (List ℕ)
  pub is_failed : Bool
  pub is_done : Bool

-- `check_space`, on the free space that the file system reports.
unfoldable pub check_space : Option ℕ → ℕ → Result InboxError Done
check_space none total = ok tt
check_space (some free) total =
    if ltb free (min (total + space_reserve) (2 ^ 64 - 1)) then err no_space else ok tt

-- Why a directory does not open: it is a symlink or no directory, or any other error.
pub data DirError : Type 0 where
  not_plain io : DirError

-- What the file system does while a file is begun: the two directories with their paths, and whether
-- the random name, the creation of the staging file and its `fstat` succeed.
pub record Opening : Type 0 where
  pub target_path : Str
  pub staging_path : Str
  pub target : Result DirError Done
  pub staging : Result DirError Done
  pub is_named : Bool
  pub is_created : Bool
  pub is_stated : Bool

-- `.map_err(not_plain(path))`.
abbrev pub plain_dir : Str → Result DirError Done → Result InboxError Done
plain_dir path (ok u) = ok u
plain_dir path (err DirError.not_plain) = err (not_a_directory path)
plain_dir path (err DirError.io) = err InboxError.io

abbrev pub open_dirs : Opening → Result InboxError Done
open_dirs o = plain_dir o.target_path o.target >>= (λ u. plain_dir o.staging_path o.staging)

-- `?` on an `io::Result`.
abbrev pub io_result : Bool → Result InboxError Done
io_result is_good = if is_good then ok tt else err InboxError.io

-- The part of `begin` after the check of the size.
abbrev pub stage : Opening → Incoming → Result InboxError Incoming
stage o file = do
  dirs ← open_dirs o
  staging_name ← io_result o.is_named
  fd ← io_result o.is_created
  id ← io_result o.is_stated
  ok file

unfoldable pub begin : Opening → Str → ℕ → Option (List ℕ) → Result InboxError Incoming
begin o name size sha256 =
    if ltb max_file_bytes size
    then err too_large
    else stage o (record {
      name = name;
      declared = size;
      written = 0;
      disk = [];
      hashed = [];
      expected = sha256;
      is_failed = false;
      is_done = false;
    })

-- What `write_all` does: the whole chunk, or an error or a cancellation after some bytes of it.
pub data WriteAll : Type 0 where
  complete : WriteAll
  stopped : ℕ → WriteAll

pub write_all : Incoming → List ℕ → WriteAll → Incoming × Result InboxError Done
write_all s chunk complete = (
  record s {
    written = s.written + length chunk;
    disk = s.disk ++ chunk;
    hashed = s.hashed ++ chunk;
  },
  ok tt,
)
write_all s chunk (stopped n) =
    (record s { is_failed = true; disk = s.disk ++ take n chunk }, err InboxError.io)

unfoldable pub write : Incoming → List ℕ → WriteAll → Incoming × Result InboxError Done
unfolding write_all
write s chunk w =
    if s.is_failed
    then (s, err InboxError.io)
    else if leb (2 ^ 64) (s.written + length chunk) || ltb s.declared (s.written + length chunk)
    then (record s { is_failed = true }, err overflow)
    else write_all s chunk w

-- What `place` does with a name: the file is there, the name is taken, or an error.
pub data Placing : Type 0 where
  placed taken broken : Placing

-- The loop of `commit` over the names, `fuel` of them from `n`.
pub place_first : (Str → Placing) → Str → ℕ → ℕ → Result InboxError Str
place_first place name zero n = err no_free_name
place_first place name (suc fuel) n =
    let rest = place_first place name fuel (n + 1) in
    elim (place (numbered name n)) [
      | placed ↦ ok (numbered name n)
      | taken ↦ rest
      | broken ↦ err InboxError.io
    ]

-- The end of `commit`, with the name that was free.
abbrev pub saved_as : Incoming → Result InboxError Str → Incoming × Result InboxError Saved
saved_as s (ok name) = (record s { is_done = true }, ok (record { name = name; size = s.declared }))
saved_as s (err e) = (s, err e)

abbrev pub equal : List ℕ → List ℕ → Bool
equal [] [] = true
equal [] (b ∷ bs) = false
equal (a ∷ xs) [] = false
equal (a ∷ xs) (b ∷ bs) = a == b && equal xs bs

-- Whether the digest of what was hashed is the expected one, if any.
abbrev pub is_match : (List ℕ → List ℕ) → List ℕ → Option (List ℕ) → Bool
is_match sha256 hashed none = true
is_match sha256 hashed (some expected) = equal (sha256 hashed) expected

-- `commit`: `is_synced` says whether the flush, the sync and the `fstat` succeed, `st_size` is the
-- size that the file system reports.
unfoldable pub commit :
    (List ℕ → List ℕ) → (Str → Placing) → Bool → ℕ → Incoming → Incoming × Result InboxError Saved
unfolding place_first
commit sha256 place is_synced st_size s =
    if s.is_failed
    then (s, err InboxError.io)
    else if not (s.written == s.declared)
    then (s, err (truncated s.written s.declared))
    else if not is_synced
    then (s, err InboxError.io)
    else if not (st_size == s.declared)
    then (s, err InboxError.io)
    else if not (is_match sha256 s.hashed s.expected)
    then (s, err digest_mismatch)
    else saved_as s (place_first place s.name max_name_attempts 0)
