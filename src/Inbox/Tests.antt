-- ===== src/Inbox/Tests.antt =====
-- The theorem about inbox.rs at a concrete file.
use sukkula.Base.{
  ℕ, zero, suc, arith, ◌+◌, ◌<◌, ◌≡◌, refl, Option, some, none, List, [], ◌∷◌, Bool, true, false,
  Str, codes, if◌then◌else◌,
}
use sukkula.Base.Outcome.{ok, err}
use sukkula.Inbox.{
  Incoming, Opening, DirError, Saved, Placing, placed, taken, WriteAll, complete, stopped, begin,
  write, commit, equal, InboxError,
}
use sukkula.Inbox.Writes.{write_run}
use sukkula.Inbox.Promises.{IsReceived, commit-IsReceived}
use sukkula.Inbox.Intact.{receive, IsOpened, receive-in_full}
use sukkula.Name.Numbered.{numbered}

abbrev sum : List ℕ → List ℕ
sum [] = 0 ∷ []
sum (b ∷ bs) = elim (sum bs) [ [] ↦ [] | n ∷ ns ↦ (b + n) ∷ [] ]

abbrev name : Str
name = codes "a.txt"

-- A directory that has `a.txt` already.
abbrev directory : Str → Placing
directory s = if equal s name then taken else placed

abbrev calls : List (List ℕ × WriteAll)
calls = (1 ∷ 2 ∷ [], complete) ∷ (3 ∷ [], complete) ∷ []

abbrev begun : Incoming
begun = record {
  name = name;
  declared = 3;
  written = 0;
  disk = [];
  hashed = [];
  expected = some (6 ∷ []);
  is_failed = false;
  is_done = false;
}

abbrev saved : Saved
saved = record { name = codes "a (1).txt"; size = 3 }

-- Both directories and the staging file open.
abbrev opening : Opening
opening = record {
  target_path = codes "Downloads";
  staging_path = codes "Downloads/.partial";
  target = ok tt;
  staging = ok tt;
  is_named = true;
  is_created = true;
  is_stated = true;
}

opening-IsOpened : IsOpened opening
opening-IsOpened = record {
  target = refl;
  staging = refl;
  named = refl;
  created = refl;
  stated = refl;
}

-- A target that became a symlink refuses an ordinary file.
symlink_refused :
    begin (record opening { target = err DirError.not_plain }) (codes "b") 1 none
    ≡ err (InboxError.not_a_directory (codes "Downloads"))
unfolding begin
symlink_refused = refl

file_begun : begin opening name 3 (some (6 ∷ [])) ≡ ok begun
unfolding begin
file_begun = refl

file_saved : (commit sum directory true 3 (write_run begun calls)).1 ≡ ok saved
unfolding commit write sukkula.Name.Numbered.numbered sukkula.Base.len_utf8
    sukkula.Base.trim_end_matches
file_saved = refl

stopped_write_spoils :
    (commit sum directory true 3 (write_run begun ((1 ∷ [], stopped 0) ∷ calls))).1
    ≡ err InboxError.io
unfolding commit write
stopped_write_spoils = refl

commit-IsReceived_example :
    IsReceived sum directory name 3 (some (6 ∷ [])) calls ((write_run begun calls).disk) saved
commit-IsReceived_example =
    commit-IsReceived sum directory opening true 3 name 3 (some (6 ∷ [])) calls begun saved
      file_begun file_saved

abbrev chunks : List (List ℕ)
chunks = (1 ∷ 2 ∷ []) ∷ (3 ∷ []) ∷ []

name_taken : directory (numbered name 0) ≡ taken
unfolding sukkula.Name.Numbered.numbered
name_taken = refl

next_free : directory (numbered name 1) ≡ placed
unfolding sukkula.Name.Numbered.numbered sukkula.Base.len_utf8 sukkula.Base.trim_end_matches
next_free = refl

taken_before : (j : ℕ) → j < 1 → directory (numbered name j) ≡ taken
taken_before zero h = name_taken
taken_before (suc j) h = absurd (omega (arith, h))

receive-in_full_example :
    receive sum directory opening name 3 (some (6 ∷ [])) chunks
    ≡ ok (record { name = numbered name 1; size = 3 })
receive-in_full_example =
    receive-in_full sum directory opening name 3 (some (6 ∷ [])) chunks 1 opening-IsOpened
      (omega arith) refl refl (omega arith) next_free taken_before
