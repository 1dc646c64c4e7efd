-- ===== src/Discovery/Refines.antt =====
-- What `Shared` of mod.rs tells the UI keeps the UI's list the same as the table of peers.
use mathlib.Core.Path.{subst}
use mathlib.Core.List.{append_assoc, append-nil}
use sukkula.Base.{◌≡◌, refl, sym, ◌∙◌, ap, Bool, List, [], ◌∷◌, ◌++◌, Str, arith}
use sukkula.Base.Assoc.{lookup}
use sukkula.Addr.{SocketAddr, same_text}
use sukkula.Peers.{peer_id}
use sukkula.Peers.Bounded.{IsPeers}
use sukkula.Discovery.{Shared, Todo, World, Step, call, go_on, take_lock, step, run, new_world}
use sukkula.Discovery.Ui.{hear_all, hear_all-append}
use sukkula.Discovery.Shown.{IsShown, peer_at}
use sukkula.Discovery.Pending.{events_of, events_of-interleave}
use sukkula.Discovery.Calls.{IsTold, call-IsTold}

module _ (to_string : SocketAddr → Str) where
  -- Each call takes the lock of the table when no event of an earlier one is still to be emitted.
  abbrev pub IsSerial : World → List Step → Type 0
  IsSerial w [] = Unit
  IsSerial w (Step.starting c bs ∷ ss) =
      (events_of w.waiting ≡ []) × IsSerial (step to_string w (Step.starting c bs)) ss
  IsSerial w (Step.going_on ∷ ss) = IsSerial (step to_string w Step.going_on) ss

  -- A UI that heard what was told and hears what is still to be told has the peers of the table.
  record IsFollowed (w : World) : Type 0 where
    kept : IsPeers w.shared.peers
    shown : IsShown (hear_all [] (w.told ++ events_of w.waiting)) w.shared.peers

  go_on-IsFollowed :
      (w : World) (ts : List Todo) → w.waiting ≡ ts → IsFollowed w → IsFollowed (go_on w ts)
  go_on-IsFollowed w [] e v = v
  go_on-IsFollowed w (Todo.emitting x ∷ rest) e v = record {
    kept = v.kept;
    shown =
        subst (λ l. IsShown (hear_all [] l) w.shared.peers)
          (ap (λ l. w.told ++ events_of l) e ∙ sym (append_assoc w.told (x ∷ []) (events_of rest)))
          v.shown;
  }
  go_on-IsFollowed w (Todo.settling a f ∷ rest) e v = record {
    kept = v.kept;
    shown =
        subst (λ l. IsShown (hear_all [] l) w.shared.peers) (ap (λ l. w.told ++ events_of l) e)
          v.shown;
  }
  go_on-IsFollowed w (Todo.adding a f now ∷ rest) e v = record {
    kept = v.kept;
    shown =
        subst (λ l. IsShown (hear_all [] l) w.shared.peers) (ap (λ l. w.told ++ events_of l) e)
          v.shown;
  }
  go_on-IsFollowed w (Todo.adding_all lost now ∷ rest) e v = record {
    kept = v.kept;
    shown =
        subst (λ l. IsShown (hear_all [] l) w.shared.peers) (ap (λ l. w.told ++ events_of l) e)
          v.shown;
  }

  take_lock-IsFollowed :
      (w : World) (bs : List Bool) (r : Shared × List Todo)
      → events_of w.waiting ≡ []
      → IsTold to_string (hear_all [] w.told) r
      → IsFollowed (take_lock w bs r)
  take_lock-IsFollowed w bs (x, ts) q v = record {
    kept = v.0;
    shown =
        subst (λ l. IsShown l x.peers)
          (sym (hear_all-append [] w.told (events_of ts))
            ∙ ap (λ l. hear_all [] (w.told ++ l)) (sym (events_of-interleave bs w.waiting ts q)))
          v.1;
  }

  quiet_told :
      (w : World)
      → events_of w.waiting ≡ []
      → IsFollowed w
      → IsShown (hear_all [] w.told) w.shared.peers
  quiet_told w q v =
      subst (λ l. IsShown (hear_all [] l) w.shared.peers)
        (ap (λ l. w.told ++ l) q ∙ append-nil w.told) v.shown

  run-IsFollowed :
      (w : World) (ss : List Step) → IsSerial w ss → IsFollowed w → IsFollowed (run to_string w ss)
  run-IsFollowed w [] h v = v
  run-IsFollowed w (Step.starting c bs ∷ ss) h v =
      run-IsFollowed (step to_string w (Step.starting c bs)) ss h.1 (
        take_lock-IsFollowed w bs (call to_string w.shared c) h.0
          (call-IsTold to_string (hear_all [] w.told) w.shared c v.kept (quiet_told w h.0 v)))
  run-IsFollowed w (Step.going_on ∷ ss) h v =
      run-IsFollowed (step to_string w Step.going_on) ss h (go_on-IsFollowed w w.waiting refl v)

  -- Whatever is seen, while discovering or not, expires or is cleared, if each call takes the lock of the table when no
  -- event of an earlier one is still to be emitted: a UI that starts with no peers, follows the events
  -- and hears those still to be emitted lists, under each id, the peer that the table has under its
  -- fingerprint, and none where the table has none.
  pub run-refines :
      (ss : List Step) (k : Str)
      → IsSerial new_world ss
      → let w = run to_string new_world ss in
        lookup same_text (peer_id k) (hear_all [] (w.told ++ events_of w.waiting))
        ≡ peer_at (lookup same_text k w.shared.peers)
  run-refines ss k h =
      (run-IsFollowed new_world ss h (record {
        kept = record { distinct = tt; few = omega arith; keyed = tt };
        shown = record { distinct = tt; shows = λ j. refl };
      })).shown.shows
        k
