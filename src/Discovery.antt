-- ===== src/Discovery.antt =====
-- crates/sukkula-engine/src/localsend/mod.rs: what `Shared` does with the peers and the leads, and
-- what it tells the UI. A call changes the table of peers under its lock; what it does after that, one
-- by one, comes between other calls.
pub mod Ui
pub mod Shown
pub mod Pending
pub mod Calls
pub mod Refines
pub mod Tests
use sukkula.Base.{
  ℕ, Bool, true, false, Option, none, some, List, [], ◌∷◌, ◌++◌, Str, if◌then◌else◌, map,
}
use sukkula.Addr.{SocketAddr}
use sukkula.Leads.{Leads, add, settle}
use sukkula.Peers.{Peer, Target, Peers, Sighting, Upsert, upsert, expire, clear}

-- The events about peers.
pub data Event : Type 0 where
  peer_found : Peer → Event
  peer_lost : Str → Event

pub record Shared : Type 0 where
  pub peers : Peers
  pub leads : Leads

abbrev pub lost_event : Option Str → List Event
lost_event none = []
lost_event (some id) = Event.peer_lost id ∷ []

abbrev pub found_event : Option Peer → List Event
found_event none = []
found_event (some peer) = Event.peer_found peer ∷ []

-- What a call has still to do after it let go of the table of peers: emit an event, or a hold of the
-- lock of the leads.
pub data Todo : Type 0 where
  emitting : Event → Todo
  settling : SocketAddr → Str → Todo
  adding : SocketAddr → Str → ℕ → Todo
  adding_all : List (Str × Target) → ℕ → Todo

abbrev pub emissions : List Event → List Todo
emissions es = map Todo.emitting es

-- The end of `saw_peer`, for a peer that is listed or not.
abbrev pub after_upsert : Sighting → ℕ → Bool → Todo
after_upsert s now is_listed =
    if is_listed then Todo.settling s.addr s.fingerprint else Todo.adding s.addr s.fingerprint now

abbrev pub saw_listed : Shared → Sighting → ℕ → Peers × Upsert → Shared × List Todo
saw_listed x s now (peers, u) = (
  record x { peers = peers },
  emissions (lost_event u.lost ++ found_event u.found) ++ (after_upsert s now u.is_listed ∷ []),
)

-- `is_discovering` is what it read before it took the lock, which may have changed since.
unfoldable pub saw_peer : (SocketAddr → Str) → Bool → Shared → Sighting → ℕ → Shared × List Todo
saw_peer to_string is_discovering x s now =
    if is_discovering
    then saw_listed x s now (upsert to_string x.peers s now)
    else (x, Todo.adding s.addr s.fingerprint now ∷ [])

abbrev pub lost_events : List Str → List Event
lost_events ids = map Event.peer_lost ids

unfoldable pub expire_peers : Shared → ℕ → Shared × List Todo
expire_peers x now =
    let r = expire x.peers now in (record x { peers = r.0 }, emissions (lost_events r.1))

unfoldable pub clear_peers : Shared → ℕ → Shared × List Todo
clear_peers x now =
    let r = clear x.peers in
    (
      record x { peers = r.0 },
      Todo.adding_all r.1 now ∷ emissions (lost_events (map (λ p. p.0) r.1)),
    )

-- The loop of `clear_peers`, under one hold of the lock of the leads.
abbrev pub add_all : Leads → List (Str × Target) → ℕ → Leads
add_all m [] now = m
add_all m ((id, t) ∷ lost) now = add_all ((add m t.addr t.fingerprint true now).0) lost now

-- A sighting comes with what `discovering` said.
pub data Call : Type 0 where
  seeing : Bool → Sighting → ℕ → Call
  expiring : ℕ → Call
  clearing : ℕ → Call

unfoldable pub call : (SocketAddr → Str) → Shared → Call → Shared × List Todo
call to_string x (Call.seeing is_discovering s now) = saw_peer to_string is_discovering x s now
call to_string x (Call.expiring now) = expire_peers x now
call to_string x (Call.clearing now) = clear_peers x now

-- The tables, what the calls under way have still to do in the order in which they will do it, and what
-- the UI was told.
pub record World : Type 0 where
  pub shared : Shared
  pub waiting : List Todo
  pub told : List Event

-- What two tasks have to do, interleaved by a schedule: `true` is the first one's turn.
abbrev pub interleave : List Bool → List Todo → List Todo → List Todo
interleave [] xs ys = xs ++ ys
interleave (true ∷ bs) [] ys = ys
interleave (true ∷ bs) (x ∷ xs) ys = x ∷ interleave bs xs ys
interleave (false ∷ bs) xs [] = xs
interleave (false ∷ bs) xs (y ∷ ys) = y ∷ interleave bs xs ys

abbrev pub go_on : World → List Todo → World
go_on w [] = w
go_on w (Todo.emitting e ∷ rest) = record w { waiting = rest; told = w.told ++ (e ∷ []) }
go_on w (Todo.settling a f ∷ rest) = record w {
  waiting = rest;
  shared = record w.shared { leads = settle w.shared.leads a f };
}
go_on w (Todo.adding a f now ∷ rest) = record w {
  waiting = rest;
  shared = record w.shared { leads = (add w.shared.leads a f true now).0 };
}
go_on w (Todo.adding_all lost now ∷ rest) = record w {
  waiting = rest;
  shared = record w.shared { leads = add_all w.shared.leads lost now };
}

-- A call has the lock of the table, its later work being interleaved with that of the others by the
-- schedule; or the next piece of work is done.
pub data Step : Type 0 where
  starting : Call → List Bool → Step
  going_on : Step

abbrev pub take_lock : World → List Bool → Shared × List Todo → World
take_lock w bs (x, todos) = record w { shared = x; waiting = interleave bs w.waiting todos }

abbrev pub step : (SocketAddr → Str) → World → Step → World
step to_string w (Step.starting c bs) = take_lock w bs (call to_string w.shared c)
step to_string w Step.going_on = go_on w w.waiting

abbrev pub run : (SocketAddr → Str) → World → List Step → World
run to_string w [] = w
run to_string w (s ∷ ss) = run to_string (step to_string w s) ss

abbrev pub new_world : World
new_world = record { shared = record { peers = []; leads = [] }; waiting = []; told = [] }
