-- ===== src/Discovery/Tests.antt =====
-- The theorem about mod.rs at a concrete run.
use sukkula.Base.{◌≡◌, ◌++◌, Bool, refl, true, false, List, [], ◌∷◌, codes, length}
use sukkula.Base.Assoc.{lookup}
use sukkula.Addr.{same_text}
use sukkula.Peers.{peer_id}
use sukkula.Peers.Tests.{sighting, printed}
use sukkula.Discovery.{Call, Step, World, new_world, run}
use sukkula.Discovery.Ui.{hear_all}
use sukkula.Discovery.Shown.{peer_at}
use sukkula.Discovery.Refines.{IsSerial, run-refines}
use sukkula.Discovery.Pending.{events_of}

abbrev spare : List Bool
spare = []

-- Two peers are seen while discovering, the first expires while the second's lead waits, and
-- one more is seen when not discovering.
abbrev evening : List Step
evening =
    Step.starting (Call.seeing true (sighting (codes "A") 9) 1) spare
    ∷ Step.going_on
    ∷ Step.starting (Call.seeing true (sighting (codes "B") 8) 2) (false ∷ true ∷ [])
    ∷ Step.going_on
    ∷ Step.starting (Call.expiring 100001) spare
    ∷ Step.going_on
    ∷ Step.going_on
    ∷ Step.going_on
    ∷ Step.going_on
    ∷ Step.starting (Call.seeing false (sighting (codes "C") 7) 100002) spare
    ∷ []

abbrev evening_run : World
evening_run = run printed new_world evening

evening-IsSerial : IsSerial printed new_world evening
unfolding sukkula.Discovery.call sukkula.Discovery.saw_peer sukkula.Discovery.expire_peers
    sukkula.Peers.upsert sukkula.Room.make_room sukkula.Peers.expire sukkula.Peers.peer_id
    sukkula.Peers.peer_of
evening-IsSerial = (refl, (refl, (refl, (refl, tt))))

run-refines_example :
    let w = evening_run in
    lookup same_text (peer_id (codes "B")) (hear_all [] (w.told ++ events_of w.waiting))
    ≡ peer_at (lookup same_text (codes "B") w.shared.peers)
run-refines_example = run-refines printed evening (codes "B") evening-IsSerial

-- Two calls at once: the peer is cleared before its sighting has told the UI of it.
abbrev race : World
race = run printed new_world (
    Step.starting (Call.seeing true (sighting (codes "A") 9) 1) spare
    ∷ Step.starting (Call.clearing 2) (false ∷ false ∷ [])
    ∷ Step.going_on
    ∷ Step.going_on
    ∷ Step.going_on
    ∷ Step.going_on
    ∷ [])

race_done : length race.waiting ≡ 0
unfolding sukkula.Discovery.call sukkula.Discovery.saw_peer sukkula.Discovery.clear_peers
    sukkula.Peers.upsert sukkula.Room.make_room sukkula.Peers.clear sukkula.Peers.peer_id
    sukkula.Peers.peer_of
race_done = refl

-- The UI lists a peer that the table does not have.
race_listed : (length (hear_all [] race.told) ≡ 1) × (race.shared.peers ≡ [])
unfolding sukkula.Discovery.call sukkula.Discovery.saw_peer sukkula.Discovery.clear_peers
    sukkula.Peers.upsert sukkula.Room.make_room sukkula.Peers.clear sukkula.Peers.peer_id
    sukkula.Peers.peer_of
race_listed = (refl, refl)
