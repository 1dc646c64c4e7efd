-- ===== src/Peers/Tests.antt =====
-- The theorems about the peers of peers.rs at concrete peers.
use sukkula.Base.{ℕ, ◌≡◌, ◌⊎◌, refl, none, some, List, [], ◌∷◌, Str, codes, if◌then◌else◌}
use sukkula.Base.Assoc.{lookup}
use sukkula.Addr.{SocketAddr, same_text}
use sukkula.Reach.{v4}
use sukkula.Peers.{
  DeviceType, Entry, Peers, Sighting, Call, upsert, calls, get, peer_id, alias_of, expire,
}
use sukkula.Peers.Bounded.{IsPeers, calls-IsPeers, upsert-MayGo, MayGo, held_at}
use sukkula.Peers.Found.{get-upsert}

abbrev pub at : ℕ → SocketAddr
at host = record {
  ip = v4 (record { a = 192; b = 168; c = 1; d = host });
  port = 53317;
  flowinfo = 0;
  scope_id = 0;
}

abbrev pub printed : SocketAddr → Str
printed addr = codes "192.168.1.x"

abbrev pub sighting : Str → ℕ → Sighting
sighting fingerprint host = record {
  fingerprint = fingerprint;
  addr = at host;
  alias = codes " Pekka";
  model = none;
  device_type = DeviceType.phone;
}

-- Four peers at one address and a fifth at another, which then moves to the first.
abbrev settled : List Call
settled =
    Call.seeing (sighting (codes "A") 9) 1
    ∷ Call.seeing (sighting (codes "B") 9) 2
    ∷ Call.seeing (sighting (codes "C") 9) 3
    ∷ Call.seeing (sighting (codes "D") 9) 4
    ∷ Call.seeing (sighting (codes "E") 8) 5
    ∷ []

abbrev settled_peers : Peers
settled_peers = calls printed [] settled

fifth_replaces_first :
    (upsert printed settled_peers (sighting (codes "F") 9) 6).1.lost ≡ some (codes "ls:A")
unfolding upsert calls sukkula.Peers.call sukkula.Room.make_room peer_id sukkula.Peers.peer_of
fifth_replaces_first = refl

-- A move is not held to the share of an address.
moved_over_share :
    held_at ((at 9).ip) ((upsert printed settled_peers (sighting (codes "E") 9) 6).0) ≡ 5
unfolding upsert calls sukkula.Peers.call sukkula.Room.make_room
moved_over_share = refl

expired : (expire settled_peers 100002).1 ≡ codes "ls:A" ∷ codes "ls:B" ∷ []
unfolding upsert calls sukkula.Peers.call sukkula.Room.make_room expire peer_id
    sukkula.Peers.peer_of
expired = refl

calls-IsPeers_example : IsPeers settled_peers
calls-IsPeers_example = calls-IsPeers printed settled

upsert-MayGo_example :
    (lookup same_text (codes "A") ((upsert printed settled_peers (sighting (codes "F") 9) 6).0)
      ≡ lookup same_text (codes "A") settled_peers)
    ⊎ ((e : Entry) × (lookup same_text (codes "A") settled_peers ≡ some e)
        × MayGo settled_peers ((at 9).ip) e)
upsert-MayGo_example =
    upsert-MayGo printed settled_peers (sighting (codes "F") 9) 6 (codes "A")
      (calls-IsPeers printed settled) refl

get-upsert_example :
    let r = upsert printed settled_peers (sighting (codes "F") 9) 6 in
    get r.0 (peer_id (codes "F")) ≡ (
      if r.1.is_listed
      then some (record { addr = at 9; fingerprint = codes "F"; name = alias_of (codes " Pekka") })
      else none)
get-upsert_example = get-upsert printed settled_peers (sighting (codes "F") 9) 6
