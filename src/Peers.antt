-- ===== src/Peers.antt =====
-- crates/sukkula-engine/src/localsend/peers.rs: the table of peers that discovery found, and from
-- crates/sukkula-engine/src/localsend/wire.rs what a peer is called. How an address is printed is an
-- argument. Instants and durations are in milliseconds.
pub mod Bounded
pub mod Found
pub mod Tests
use sukkula.Base.{
  ℕ, ◌+◌, ◌-◌, ◌*◌, Bool, true, false, not, ◌&&◌, ◌||◌, Option, none, some, List, [], ◌∷◌, ◌++◌,
  Str, codes, ltb, leb, ◌==◌, if◌then◌else◌, map, filter, is_empty,
}
use sukkula.Base.Assoc.{lookup, insert, remove}
use sukkula.Addr.{SocketAddr, same_ip, same_text}
use sukkula.Limits.{max_peers, max_alias_chars, max_model_chars}
use sukkula.Offer.{Protocol, unknown_sender}
use sukkula.Reach.{IpAddr}
use sukkula.Room.{Slot, Room, make_room, settle_in}
use sukkula.Text.{display}

abbrev pub peer_ttl : ℕ
peer_ttl = 100 * 1000

abbrev pub max_peers_per_ip : ℕ
max_peers_per_ip = 4

-- The icon of a device.
pub data DeviceType : Type 0 where
  phone tablet computer unknown : DeviceType

abbrev pub device_number : DeviceType → ℕ
device_number DeviceType.phone = 0
device_number DeviceType.tablet = 1
device_number DeviceType.computer = 2
device_number DeviceType.unknown = 3

-- A peer as the UI shows it.
pub record Peer : Type 0 where
  pub id : Str
  pub protocol : Protocol
  pub name : Str
  pub model : Option Str
  pub device_type : DeviceType
  pub address : Option Str
  pub fingerprint : Option Str

-- Everything needed to send to a peer, and an entry of the table.
pub record Target : Type 0 where
  pub addr : SocketAddr
  pub fingerprint : Str
  pub name : Str

pub record Entry : Type 0 where
  pub target : Target
  pub peer : Peer
  pub seen : ℕ

abbrev pub Peers : Type 0
Peers = List (Str × Entry)

-- A peer as a discovery source reported it.
pub record Sighting : Type 0 where
  pub fingerprint : Str
  pub addr : SocketAddr
  pub alias : Str
  pub model : Option Str
  pub device_type : DeviceType

-- What `upsert` did.
pub record Upsert : Type 0 where
  pub is_listed : Bool
  pub found : Option Peer
  pub lost : Option Str

abbrev pub prefix : Str
prefix = codes "ls:"

unfoldable pub peer_id : Str → Str
peer_id fingerprint = prefix ++ fingerprint

abbrev pub or_unknown : Str → Str
or_unknown shown = if is_empty shown then unknown_sender else shown

unfoldable pub alias_of : Str → Str
alias_of raw = or_unknown (display raw max_alias_chars)

abbrev pub some_text : Str → Option Str
some_text shown = if is_empty shown then none else some shown

unfoldable pub model_of : Option Str → Option Str
model_of none = none
model_of (some m) = some_text (display m max_model_chars)

-- Whether two peers are equal.
abbrev pub same_option : Option Str → Option Str → Bool
same_option none none = true
same_option none (some y) = false
same_option (some x) none = false
same_option (some x) (some y) = same_text x y

abbrev pub protocol_number : Protocol → ℕ
protocol_number Protocol.local_send = 0
protocol_number Protocol.quick_share = 1
protocol_number Protocol.wormhole = 2
protocol_number Protocol.bluetooth = 3
protocol_number Protocol.croc = 4

unfoldable pub same_peer : Peer → Peer → Bool
same_peer p q =
    same_text p.id q.id
    && protocol_number p.protocol == protocol_number q.protocol
    && same_text p.name q.name
    && same_option p.model q.model
    && device_number p.device_type == device_number q.device_type
    && same_option p.address q.address
    && same_option p.fingerprint q.fingerprint

-- What `upsert` makes of a sighting.
unfoldable pub peer_of : (SocketAddr → Str) → Sighting → Peer
unfolding alias_of model_of
peer_of to_string s = record {
  id = peer_id s.fingerprint;
  protocol = Protocol.local_send;
  name = alias_of s.alias;
  model = model_of s.model;
  device_type = s.device_type;
  address = some (to_string s.addr);
  fingerprint = some s.fingerprint;
}

abbrev pub entry_of : (SocketAddr → Str) → Sighting → ℕ → Entry
entry_of to_string s now = record {
  target = record { addr = s.addr; fingerprint = s.fingerprint; name = (peer_of to_string s).name };
  peer = peer_of to_string s;
  seen = now;
}

abbrev pub peer_slot : Str × Entry → Slot Str IpAddr
peer_slot p = record { key = p.0; ip = p.1.target.addr.ip; rank = 0; seen = p.1.seen }

-- The id of the entry that goes.
abbrev pub id_of : Option Entry → Option Str
id_of none = none
id_of (some e) = some e.peer.id

abbrev pub lost_for : Room Str → Peers → Option Str
lost_for Room.free m = none
lost_for (Room.replace victim) m = id_of (lookup same_text victim m)
lost_for Room.full m = none

abbrev pub found_in : Room Str → Peer → Peers → Upsert
found_in Room.full peer m = record { is_listed = false; found = none; lost = none }
found_in Room.free peer m = record { is_listed = true; found = some peer; lost = none }
found_in (Room.replace victim) peer m = record {
  is_listed = true;
  found = some peer;
  lost = lost_for (Room.replace victim) m;
}

-- `upsert` for a peer that is in the table, and for another.
abbrev pub upsert_at : (SocketAddr → Str) → Peers → Sighting → ℕ → Option Entry → Peers × Upsert
upsert_at to_string m s now (some old) =
    let entry = entry_of to_string s now in
    (
      insert same_text s.fingerprint entry m,
      record {
        is_listed = true;
        found = if same_peer old.peer entry.peer then none else some entry.peer;
        lost = none;
      },
    )
upsert_at to_string m s now none =
    let entry = entry_of to_string s now in
    let room = make_room same_ip (map peer_slot m) s.addr.ip 0 max_peers max_peers_per_ip in
    (settle_in same_text room s.fingerprint entry m, found_in room entry.peer m)

unfoldable pub upsert : (SocketAddr → Str) → Peers → Sighting → ℕ → Peers × Upsert
unfolding peer_of same_peer
upsert to_string m s now = upsert_at to_string m s now (lookup same_text s.fingerprint m)

-- `expire`, `clear`, `quiet` and `get`.
abbrev pub is_fresh : ℕ → Str × Entry → Bool
is_fresh now p = ltb (now - p.1.seen) peer_ttl

unfoldable pub expire : Peers → ℕ → Peers × List Str
expire m now =
    (filter (is_fresh now) m, map (λ p. p.1.peer.id) (filter (λ p. not (is_fresh now p)) m))

unfoldable pub clear : Peers → Peers × List (Str × Target)
clear m = ([], map (λ p. (p.1.peer.id, p.1.target)) m)

unfoldable pub quiet : Peers → ℕ → ℕ → List (SocketAddr × Str)
quiet m now age =
    map (λ p. (p.1.target.addr, p.1.target.fingerprint))
      (filter (λ (p : Str × Entry). leb age (now - p.1.seen)) m)

pub strip_prefix : Str → Str → Option Str
strip_prefix [] s = some s
strip_prefix (c ∷ cs) [] = none
strip_prefix (c ∷ cs) (d ∷ ds) = if c == d then strip_prefix cs ds else none

abbrev pub target_of : Option Entry → Option Target
target_of none = none
target_of (some e) = some e.target

abbrev pub get_at : Peers → Option Str → Option Target
get_at m none = none
get_at m (some fingerprint) = target_of (lookup same_text fingerprint m)

unfoldable pub get : Peers → Str → Option Target
unfolding strip_prefix
get m id = get_at m (strip_prefix prefix id)

-- The calls that change the table, in any order.
pub data Call : Type 0 where
  seeing : Sighting → ℕ → Call
  expiring : ℕ → Call
  clearing : Call

unfoldable pub call : (SocketAddr → Str) → Peers → Call → Peers
call to_string m (Call.seeing s now) = (upsert to_string m s now).0
call to_string m (Call.expiring now) = (expire m now).0
call to_string m Call.clearing = (clear m).0

unfoldable pub calls : (SocketAddr → Str) → Peers → List Call → Peers
unfolding call
calls to_string m [] = m
calls to_string m (c ∷ cs) = calls to_string (call to_string m c) cs
