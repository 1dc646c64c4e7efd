-- ===== src/Peers/Found.antt =====
-- `upsert` and `get` of peers.rs: who was seen can be sent to.
use sukkula.Base.{ℕ, ◌≡◌, refl, ◌∙◌, ap, Option, none, some, Str, if◌then◌else◌, map}
use sukkula.Base.Assoc.{lookup, remove, lookup-insert}
use sukkula.Addr.{SocketAddr, same_ip, same_text, same_text-IsTest}
use sukkula.Limits.{max_peers}
use sukkula.Room.{Room, make_room, settle_in}
use sukkula.Peers.{
  Target, Entry, Peers, Sighting, Upsert, peer_id, entry_of, peer_slot, target_of, upsert_at,
  upsert, found_in, alias_of, get, get_at, max_peers_per_ip,
}

get_lem : (m : Peers) (k : Str) → get m (peer_id k) ≡ target_of (lookup same_text k m)
unfolding get peer_id
get_lem m k = refl

module _ (to_string : SocketAddr → Str) where
  -- What a peer that was seen is sent to.
  abbrev seen_target : Sighting → ℕ → Target
  seen_target s now = (entry_of to_string s now).target

  room-target :
      (m : Peers) (s : Sighting) (now : ℕ) (r : Room Str)
      → lookup same_text s.fingerprint m ≡ none
      → let e = entry_of to_string s now in
        target_of (lookup same_text s.fingerprint (settle_in same_text r s.fingerprint e m))
        ≡ (if (found_in r e.peer m).is_listed then some (seen_target s now) else none)
  room-target m s now Room.free h =
      ap target_of
        (lookup-insert same_text same_text-IsTest s.fingerprint (entry_of to_string s now) m)
  room-target m s now Room.full h = ap target_of h
  room-target m s now (Room.replace j) h = ap target_of (
      lookup-insert same_text same_text-IsTest s.fingerprint (entry_of to_string s now)
        (remove same_text j m))

  upsert_at-target :
      (m : Peers) (s : Sighting) (now : ℕ) (o : Option Entry)
      → lookup same_text s.fingerprint m ≡ o
      → let r = upsert_at to_string m s now o in
        target_of (lookup same_text s.fingerprint r.0)
        ≡ (if r.1.is_listed then some (seen_target s now) else none)
  upsert_at-target m s now (some old) h =
      ap target_of
        (lookup-insert same_text same_text-IsTest s.fingerprint (entry_of to_string s now) m)
  upsert_at-target m s now none h =
      room-target m s now
        (make_room same_ip (map peer_slot m) s.addr.ip 0 max_peers max_peers_per_ip) h

  -- After `upsert`, `get` finds the peer under its id exactly if `upsert` says that it is listed, and
  -- then at the address, with the fingerprint and under the name of the sighting.
  pub get-upsert :
      (m : Peers) (s : Sighting) (now : ℕ)
      → let r = upsert to_string m s now in
        get r.0 (peer_id s.fingerprint) ≡ (
          if r.1.is_listed
          then some (record { addr = s.addr; fingerprint = s.fingerprint; name = alias_of s.alias })
          else none)
  unfolding upsert sukkula.Peers.peer_of
  get-upsert m s now =
      get_lem ((upsert to_string m s now).0) s.fingerprint
      ∙ upsert_at-target m s now (lookup same_text s.fingerprint m) refl
