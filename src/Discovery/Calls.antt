-- ===== src/Discovery/Calls.antt =====
-- What each call of mod.rs changes in the table of peers, and tells the UI of it.
use mathlib.Core.Path.{subst}
use sukkula.Base.{
  ℕ, ◌≡◌, refl, sym, ◌∙◌, ap, inl, inr, Bool, false, Option, none, some, List, [], ◌∷◌, ◌++◌, Str,
  arith, if◌then◌else◌, map, filter, Bool-cases, if-both,
}
use sukkula.Base.Assoc.{lookup, insert, remove, lookup-All}
use sukkula.Addr.{SocketAddr, same_ip, same_text, same_text-IsTest}
use sukkula.Limits.{max_peers}
use sukkula.Room.{Room, make_room, settle_in}
use sukkula.Peers.{
  Call as PeerCall, Peer, Target, Entry, Peers, Sighting, Upsert, peer_id, peer_of, entry_of,
  peer_slot, same_peer, id_of, lost_for, found_in, upsert_at, upsert, is_fresh, expire, clear,
  max_peers_per_ip,
}
use sukkula.Peers.Bounded.{IsKeyed, IsPeers, call-IsPeers}
use sukkula.Discovery.{
  Event, Shared, Call, Todo, lost_event, found_event, emissions, after_upsert, saw_listed, saw_peer,
  lost_events, expire_peers, clear_peers, call,
}
use sukkula.Discovery.Ui.{
  Ui, hear_all, hear_all-append, hear_all-IsMap, lookup-lost_events, gone_ids, fails, passing,
  any-gone_ids, lookup-filter,
}
use sukkula.Discovery.Shown.{
  IsShown, peer_at, insert-IsShown, keep-IsShown, remove-IsShown, same_peer_sound,
}
use sukkula.Discovery.Pending.{events_of, events_of-all, events_of-emissions, silent_after}

-- What the UI hears of an `upsert`.
upsert_events : Upsert → List Event
upsert_events u = lost_event u.lost ++ found_event u.found

entry_of-id :
    (to_string : SocketAddr → Str) (s : Sighting) (now : ℕ)
    → (entry_of to_string s now).peer.id ≡ peer_id s.fingerprint
unfolding peer_of
entry_of-id to_string s now = refl

remove-absent : (k : Str) (m : Peers) → lookup same_text k m ≡ none → remove same_text k m ≡ m
remove-absent k [] h = refl
remove-absent k ((j, e) ∷ m) h = elim (Bool-cases (same_text j k)) [
  | inl f ↦ ground (arith, h, f)
  | inr f ↦ rw f (ap (λ x. (j, e) ∷ x) (remove-absent k m (ground (arith, h, f))))
]

passing-peer :
    (q : Str × Entry → Bool) (k : Str) (o : Option Entry)
    → (if fails q k o then none else peer_at o) ≡ peer_at (passing q k o)
passing-peer q k none = refl
passing-peer q k (some e) = elim (Bool-cases (q (k, e))) [ inl f ↦ rw f refl | inr f ↦ rw f refl ]

-- An entry that is not there is not taken out.
absent-IsShown :
    (ui : Ui) (m : Peers) (k : Str)
    → lookup same_text k m ≡ none
    → IsShown ui m
    → IsShown ui (remove same_text k m)
absent-IsShown ui m k h v = subst (λ x. IsShown ui x) (sym (remove-absent k m h)) v

victim-IsShown :
    (ui : Ui) (m : Peers) (victim : Str) (o : Option Entry)
    → lookup same_text victim m ≡ o
    → IsPeers m
    → IsShown ui m
    → IsShown (hear_all ui (lost_event (id_of o))) (remove same_text victim m)
unfolding IsKeyed
victim-IsShown ui m victim none h p v = absent-IsShown ui m victim h v
victim-IsShown ui m victim (some w) h p v =
    subst (λ x. IsShown (remove same_text x ui) (remove same_text victim m))
      (sym (lookup-All same_text same_text-IsTest IsKeyed victim w m h p.keyed).1)
      (remove-IsShown ui m victim p.distinct v)

room-IsShown :
    (ui : Ui) (m : Peers) (k : Str) (e : Entry) (r : Room Str)
    → e.peer.id ≡ peer_id k
    → IsPeers m
    → IsShown ui m
    → IsShown (hear_all ui (upsert_events (found_in r e.peer m))) (settle_in same_text r k e m)
unfolding upsert_events
room-IsShown ui m k e Room.free h p v = insert-IsShown ui m k e h v
room-IsShown ui m k e Room.full h p v = v
room-IsShown ui m k e (Room.replace victim) h p v =
    let o = lookup same_text victim m in
    let lost = lost_event (id_of o) in
    subst (λ x. IsShown x (insert same_text k e (remove same_text victim m)))
      (sym (hear_all-append ui lost (Event.peer_found e.peer ∷ [])))
      (insert-IsShown (hear_all ui lost) (remove same_text victim m) k e h
        (victim-IsShown ui m victim o refl p v))

all_ids : (m : Peers) → gone_ids (λ p. false) m ≡ map (λ p. p.0) ((clear m).1)
unfolding clear
all_ids [] = refl
all_ids ((k, e) ∷ m) = ap (λ ids. e.peer.id ∷ ids) (all_ids m)

none_left : (m : Peers) → filter (λ p. false) m ≡ []
none_left [] = refl
none_left (p ∷ m) = none_left m

module _ (to_string : SocketAddr → Str) where
  upsert_at-IsShown :
      (ui : Ui) (m : Peers) (s : Sighting) (now : ℕ) (o : Option Entry)
      → lookup same_text s.fingerprint m ≡ o
      → IsPeers m
      → IsShown ui m
      → IsShown
          (hear_all ui (upsert_events (upsert_at to_string m s now o).1))
          ((upsert_at to_string m s now o).0)
  unfolding upsert_events
  upsert_at-IsShown ui m s now none h p v =
      room-IsShown ui m s.fingerprint (entry_of to_string s now)
        (make_room same_ip (map peer_slot m) s.addr.ip 0 max_peers max_peers_per_ip)
        (entry_of-id to_string s now) p v
  upsert_at-IsShown ui m s now (some old) h p v =
      let e = entry_of to_string s now in
      elim (Bool-cases (same_peer old.peer e.peer)) [
        | inl f ↦
            rw f (keep-IsShown ui m s.fingerprint old e h (same_peer_sound old.peer e.peer f) v)
        | inr f ↦ rw f (insert-IsShown ui m s.fingerprint e (entry_of-id to_string s now) v)
      ]

  -- Entries that fail a test go, and the UI hears of each.
  filter-IsShown :
      (ui : Ui) (m : Peers) (q : Str × Entry → Bool)
      → IsPeers m
      → IsShown ui m
      → IsShown (hear_all ui (lost_events (gone_ids q m))) (filter q m)
  filter-IsShown ui m q p v = record {
    distinct = hear_all-IsMap ui (lost_events (gone_ids q m)) v.distinct;
    shows = λ k.
        lookup-lost_events (gone_ids q m) ui (peer_id k) v.distinct
        ∙ ap (λ b. if b then none else lookup same_text (peer_id k) ui)
            (any-gone_ids q k m p.distinct p.keyed)
        ∙ ap (λ x. if fails q k (lookup same_text k m) then none else x) (v.shows k)
        ∙ passing-peer q k (lookup same_text k m)
        ∙ sym (ap peer_at (lookup-filter q k m p.distinct));
  }

  clear-IsShown :
      (ui : Ui) (m : Peers)
      → IsPeers m
      → IsShown ui m
      → IsShown (hear_all ui (lost_events (map (λ p. p.0) (clear m).1))) ((clear m).0)
  unfolding clear
  clear-IsShown ui m p v =
      subst (λ ids. IsShown (hear_all ui (lost_events ids)) []) (all_ids m)
        (subst (λ x. IsShown (hear_all ui (lost_events (gone_ids (λ p. false) m))) x) (none_left m)
          (filter-IsShown ui m (λ p. false) p v))

  -- What holds after each call: the table is well formed, and the UI lists what it has once it heard
  -- what the call has to tell.
  abbrev pub IsTold : Ui → Shared × List Todo → Type 0
  IsTold ui r = IsPeers r.0.peers × IsShown (hear_all ui (events_of r.1)) r.0.peers

  events-IsTold :
      (ui : Ui) (x : Shared) (es : List Event) (ts : List Todo)
      → events_of ts ≡ es
      → IsPeers x.peers
      → IsShown (hear_all ui es) x.peers
      → IsTold ui (x, ts)
  events-IsTold ui x es ts e p v = (p, subst (λ l. IsShown (hear_all ui l) x.peers) (sym e) v)

  saw_listed-IsTold :
      (ui : Ui) (x : Shared) (s : Sighting) (now : ℕ)
      → IsPeers x.peers
      → IsShown ui x.peers
      → IsTold ui (saw_listed x s now (upsert to_string x.peers s now))
  unfolding upsert upsert_events sukkula.Peers.call
  saw_listed-IsTold ui x s now p v =
      let r = upsert to_string x.peers s now in
      events-IsTold ui (record x { peers = r.0 }) (upsert_events r.1)
        (emissions (upsert_events r.1) ++ (after_upsert s now r.1.is_listed ∷ []))
        (events_of-emissions (upsert_events r.1) (after_upsert s now r.1.is_listed)
          (silent_after s now r.1.is_listed))
        (call-IsPeers to_string x.peers (PeerCall.seeing s now) p)
        (upsert_at-IsShown ui x.peers s now (lookup same_text s.fingerprint x.peers) refl p v)

  pub call-IsTold :
      (ui : Ui) (x : Shared) (c : Call)
      → IsPeers x.peers
      → IsShown ui x.peers
      → IsTold ui (call to_string x c)
  unfolding call saw_peer expire_peers clear_peers expire clear sukkula.Peers.call
  call-IsTold ui x (Call.seeing is_discovering s now) p v =
      if-both (λ r. IsTold ui r) is_discovering
        (saw_listed x s now (upsert to_string x.peers s now))
        (x, Todo.adding s.addr s.fingerprint now ∷ []) (saw_listed-IsTold ui x s now p v) (p, v)
  call-IsTold ui x (Call.expiring now) p v =
      events-IsTold ui (record x { peers = (expire x.peers now).0 })
        (lost_events (expire x.peers now).1) (emissions (lost_events (expire x.peers now).1))
        (events_of-all (lost_events (expire x.peers now).1))
        (call-IsPeers to_string x.peers (PeerCall.expiring now) p)
        (filter-IsShown ui x.peers (is_fresh now) p v)
  call-IsTold ui x (Call.clearing now) p v =
      let ids = map (λ (p : Str × Target). p.0) (clear x.peers).1 in
      events-IsTold ui (record x { peers = (clear x.peers).0 }) (lost_events ids)
        (Todo.adding_all ((clear x.peers).1) now ∷ emissions (lost_events ids))
        (events_of-all (lost_events ids)) (call-IsPeers to_string x.peers PeerCall.clearing p)
        (clear-IsShown ui x.peers p v)
