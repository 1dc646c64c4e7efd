-- ===== src/Peers/Bounded.antt =====
-- `Peers` of peers.rs: how many there are, under what they are kept, and which one goes for another.
use mathlib.Core.Path.{subst}
use sukkula.Base.{
  ℕ, ◌+◌, ◌≤◌, ◌<◌, ◌≡◌, ◌⊎◌, refl, sym, inl, inr, Bool, true, false, Option, none, some, List, [],
  ◌∷◌, Str, arith, length, filter, All, map, max,
}
use sukkula.Base.Assoc.{
  lookup, insert, remove, IsMap, count-filter, count-insert_known, All-filter, All-remove,
  All-insert, filter-IsMap, insert-IsMap, lookup-insert_other,
}
use sukkula.Addr.{SocketAddr, same_ip, same_text, same_ip-IsTest, same_text-IsTest}
use sukkula.Limits.{max_peers}
use sukkula.Reach.{IpAddr}
use sukkula.Room.{Room, make_room, settle_in, count}
use sukkula.Room.Fair.{IsFair}
use sukkula.Room.Table.{settle_in-IsSettled, settle_in-IsFair, length-filter_all, length-map}
use sukkula.Peers.{
  Entry, Peers, Sighting, Call, peer_id, peer_of, entry_of, peer_slot, upsert_at, upsert, is_fresh,
  expire, clear, call, calls, max_peers_per_ip,
}

-- An entry is kept under the fingerprint to pin, and is shown under the id made of it.
unfoldable pub IsKeyed : Str × Entry → Type 0
IsKeyed p = (p.1.target.fingerprint ≡ p.0) × (p.1.peer.id ≡ peer_id p.0)

-- How many peers there are at an address.
abbrev pub held_at : IpAddr → Peers → ℕ
held_at ip m = count same_ip ip (map peer_slot m)

-- What holds of the table whatever was done.
pub record IsPeers (m : Peers) : Type 0 where
  pub distinct : IsMap same_text m
  pub few : length m ≤ max_peers
  pub keyed : All IsKeyed m

filter-IsPeers : (q : Str × Entry → Bool) (m : Peers) → IsPeers m → IsPeers (filter q m)
filter-IsPeers q m v = record {
  distinct = filter-IsMap same_text q m v.distinct;
  few = omega (
    arith,
    length-filter_all (filter q m),
    length-filter_all m,
    count-filter same_text (λ p. true) q m,
    v.few,
  );
  keyed = All-filter same_text IsKeyed q m v.keyed;
}

entry_of-IsKeyed :
    (to_string : SocketAddr → Str) (s : Sighting) (now : ℕ)
    → IsKeyed (s.fingerprint, entry_of to_string s now)
unfolding IsKeyed peer_of
entry_of-IsKeyed to_string s now = (refl, refl)

settle_in-IsKeyed :
    (r : Room Str) (k : Str) (e : Entry) (m : Peers)
    → IsKeyed (k, e)
    → All IsKeyed m
    → All IsKeyed (settle_in same_text r k e m)
settle_in-IsKeyed Room.free k e m h a = All-insert same_text same_text-IsTest IsKeyed k e m h a
settle_in-IsKeyed Room.full k e m h a = a
settle_in-IsKeyed (Room.replace j) k e m h a =
    All-insert same_text same_text-IsTest IsKeyed k e (remove same_text j m) h
      (All-remove same_text IsKeyed j m a)

-- An entry may go for a peer at an address: either it is at that address, which has its share, or the
-- table is full and its address has two more peers.
pub MayGo : Peers → IpAddr → Entry → Type 0
MayGo m ip e =
    ((same_ip e.target.addr.ip ip ≡ true) × (max_peers_per_ip ≤ held_at ip m))
    ⊎ ((held_at ip m < max_peers_per_ip)
        × (max_peers ≤ length m)
        × (held_at ip m + 2 ≤ held_at e.target.addr.ip m))

fair-MayGo :
    (m : Peers) (ip : IpAddr) (k : Str) (e : Entry)
    → IsFair same_ip (map peer_slot m) ip 0 max_peers max_peers_per_ip (peer_slot (k, e))
    → MayGo m ip e
unfolding IsFair MayGo
fair-MayGo m ip k e (r, inl own) = inl own
fair-MayGo m ip k e (r, inr (a, b, inl low)) = absurd (omega (arith, low))
fair-MayGo m ip k e (r, inr (a, b, inr more)) =
    inr (a, subst (λ n. max_peers ≤ n) (length-map peer_slot m) b, more)

module _ (to_string : SocketAddr → Str) where
  upsert_at-IsPeers :
      (m : Peers) (s : Sighting) (now : ℕ) (o : Option Entry)
      → lookup same_text s.fingerprint m ≡ o
      → IsPeers m
      → IsPeers ((upsert_at to_string m s now o).0)
  upsert_at-IsPeers m s now (some old) h v =
      let k = s.fingerprint in
      let e = entry_of to_string s now in
      record {
        distinct = insert-IsMap same_text same_text-IsTest k e m v.distinct;
        few = omega (
          arith,
          length-filter_all (insert same_text k e m),
          length-filter_all m,
          count-insert_known same_text same_text-IsTest (λ p. true) k e old m h,
          v.few,
        );
        keyed =
            All-insert same_text same_text-IsTest IsKeyed k e m (entry_of-IsKeyed to_string s now)
              v.keyed;
      }
  upsert_at-IsPeers m s now none h v =
      let k = s.fingerprint in
      let e = entry_of to_string s now in
      let r =
        settle_in-IsSettled same_ip same_text same_ip-IsTest same_text-IsTest peer_slot (λ p. refl)
          m s.addr.ip k e 0 max_peers max_peers_per_ip v.distinct v.few h refl in
      record {
        distinct = r.distinct;
        few = r.few;
        keyed =
            settle_in-IsKeyed
              (make_room same_ip (map peer_slot m) s.addr.ip 0 max_peers max_peers_per_ip) k e m
              (entry_of-IsKeyed to_string s now) v.keyed;
      }

  pub call-IsPeers : (m : Peers) (c : Call) → IsPeers m → IsPeers (call to_string m c)
  unfolding call upsert expire clear
  call-IsPeers m (Call.seeing s now) v =
      upsert_at-IsPeers m s now (lookup same_text s.fingerprint m) refl v
  call-IsPeers m (Call.expiring now) v = filter-IsPeers (is_fresh now) m v
  call-IsPeers m Call.clearing v = record { distinct = tt; few = omega arith; keyed = tt }

  calls-IsPeers_from : (m : Peers) (cs : List Call) → IsPeers m → IsPeers (calls to_string m cs)
  unfolding calls
  calls-IsPeers_from m [] v = v
  calls-IsPeers_from m (c ∷ cs) v = calls-IsPeers_from (call to_string m c) cs (call-IsPeers m c v)

  -- Whatever the calls, no fingerprint is listed twice, there are at most 64 peers, and each is kept
  -- under the fingerprint to pin and shown under the id made of it.
  pub calls-IsPeers : (cs : List Call) → IsPeers (calls to_string [] cs)
  calls-IsPeers cs =
      calls-IsPeers_from [] cs (record { distinct = tt; few = omega arith; keyed = tt })

  -- A fingerprint that is not listed yet adds to no address that has its share of four peers.
  pub upsert_new-held :
      (m : Peers) (s : Sighting) (now : ℕ) (ip : IpAddr)
      → IsPeers m
      → lookup same_text s.fingerprint m ≡ none
      → held_at ip ((upsert to_string m s now).0) ≤ max max_peers_per_ip (held_at ip m)
  unfolding upsert
  upsert_new-held m s now ip v h =
      subst
        (λ o. held_at ip ((upsert_at to_string m s now o).0) ≤ max max_peers_per_ip (held_at ip m))
        (sym h)
        ((settle_in-IsSettled same_ip same_text same_ip-IsTest same_text-IsTest peer_slot
            (λ p. refl) m s.addr.ip s.fingerprint (entry_of to_string s now) 0 max_peers
            max_peers_per_ip v.distinct v.few h refl).share
          ip)

  upsert_at-MayGo :
      (m : Peers) (s : Sighting) (now : ℕ) (k : Str) (o : Option Entry)
      → IsPeers m
      → same_text s.fingerprint k ≡ false
      → (lookup same_text k ((upsert_at to_string m s now o).0) ≡ lookup same_text k m)
        ⊎ ((e : Entry) × (lookup same_text k m ≡ some e) × MayGo m s.addr.ip e)
  upsert_at-MayGo m s now k (some old) v n = inl (
      lookup-insert_other same_text same_text-IsTest s.fingerprint k (entry_of to_string s now) m n)
  upsert_at-MayGo m s now k none v n =
      elim (settle_in-IsFair same_ip same_text same_ip-IsTest same_text-IsTest peer_slot (λ p. refl)
        m s.addr.ip s.fingerprint (entry_of to_string s now) 0 max_peers max_peers_per_ip k
        v.distinct n) [ inl e ↦ inl e | inr e ↦ inr (e.0, e.1, fair-MayGo m s.addr.ip k e.0 e.2) ]

  -- When a peer is seen, each other peer stays as it was, or it is one that may go: either it is at the
  -- same address as the one that was seen and that address has its share of four, or the table is full
  -- and its address has two more peers than the one of the peer that was seen.
  pub upsert-MayGo :
      (m : Peers) (s : Sighting) (now : ℕ) (k : Str)
      → IsPeers m
      → same_text s.fingerprint k ≡ false
      → (lookup same_text k ((upsert to_string m s now).0) ≡ lookup same_text k m)
        ⊎ ((e : Entry) × (lookup same_text k m ≡ some e) × MayGo m s.addr.ip e)
  unfolding upsert
  upsert-MayGo m s now k v n = upsert_at-MayGo m s now k (lookup same_text s.fingerprint m) v n
