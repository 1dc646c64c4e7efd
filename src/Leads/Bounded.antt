-- ===== src/Leads/Bounded.antt =====
-- `Leads` of peers.rs: how many there are, how often each was tried, and which one goes for another.
use sukkula.Base.{
  ℕ, ◌+◌, ◌≤◌, ◌<◌, ◌≡◌, refl, inl, inr, Bool, true, Option, none, some, List, [], ◌∷◌, arith, leb,
  length, filter, All, Bool-cases, map, min, ◌||◌,
}
use sukkula.Base.Assoc.{
  IsTest, lookup, insert, remove, IsMap, count-filter, count-remove_le, count-insert_known,
  All-filter, All-remove, All-insert, lookup-All, filter-IsMap, remove-IsMap, insert-IsMap,
}
use sukkula.Addr.{same_ip, same_ip-IsTest, same_addr-IsTest, same_text-IsTest}
use sukkula.Reach.{IpAddr}
use sukkula.Room.{Room, make_room, settle_in, count}
use sukkula.Room.Table.{settle_in-IsSettled, length-filter-map, length-filter_all}
use sukkula.Leads.{
  Lead, Key, Leads, Call, same_key, lead_slot, rank_of, new_lead, add_at, add, is_young, due,
  settle, missed_at, missed, call, calls, max_leads, max_leads_per_ip, max_lead_tries,
}

same_key_sound : (a b : Key) → same_key a b ≡ true → a ≡ b
same_key_sound a b h =
    let e = same_addr-IsTest.sound a.0 b.0 (ground (arith, h)) in
    let f = same_text-IsTest.sound a.1 b.1 (ground (arith, h)) in λ i. (e i, f i)

pub same_key-IsTest : IsTest same_key
same_key-IsTest = record {
  same_self = λ a. ground (arith, same_addr-IsTest.same_self a.0, same_text-IsTest.same_self a.1);
  sound = same_key_sound;
}

-- How many leads there are for an address.
abbrev pub held_by : IpAddr → Leads → ℕ
held_by ip m = count same_ip ip (map lead_slot m)

-- What holds of the leads whatever was done.
pub record IsLeads (m : Leads) : Type 0 where
  pub distinct : IsMap same_key m
  pub few : length m ≤ max_leads
  pub share : (ip : IpAddr) → held_by ip m ≤ max_leads_per_ip
  pub tried : All (λ (p : Key × Lead). p.1.tries < max_lead_tries) m

held-filter :
    (ip : IpAddr) (q : Key × Lead → Bool) (m : Leads) → held_by ip (filter q m) ≤ held_by ip m
held-filter ip q m = omega (
  arith,
  length-filter-map lead_slot (λ s. same_ip s.ip ip) (filter q m),
  length-filter-map lead_slot (λ s. same_ip s.ip ip) m,
  count-filter same_key (λ p. same_ip (lead_slot p).ip ip) q m,
)

length-filter_le : (q : Key × Lead → Bool) (m : Leads) → length (filter q m) ≤ length m
length-filter_le q m = omega (
  arith,
  length-filter_all (filter q m),
  length-filter_all m,
  count-filter same_key (λ p. true) q m,
)

filter-IsLeads : (q : Key × Lead → Bool) (m : Leads) → IsLeads m → IsLeads (filter q m)
filter-IsLeads q m v = record {
  distinct = filter-IsMap same_key q m v.distinct;
  few = omega (arith, length-filter_le q m, v.few);
  share = λ ip. omega (arith, held-filter ip q m, v.share ip);
  tried = All-filter same_key (λ p. p.1.tries < max_lead_tries) q m v.tried;
}

remove-IsLeads : (k : Key) (m : Leads) → IsLeads m → IsLeads (remove same_key k m)
remove-IsLeads k m v = record {
  distinct = remove-IsMap same_key k m v.distinct;
  few = omega (
    arith,
    length-filter_all (remove same_key k m),
    length-filter_all m,
    count-remove_le same_key (λ p. true) k m,
    v.few,
  );
  share = λ ip. omega (
    arith,
    length-filter-map lead_slot (λ s. same_ip s.ip ip) (remove same_key k m),
    length-filter-map lead_slot (λ s. same_ip s.ip ip) m,
    count-remove_le same_key (λ p. same_ip (lead_slot p).ip ip) k m,
    v.share ip,
  );
  tried = All-remove same_key (λ p. p.1.tries < max_lead_tries) k m v.tried;
}

-- A lead that is kept already is changed in its place.
change-IsLeads :
    (k : Key) (l l' : Lead) (m : Leads)
    → lookup same_key k m ≡ some l
    → l'.tries < max_lead_tries
    → IsLeads m
    → IsLeads (insert same_key k l' m)
change-IsLeads k l l' m h t v = record {
  distinct = insert-IsMap same_key same_key-IsTest k l' m v.distinct;
  few = omega (
    arith,
    length-filter_all (insert same_key k l' m),
    length-filter_all m,
    count-insert_known same_key same_key-IsTest (λ p. true) k l' l m h,
    v.few,
  );
  share = λ ip. omega (
    arith,
    length-filter-map lead_slot (λ s. same_ip s.ip ip) (insert same_key k l' m),
    length-filter-map lead_slot (λ s. same_ip s.ip ip) m,
    count-insert_known same_key same_key-IsTest (λ p. same_ip (lead_slot p).ip ip) k l' l m h,
    v.share ip,
  );
  tried = All-insert same_key same_key-IsTest (λ p. p.1.tries < max_lead_tries) k l' m t v.tried;
}

settle_in-tried :
    (r : Room Key) (k : Key) (l : Lead) (m : Leads)
    → l.tries < max_lead_tries
    → All (λ (p : Key × Lead). p.1.tries < max_lead_tries) m
    → All (λ (p : Key × Lead). p.1.tries < max_lead_tries) (settle_in same_key r k l m)
settle_in-tried Room.free k l m t h =
    All-insert same_key same_key-IsTest (λ p. p.1.tries < max_lead_tries) k l m t h
settle_in-tried Room.full k l m t h = h
settle_in-tried (Room.replace j) k l m t h =
    All-insert same_key same_key-IsTest (λ p. p.1.tries < max_lead_tries) k l (remove same_key j m)
      t (All-remove same_key (λ p. p.1.tries < max_lead_tries) j m h)

add_at-IsLeads :
    (m : Leads) (k : Key) (is_proven : Bool) (now : ℕ) (o : Option Lead)
    → lookup same_key k m ≡ o
    → IsLeads m
    → IsLeads ((add_at m k is_proven now o).0)
add_at-IsLeads m k is_proven now (some l) h v =
    change-IsLeads k l (record l { is_proven = l.is_proven || is_proven }) m h
      (lookup-All same_key same_key-IsTest (λ p. p.1.tries < max_lead_tries) k l m h v.tried) v
add_at-IsLeads m k is_proven now none h v =
    let s =
      settle_in-IsSettled same_ip same_key same_ip-IsTest same_key-IsTest lead_slot (λ p. refl) m
        k.0.ip k (new_lead is_proven now) (rank_of is_proven) max_leads max_leads_per_ip v.distinct
        v.few h refl in
    record {
      distinct = s.distinct;
      few = s.few;
      share = λ ip. omega (arith, s.share ip, v.share ip);
      tried =
          settle_in-tried
            (make_room same_ip (map lead_slot m) k.0.ip (rank_of is_proven) max_leads
              max_leads_per_ip)
            k (new_lead is_proven now) m (omega arith) v.tried;
    }

pub missed_at-IsLeads :
    (m : Leads) (k : Key) (o : Option Lead)
    → lookup same_key k m ≡ o
    → IsLeads m
    → IsLeads (missed_at m k o)
missed_at-IsLeads m k none h v = v
missed_at-IsLeads m k (some l) h v =
    elim (Bool-cases (leb max_lead_tries (min 255 (l.tries + 1)))) [
      | inl e ↦ rw e (remove-IsLeads k m v)
      | inr e ↦ rw e (
          change-IsLeads k l (record l { tries = min 255 (l.tries + 1) }) m h (ground (arith, e)) v)
    ]

call-IsLeads : (m : Leads) (c : Call) → IsLeads m → IsLeads (call m c)
unfolding call add due settle missed
call-IsLeads m (Call.adding addr fingerprint is_proven now) v =
    add_at-IsLeads m (addr, fingerprint) is_proven now (lookup same_key (addr, fingerprint) m) refl
      v
call-IsLeads m (Call.a_round now) v = filter-IsLeads (is_young now) m v
call-IsLeads m (Call.settling addr fingerprint) v = remove-IsLeads (addr, fingerprint) m v
call-IsLeads m (Call.missing addr fingerprint) v =
    missed_at-IsLeads m (addr, fingerprint) (lookup same_key (addr, fingerprint) m) refl v

calls-IsLeads_from : (m : Leads) (cs : List Call) → IsLeads m → IsLeads (calls m cs)
unfolding calls
calls-IsLeads_from m [] v = v
calls-IsLeads_from m (c ∷ cs) v = calls-IsLeads_from (call m c) cs (call-IsLeads m c v)

-- Whatever the calls, no lead is kept twice, there are at most 32 leads and at most 4 for one address,
-- and each was missed fewer than three times.
pub calls-IsLeads : (cs : List Call) → IsLeads (calls [] cs)
calls-IsLeads cs =
    calls-IsLeads_from [] cs
      (record { distinct = tt; few = omega arith; share = λ ip. omega arith; tried = tt })
