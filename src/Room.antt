-- ===== src/Room.antt =====
-- crates/sukkula-engine/src/localsend/peers.rs: `make_room`, which says where a newcomer of a bounded
-- table goes. Instants are numbers of milliseconds.
pub mod Fair
pub mod Table
use sukkula.Base.{
  ℕ, ◌+◌, Bool, false, true, ◌&&◌, ◌||◌, Option, none, some, List, [], ◌∷◌, ltb, leb, ◌==◌,
  if◌then◌else◌, length, filter, min_by,
}
use sukkula.Base.Assoc.{insert, remove}

-- One entry of a bounded table, as `make_room` weighs it.
pub record Slot (K I : Type 0) : Type 0 where
  pub key : K
  pub ip : I
  pub rank : ℕ
  pub seen : ℕ

-- Where a newcomer goes.
pub data Room (K : Type 0) : Type 0 where
  free : Room K
  replace : K → Room K
  full : Room K

module _ {K I : Type 0} (same : I → I → Bool) where
  -- The entries for one address, and how many they are: `own` and `counts`.
  abbrev pub own : I → List (Slot K I) → List (Slot K I)
  own ip slots = filter (λ s. same s.ip ip) slots

  abbrev pub count : I → List (Slot K I) → ℕ
  count ip slots = length (own ip slots)

  -- Which entries a newcomer of a rank may replace in a full table, when its address holds `held`.
  abbrev pub gives_way : List (Slot K I) → ℕ → ℕ → Slot K I → Bool
  gives_way slots rank held s =
      ltb s.rank rank || (s.rank == rank && leb (held + 2) (count s.ip slots))

  -- The order among them: the weakest, then those of the address that holds the most, then the
  -- stalest.
  abbrev pub is_weaker : List (Slot K I) → Slot K I → Slot K I → Bool
  is_weaker slots a b =
      ltb a.rank b.rank
      || (a.rank == b.rank
          && (ltb (count b.ip slots) (count a.ip slots)
              || (count a.ip slots == count b.ip slots && ltb a.seen b.seen)))

  abbrev pub is_staler : Slot K I → Slot K I → Bool
  is_staler a b = ltb a.seen b.seen

  abbrev pub room_of : Option (Slot K I) → Room K
  room_of none = Room.full
  room_of (some s) = Room.replace s.key

  unfoldable pub make_room : List (Slot K I) → I → ℕ → ℕ → ℕ → Room K
  make_room slots ip rank cap per_ip =
      let held = count ip slots in
      if leb per_ip held
      then room_of (min_by is_staler (filter (λ s. leb s.rank rank) (own ip slots)))
      else if ltb (length slots) cap
      then Room.free
      else room_of (min_by (is_weaker slots) (filter (gives_way slots rank held) slots))

-- What the tables do with the answer: the entry it names is taken out, and the newcomer put in.
abbrev pub settle_in :
    {K V : Type 0} → (K → K → Bool) → Room K → K → V → List (K × V) → List (K × V)
settle_in same_key Room.free k v m = insert same_key k v m
settle_in same_key (Room.replace victim) k v m = insert same_key k v (remove same_key victim m)
settle_in same_key Room.full k v m = m
