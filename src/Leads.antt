-- ===== src/Leads.antt =====
-- crates/sukkula-engine/src/localsend/peers.rs: `Leads`, the servers that the fallback registers
-- with. Instants and durations are in milliseconds.
pub mod Bounded
pub mod Gone
pub mod Tests
use sukkula.Base.{
  ℕ, ◌+◌, ◌-◌, ◌*◌, Bool, true, false, not, ◌&&◌, ◌||◌, Option, none, some, List, [], ◌∷◌, Str, ltb,
  leb, if◌then◌else◌, map, filter, min,
}
use sukkula.Base.Assoc.{lookup, insert, remove}
use sukkula.Addr.{SocketAddr, same_ip, same_addr, same_text}
use sukkula.Reach.{IpAddr}
use sukkula.Room.{Slot, Room, make_room, settle_in}

abbrev pub max_leads : ℕ
max_leads = 32

abbrev pub max_leads_per_ip : ℕ
max_leads_per_ip = 4

abbrev pub max_lead_tries : ℕ
max_lead_tries = 3

abbrev pub lead_ttl : ℕ
lead_ttl = 600 * 1000

-- A lead, and what it is kept under: an address and the fingerprint to pin there.
pub record Lead : Type 0 where
  pub is_proven : Bool
  pub tries : ℕ
  pub since : ℕ

abbrev pub Key : Type 0
Key = SocketAddr × Str

abbrev pub Leads : Type 0
Leads = List (Key × Lead)

abbrev pub same_key : Key → Key → Bool
same_key a b = same_addr a.0 b.0 && same_text a.1 b.1

abbrev pub rank_of : Bool → ℕ
rank_of is_proven = if is_proven then 1 else 0

abbrev pub lead_slot : Key × Lead → Slot Key IpAddr
lead_slot p = record { key = p.0; ip = p.0.0.ip; rank = rank_of p.1.is_proven; seen = p.1.since }

abbrev pub new_lead : Bool → ℕ → Lead
new_lead is_proven now = record { is_proven = is_proven; tries = 0; since = now }

abbrev pub is_full : Room Key → Bool
is_full Room.full = true
is_full Room.free = false
is_full (Room.replace k) = false

-- `add` for a lead that is kept already, and for another.
abbrev pub add_at : Leads → Key → Bool → ℕ → Option Lead → Leads × Bool
add_at m key is_proven now (some lead) =
    (insert same_key key (record lead { is_proven = lead.is_proven || is_proven }) m, true)
add_at m key is_proven now none =
    let room =
      make_room same_ip (map lead_slot m) key.0.ip (rank_of is_proven) max_leads max_leads_per_ip in
    (settle_in same_key room key (new_lead is_proven now) m, not (is_full room))

unfoldable pub add : Leads → SocketAddr → Str → Bool → ℕ → Leads × Bool
add m addr fingerprint is_proven now =
    add_at m (addr, fingerprint) is_proven now (lookup same_key (addr, fingerprint) m)

-- Which leads `due` retains.
abbrev pub is_young : ℕ → Key × Lead → Bool
is_young now p = ltb (now - p.1.since) lead_ttl

unfoldable pub due : Leads → ℕ → Leads × List Key
due m now = let kept = filter (is_young now) m in (kept, map (λ p. p.0) kept)

unfoldable pub settle : Leads → SocketAddr → Str → Leads
settle m addr fingerprint = remove same_key (addr, fingerprint) m

-- `tries` is a `u8`.
abbrev pub missed_at : Leads → Key → Option Lead → Leads
missed_at m key none = m
missed_at m key (some lead) =
    let tries = min 255 (lead.tries + 1) in
    if leb max_lead_tries tries
    then remove same_key key m
    else insert same_key key (record lead { tries = tries }) m

unfoldable pub missed : Leads → SocketAddr → Str → Leads
missed m addr fingerprint = missed_at m (addr, fingerprint) (lookup same_key (addr, fingerprint) m)

-- The calls, in any order.
pub data Call : Type 0 where
  adding : SocketAddr → Str → Bool → ℕ → Call
  a_round : ℕ → Call
  settling : SocketAddr → Str → Call
  missing : SocketAddr → Str → Call

pub call : Leads → Call → Leads
call m (Call.adding addr fingerprint is_proven now) = (add m addr fingerprint is_proven now).0
call m (Call.a_round now) = (due m now).0
call m (Call.settling addr fingerprint) = settle m addr fingerprint
call m (Call.missing addr fingerprint) = missed m addr fingerprint

unfoldable pub calls : Leads → List Call → Leads
unfolding call
calls m [] = m
calls m (c ∷ cs) = calls (call m c) cs
