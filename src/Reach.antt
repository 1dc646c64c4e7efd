-- ===== src/Reach.antt =====
-- crates/sukkula-core/src/reach.rs: which peers are answered, and how often.
pub mod Ranges
pub mod Limiter
pub mod Bounded
pub mod First
pub mod Tests
use Prim.Native.Nat.{bit_and}
use sukkula.Base.{
  ℕ, ◌+◌, ◌-◌, ◌*◌, ◌/◌, ◌%◌, Bool, true, false, not, ◌&&◌, ◌||◌, Option, none, some, List, [], ◌∷◌,
  ltb, leb, ◌==◌, if◌then◌else◌, length, max,
}
use sukkula.Limits.{rate_limit_entries}

-- `Ipv4Addr` by its octets, `Ipv6Addr` by its segments.
pub record Ipv4Addr : Type 0 where
  pub a : ℕ
  pub b : ℕ
  pub c : ℕ
  pub d : ℕ

pub record Ipv6Addr : Type 0 where
  pub s0 : ℕ
  pub s1 : ℕ
  pub s2 : ℕ
  pub s3 : ℕ
  pub s4 : ℕ
  pub s5 : ℕ
  pub s6 : ℕ
  pub s7 : ℕ

pub data IpAddr : Type 0 where
  v4 : Ipv4Addr → IpAddr
  v6 : Ipv6Addr → IpAddr

-- `is_loopback`, `is_private` and `is_link_local` of the standard library.
abbrev pub is_loopback_v4 : Ipv4Addr → Bool
is_loopback_v4 ip = ip.a == 127

abbrev pub is_private : Ipv4Addr → Bool
is_private ip =
    ip.a == 10 || (ip.a == 172 && leb 16 ip.b && leb ip.b 31) || (ip.a == 192 && ip.b == 168)

abbrev pub is_link_local : Ipv4Addr → Bool
is_link_local ip = ip.a == 169 && ip.b == 254

-- `to_ipv4_mapped`: `::ffff:a.b.c.d`.
abbrev pub leading_zeros : Ipv6Addr → Bool
leading_zeros ip = ip.s0 == 0 && ip.s1 == 0 && ip.s2 == 0 && ip.s3 == 0 && ip.s4 == 0

pub to_ipv4_mapped : Ipv6Addr → Option Ipv4Addr
to_ipv4_mapped ip =
    if leading_zeros ip && ip.s5 == 0xFFFF
    then some (record { a = ip.s6 / 256; b = ip.s6 % 256; c = ip.s7 / 256; d = ip.s7 % 256 })
    else none

abbrev pub is_loopback_v6 : Ipv6Addr → Bool
is_loopback_v6 ip = leading_zeros ip && ip.s5 == 0 && ip.s6 == 0 && ip.s7 == 1

pub permits_v4 : Bool → Ipv4Addr → Bool
permits_v4 allow_loopback ip =
    if is_loopback_v4 ip then allow_loopback else is_private ip || is_link_local ip

pub permits_v6 : Bool → Ipv6Addr → Bool
permits_v6 allow_loopback ip =
    if is_loopback_v6 ip
    then allow_loopback
    else bit_and ip.s0 0xFE00 == 0xFC00 || bit_and ip.s0 0xFFC0 == 0xFE80

pub permits_mapped : Bool → Ipv6Addr → Option Ipv4Addr → Bool
permits_mapped allow_loopback ip (some mapped) = permits_v4 allow_loopback mapped
permits_mapped allow_loopback ip none = permits_v6 allow_loopback ip

unfoldable pub permits : Bool → IpAddr → Bool
unfolding permits_v4 permits_v6 permits_mapped to_ipv4_mapped
permits allow_loopback (v4 ip) = permits_v4 allow_loopback ip
permits allow_loopback (v6 ip) = permits_mapped allow_loopback ip (to_ipv4_mapped ip)

-- The limiter, for addresses that a test compares. Times and the window are numbers of one unit.
pub record Bucket : Type 0 where
  pub tokens : ℕ
  pub refilled : ℕ

pub record RateLimiter (K : Type 0) : Type 0 where
  pub burst : ℕ
  pub window : ℕ
  pub buckets : List (K × Bucket)

unfoldable pub new_limiter : {K : Type 0} → ℕ → ℕ → RateLimiter K
new_limiter burst window = record { burst = max burst 1; window = window; buckets = [] }

pub retain : {K : Type 0} → ℕ → ℕ → List (K × Bucket) → List (K × Bucket)
retain window now [] = []
retain window now ((k, b) ∷ m) =
    let rest = retain window now m in if ltb (now - b.refilled) window then (k, b) ∷ rest else rest

-- Whether `a` comes before `b` in the order of `evict`, or is its equal.
abbrev pub is_at_most : Bucket → Bucket → Bool
is_at_most a b = ltb a.tokens b.tokens || (a.tokens == b.tokens && leb b.refilled a.refilled)

-- `max_by`: the last of the greatest.
pub victim : {K : Type 0} → K → Bucket → List (K × Bucket) → K × Bucket
victim k b [] = (k, b)
victim k b ((j, c) ∷ m) =
    let later = victim j c m in let kept = victim k b m in if is_at_most b c then later else kept

module _ {K : Type 0} (same : K → K → Bool) where
  pub find : K → List (K × Bucket) → Option Bucket
  find k [] = none
  find k ((j, b) ∷ m) = if same j k then some b else find k m

  pub put : K → Bucket → List (K × Bucket) → List (K × Bucket)
  put k b [] = (k, b) ∷ []
  put k b ((j, c) ∷ m) = let rest = put k b m in if same j k then (j, b) ∷ m else (j, c) ∷ rest

  pub forget : K → List (K × Bucket) → List (K × Bucket)
  forget k [] = []
  forget k ((j, b) ∷ m) = let rest = forget k m in if same j k then rest else (j, b) ∷ rest

  pub forget_victim : List (K × Bucket) → List (K × Bucket)
  unfolding forget victim
  forget_victim [] = []
  forget_victim ((k, b) ∷ m) = forget ((victim k b m).0) ((k, b) ∷ m)

  unfoldable pub evict : RateLimiter K → ℕ → RateLimiter K
  unfolding retain forget_victim
  evict l now =
      let fresh = retain l.window now l.buckets in
      record l {
        buckets = (if leb rate_limit_entries (length fresh) then forget_victim fresh else fresh);
      }

  -- `entry(ip).or_insert(..)`.
  abbrev pub entry : RateLimiter K → K → ℕ → Option Bucket → Bucket
  entry l k now none = record { tokens = l.burst; refilled = now }
  entry l k now (some b) = b

  abbrev pub refill : RateLimiter K → ℕ → Bucket → Bucket
  refill l now b =
      if leb l.window (now - b.refilled) then record { tokens = l.burst; refilled = now } else b

  -- The end of `allow`, on the bucket of the address.
  pub take_token : RateLimiter K → K → Bucket → RateLimiter K × Bool
  unfolding put
  take_token l k b =
      if b.tokens == 0
      then (record l { buckets = put k b l.buckets }, false)
      else (record l { buckets = put k (record b { tokens = b.tokens - 1 }) l.buckets }, true)

  abbrev pub is_known : K → List (K × Bucket) → Bool
  is_known k m = elim (find k m) [ none ↦ false | some b ↦ true ]

  -- Before the bucket is looked up: room for a new address.
  pub make_room : RateLimiter K → K → ℕ → RateLimiter K
  unfolding evict find
  make_room l k now =
      if not (is_known k l.buckets) && leb rate_limit_entries (length l.buckets)
      then evict l now
      else l

  unfoldable pub allow : RateLimiter K → K → ℕ → RateLimiter K × Bool
  unfolding make_room take_token find
  allow l k now =
      let l' = make_room l k now in
      take_token l' k (refill l' now (entry l' k now (find k l'.buckets)))
