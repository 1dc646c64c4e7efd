-- ===== src/Reach/Ranges.antt =====
-- The IPv4 peers that reach.rs answers, as ranges of 32-bit numbers.
use sukkula.Base.{ℕ, ◌+◌, ◌*◌, ◌≤◌, ◌<◌, ◌≡◌, ◌↔◌, ◌⊎◌, Bool, true, arith, inl, inr}
use sukkula.Reach.{Ipv4Addr, v4, permits_v4, permits}

-- An address whose octets are octets, as the number that it stands for.
pub record IsIpv4 (ip : Ipv4Addr) : Type 0 where
  pub a_octet : ip.a < 256
  pub b_octet : ip.b < 256
  pub c_octet : ip.c < 256
  pub d_octet : ip.d < 256

abbrev pub number : Ipv4Addr → ℕ
number ip = ip.a * 16777216 + ip.b * 65536 + ip.c * 256 + ip.d

abbrev pub Within : ℕ → ℕ → Ipv4Addr → Type 0
Within lo hi ip = (lo ≤ number ip) × (number ip < hi)

-- 10.0.0.0/8, 172.16.0.0/12, 192.168.0.0/16, 169.254.0.0/16, and 127.0.0.0/8 where it is allowed.
pub data IsNear (allow_loopback : Bool) (ip : Ipv4Addr) : Type 0 where
  ten : Within 0x0A000000 0x0B000000 ip → IsNear allow_loopback ip
  seventeen : Within 0xAC100000 0xAC200000 ip → IsNear allow_loopback ip
  nineteen : Within 0xC0A80000 0xC0A90000 ip → IsNear allow_loopback ip
  link_local : Within 0xA9FE0000 0xA9FF0000 ip → IsNear allow_loopback ip
  loopback : allow_loopback ≡ true → Within 0x7F000000 0x80000000 ip → IsNear allow_loopback ip

-- The same by the octets.
abbrev Octets : Bool → Ipv4Addr → Type 0
Octets allow ip =
    (ip.a ≡ 10)
    ⊎ ((ip.a ≡ 172) × (16 ≤ ip.b) × (ip.b ≤ 31))
    ⊎ ((ip.a ≡ 192) × (ip.b ≡ 168))
    ⊎ ((ip.a ≡ 169) × (ip.b ≡ 254))
    ⊎ ((allow ≡ true) × (ip.a ≡ 127))

permits_v4-Octets : (allow : Bool) (ip : Ipv4Addr) → permits_v4 allow ip ≡ true → Octets allow ip
unfolding permits_v4
permits_v4-Octets allow ip h = ground arith

Octets-permits_v4 : (allow : Bool) (ip : Ipv4Addr) → Octets allow ip → permits_v4 allow ip ≡ true
unfolding permits_v4
Octets-permits_v4 allow ip h = ground arith

Octets-IsNear : (allow : Bool) (ip : Ipv4Addr) → IsIpv4 ip → Octets allow ip → IsNear allow ip
Octets-IsNear allow ip v (inl e) =
    ten (
      omega (arith, v.b_octet, v.c_octet, v.d_octet),
      omega (arith, v.b_octet, v.c_octet, v.d_octet),
    )
Octets-IsNear allow ip v (inr (inl e)) =
    seventeen (omega (arith, e.0, e.1), omega (arith, e.0, e.2, v.c_octet, v.d_octet))
Octets-IsNear allow ip v (inr (inr (inl e))) =
    nineteen (omega (arith, e.0, e.1), omega (arith, e.0, e.1, v.c_octet, v.d_octet))
Octets-IsNear allow ip v (inr (inr (inr (inl e)))) =
    link_local (omega (arith, e.0, e.1), omega (arith, e.0, e.1, v.c_octet, v.d_octet))
Octets-IsNear allow ip v (inr (inr (inr (inr e)))) =
    loopback e.0 (omega (arith, e.1), omega (arith, e.1, v.b_octet, v.c_octet, v.d_octet))

IsNear-Octets : (allow : Bool) (ip : Ipv4Addr) → IsIpv4 ip → IsNear allow ip → Octets allow ip
IsNear-Octets allow ip v (ten w) = inl (omega (arith, w.0, w.1, v.b_octet, v.c_octet, v.d_octet))
IsNear-Octets allow ip v (seventeen w) =
    let e : ip.a ≡ 172 = omega (arith, w.0, w.1, v.b_octet, v.c_octet, v.d_octet) in
    inr (inl (e, omega (arith, w.0, e, v.c_octet, v.d_octet), omega (arith, w.1, e)))
IsNear-Octets allow ip v (nineteen w) =
    let e : ip.a ≡ 192 = omega (arith, w.0, w.1, v.b_octet, v.c_octet, v.d_octet) in
    inr (inr (inl (e, omega (arith, w.0, w.1, e, v.c_octet, v.d_octet))))
IsNear-Octets allow ip v (link_local w) =
    let e : ip.a ≡ 169 = omega (arith, w.0, w.1, v.b_octet, v.c_octet, v.d_octet) in
    inr (inr (inr (inl (e, omega (arith, w.0, w.1, e, v.c_octet, v.d_octet)))))
IsNear-Octets allow ip v (loopback h w) =
    inr (inr (inr (inr (h, omega (arith, w.0, w.1, v.b_octet, v.c_octet, v.d_octet)))))

-- An IPv4 peer is answered exactly when its address, as a 32-bit number, lies in 10.0.0.0/8,
-- 172.16.0.0/12, 192.168.0.0/16 or 169.254.0.0/16, or in 127.0.0.0/8 where loopback is allowed.
pub permits-IsNear :
    (allow_loopback : Bool) (ip : Ipv4Addr)
    → IsIpv4 ip
    → (permits allow_loopback (v4 ip) ≡ true) ↔ IsNear allow_loopback ip
unfolding permits
permits-IsNear allow_loopback ip v = (
  λ h. Octets-IsNear allow_loopback ip v (permits_v4-Octets allow_loopback ip h),
  λ n. Octets-permits_v4 allow_loopback ip (IsNear-Octets allow_loopback ip v n),
)
