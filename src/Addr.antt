-- ===== src/Addr.antt =====
-- The addresses of Rust's standard library, with their tests of equality.
use sukkula.Base.{ℕ, ◌≡◌, refl, Bool, true, false, ◌&&◌, Str, [], ◌∷◌, ◌==◌, arith, ap}
use sukkula.Base.Assoc.{IsTest}
use sukkula.Reach.{IpAddr, v4, v6, Ipv4Addr, Ipv6Addr}

-- `SocketAddr`; `flowinfo` and `scope_id` are 0 for an IPv4 address.
pub record SocketAddr : Type 0 where
  pub ip : IpAddr
  pub port : ℕ
  pub flowinfo : ℕ
  pub scope_id : ℕ

abbrev pub same_v4 : Ipv4Addr → Ipv4Addr → Bool
same_v4 x y = x.a == y.a && x.b == y.b && x.c == y.c && x.d == y.d

abbrev pub same_v6 : Ipv6Addr → Ipv6Addr → Bool
same_v6 x y =
    x.s0 == y.s0
    && x.s1 == y.s1
    && x.s2 == y.s2
    && x.s3 == y.s3
    && x.s4 == y.s4
    && x.s5 == y.s5
    && x.s6 == y.s6
    && x.s7 == y.s7

abbrev pub same_ip : IpAddr → IpAddr → Bool
same_ip (v4 x) (v4 y) = same_v4 x y
same_ip (v4 x) (v6 y) = false
same_ip (v6 x) (v4 y) = false
same_ip (v6 x) (v6 y) = same_v6 x y

abbrev pub same_addr : SocketAddr → SocketAddr → Bool
same_addr x y =
    same_ip x.ip y.ip && x.port == y.port && x.flowinfo == y.flowinfo && x.scope_id == y.scope_id

-- Equal texts.
abbrev pub same_text : Str → Str → Bool
same_text [] [] = true
same_text [] (d ∷ ds) = false
same_text (c ∷ cs) [] = false
same_text (c ∷ cs) (d ∷ ds) = c == d && same_text cs ds

same_text_self : (s : Str) → same_text s s ≡ true
same_text_self [] = refl
same_text_self (c ∷ cs) = ground (arith, same_text_self cs)

same_text_sound : (s t : Str) → same_text s t ≡ true → s ≡ t
same_text_sound [] [] h = refl
same_text_sound [] (d ∷ ds) h = ground arith
same_text_sound (c ∷ cs) [] h = ground arith
same_text_sound (c ∷ cs) (d ∷ ds) h = ground (arith, same_text_sound cs ds)

pub same_text-IsTest : IsTest same_text
same_text-IsTest = record { same_self = same_text_self; sound = same_text_sound }

same_v4_sound : (x y : Ipv4Addr) → same_v4 x y ≡ true → x ≡ y
same_v4_sound x y h =
    let a_eq : x.a ≡ y.a = ground (arith, h) in
    let b_eq : x.b ≡ y.b = ground (arith, h) in
    let c_eq : x.c ≡ y.c = ground (arith, h) in
    let d_eq : x.d ≡ y.d = ground (arith, h) in
    λ i. record { a = a_eq i; b = b_eq i; c = c_eq i; d = d_eq i }

same_v6_sound : (x y : Ipv6Addr) → same_v6 x y ≡ true → x ≡ y
same_v6_sound x y h =
    let s0_eq : x.s0 ≡ y.s0 = ground (arith, h) in
    let s1_eq : x.s1 ≡ y.s1 = ground (arith, h) in
    let s2_eq : x.s2 ≡ y.s2 = ground (arith, h) in
    let s3_eq : x.s3 ≡ y.s3 = ground (arith, h) in
    let s4_eq : x.s4 ≡ y.s4 = ground (arith, h) in
    let s5_eq : x.s5 ≡ y.s5 = ground (arith, h) in
    let s6_eq : x.s6 ≡ y.s6 = ground (arith, h) in
    let s7_eq : x.s7 ≡ y.s7 = ground (arith, h) in
    λ i. record {
      s0 = s0_eq i;
      s1 = s1_eq i;
      s2 = s2_eq i;
      s3 = s3_eq i;
      s4 = s4_eq i;
      s5 = s5_eq i;
      s6 = s6_eq i;
      s7 = s7_eq i;
    }

same_ip_self : (x : IpAddr) → same_ip x x ≡ true
same_ip_self (v4 x) = ground arith
same_ip_self (v6 x) = ground arith

same_ip_sound : (x y : IpAddr) → same_ip x y ≡ true → x ≡ y
same_ip_sound (v4 x) (v4 y) h = ap v4 (same_v4_sound x y h)
same_ip_sound (v4 x) (v6 y) h = ground arith
same_ip_sound (v6 x) (v4 y) h = ground arith
same_ip_sound (v6 x) (v6 y) h = ap v6 (same_v6_sound x y h)

pub same_ip-IsTest : IsTest same_ip
same_ip-IsTest = record { same_self = same_ip_self; sound = same_ip_sound }

same_addr_self : (x : SocketAddr) → same_addr x x ≡ true
same_addr_self x = ground (arith, same_ip_self x.ip)

same_addr_sound : (x y : SocketAddr) → same_addr x y ≡ true → x ≡ y
same_addr_sound x y h =
    let ip_eq : x.ip ≡ y.ip = same_ip_sound x.ip y.ip (ground (arith, h)) in
    let port_eq : x.port ≡ y.port = ground (arith, h) in
    let flowinfo_eq : x.flowinfo ≡ y.flowinfo = ground (arith, h) in
    let scope_id_eq : x.scope_id ≡ y.scope_id = ground (arith, h) in
    λ i. record {
      ip = ip_eq i;
      port = port_eq i;
      flowinfo = flowinfo_eq i;
      scope_id = scope_id_eq i;
    }

pub same_addr-IsTest : IsTest same_addr
same_addr-IsTest = record { same_self = same_addr_self; sound = same_addr_sound }
