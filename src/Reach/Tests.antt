-- ===== src/Reach/Tests.antt =====
-- The theorems about reach.rs at concrete addresses and calls.
use sukkula.Base.{
  ℕ, ◌≡◌, ◌↔◌, ◌==◌, refl, Bool, true, false, some, List, [], ◌∷◌, arith, length, min, ==_iff,
}
use sukkula.Reach.{Ipv4Addr, v4, v6, permits, RateLimiter, new_limiter, find}
use sukkula.Reach.Ranges.{IsIpv4, IsNear, permits-IsNear}
use sukkula.Reach.Limiter.{IsLimiter}
use sukkula.Reach.Bounded.{run, count_allowed, IsLimiter-bounded, allowed_in_window}

abbrev home : Ipv4Addr
home = record { a = 192; b = 168; c = 1; d = 20 }

home-IsIpv4 : IsIpv4 home
home-IsIpv4 = record {
  a_octet = omega arith;
  b_octet = omega arith;
  c_octet = omega arith;
  d_octet = omega arith;
}

public_refused : permits false (v4 (record home { a = 8 })) ≡ false
unfolding permits
public_refused = refl

mapped_public_refused :
    permits true (
      v6 (record { s0 = 0; s1 = 0; s2 = 0; s3 = 0; s4 = 0; s5 = 0xFFFF; s6 = 0x0808; s7 = 0x0808 }))
    ≡ false
unfolding permits
mapped_public_refused = refl

permits-IsNear_example : (permits false (v4 home) ≡ true) ↔ IsNear false home
permits-IsNear_example = permits-IsNear false home home-IsIpv4

abbrev same : ℕ → ℕ → Bool
same k j = k == j

same_self : (k : ℕ) → same k k ≡ true
same_self k = (==_iff k k).1 refl

abbrev calls : List (ℕ × ℕ)
calls = (1, 0) ∷ (2, 1) ∷ (1, 2) ∷ []

IsLimiter-bounded_example : IsLimiter (run same (new_limiter 3 60) calls)
IsLimiter-bounded_example = IsLimiter-bounded same same_self 3 60 calls

abbrev started : RateLimiter ℕ
started = record {
  burst = 3;
  window = 60;
  buckets = (7, record { tokens = 2; refilled = 100 }) ∷ [];
}

started_find : find same 7 started.buckets ≡ some (record { tokens = 2; refilled = 100 })
unfolding find
started_find = refl

abbrev times : List ℕ
times = 110 ∷ 120 ∷ 130 ∷ []

allowed_in_window_example : count_allowed same started 7 times ≡ min (length times) 2
allowed_in_window_example =
    allowed_in_window same same_self times started 7 (record { tokens = 2; refilled = 100 })
      started_find (omega arith, (omega arith, (omega arith, tt)))
