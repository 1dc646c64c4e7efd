-- ===== src/Reach/First.antt =====
-- `RateLimiter` of reach.rs: the first window of an address.
use sukkula.Base.{
  ℕ, ◌+◌, ◌-◌, ◌<◌, ◌≡◌, refl, Bool, true, false, some, List, [], ◌∷◌, arith, leb, ◌==◌, length,
  All, min, max,
}
use sukkula.Reach.{Bucket, RateLimiter, new_limiter, find, allow, take_token}
use sukkula.Reach.Bounded.{count_allowed, allowed_in_window}

module _ {K : Type 0} (same : K → K → Bool) (same_self : (k : K) → same k k ≡ true) where
  -- The limiter after the first call.
  begun : ℕ → ℕ → K → ℕ → RateLimiter K
  begun burst window k now = record {
    burst = burst;
    window = window;
    buckets = (k, record { tokens = burst - 1; refilled = now }) ∷ [];
  }

  first_call :
      (burst window : ℕ) (k : K) (now : ℕ)
      → 0 < burst
      → 0 < window
      → allow same (new_limiter burst window) k now ≡ (begun burst window k now, true)
  unfolding allow new_limiter begun take_token
  first_call burst window k now b w =
      let m : max burst 1 ≡ burst = omega (arith, b) in
      let e : leb window (now - now) ≡ false = ground (arith, w) in
      let f : (burst == 0) ≡ false = ground (arith, b) in rw (m, e, f) refl

  find-own : (k : K) (c : Bucket) → find same k ((k, c) ∷ []) ≡ some c
  unfolding find
  find-own k c = rw (same_self k) refl

  -- Of some calls within a window of the first one, as many are allowed as a burst has, or all if
  -- there are fewer.
  pub allowed_from_new :
      (burst window : ℕ) (k : K) (now : ℕ) (times : List ℕ)
      → 0 < burst
      → 0 < window
      → All (λ t. t - now < window) times
      → count_allowed same (new_limiter burst window) k (now ∷ times) ≡ min (1 + length times) burst
  unfolding begun
  allowed_from_new burst window k now times b w h =
      let l = begun burst window k now in
      let c : Bucket = record { tokens = burst - 1; refilled = now } in
      let f : find same k l.buckets ≡ some c = find-own k c in
      let r = allowed_in_window same same_self times l k c f h in
      rw (first_call burst window k now b w) (omega (arith, r, b))
