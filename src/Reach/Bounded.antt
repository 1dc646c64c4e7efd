-- ===== src/Reach/Bounded.antt =====
-- `RateLimiter` of reach.rs: bounded memory, and at most a burst in a window.
use sukkula.Base.{
  ℕ, ◌+◌, ◌-◌, ◌≤◌, ◌<◌, ◌≡◌, ◌⊎◌, refl, ap, ◌∙◌, Bool, true, false, Option, none, some, List, [],
  ◌∷◌, arith, leb, ◌==◌, if◌then◌else◌, length, All, Bool-cases, inl, inr, tests, min, ==_iff,
}
use sukkula.Limits.{rate_limit_entries}
use sukkula.Reach.{
  Bucket, RateLimiter, new_limiter, find, put, is_known, make_room, take_token, entry, refill,
  allow,
}
use sukkula.Reach.Limiter.{
  IsLimiter, Buckets, Within, put-Within, length-put, find-put, evict-IsRoomy,
}

-- One call of `allow` after another.
abbrev pub run : {K : Type 0} → (K → K → Bool) → RateLimiter K → List (K × ℕ) → RateLimiter K
run same l [] = l
run same l ((k, now) ∷ calls) = run same ((allow same l k now).0) calls

-- How many of some calls for one address are allowed.
abbrev pub count_allowed : {K : Type 0} → (K → K → Bool) → RateLimiter K → K → List ℕ → ℕ
count_allowed same l k [] = 0
count_allowed same l k (now ∷ times) =
    let (l', ok) = allow same l k now in
    if ok then 1 + count_allowed same l' k times else count_allowed same l' k times

module _ {K : Type 0} (same : K → K → Bool) (same_self : (k : K) → same k k ≡ true) where
  -- What `make_room` leaves.
  record IsReady (l l' : RateLimiter K) (k : K) : Type 0 where
    room :
        length l'.buckets < rate_limit_entries
        ⊎ ((is_known same k l'.buckets ≡ true) × (length l'.buckets ≤ rate_limit_entries))
    kept : Within l.burst l'.buckets
    same_burst : l'.burst ≡ l.burst

  make_room-IsReady :
      (l : RateLimiter K) (k : K) (now : ℕ) → IsLimiter l → IsReady l (make_room same l k now) k
  unfolding make_room
  make_room-IsReady l k now v = elim (Bool-cases (is_known same k l.buckets)) [
    | inl e ↦ rw e (record { room = inr (e, v.few); kept = v.within; same_burst = refl })
    | inr e ↦ rw e (elim (Bool-cases (leb rate_limit_entries (length l.buckets))) [
      | inl f ↦ rw f (
          let w = evict-IsRoomy same same_self l now v in
          record { room = inl w.room; kept = w.kept; same_burst = w.same_burst })
      | inr f ↦ rw f (record { room = inl (omega tests); kept = v.within; same_burst = refl })
    ])
  ]

  put-few :
      (k : K) (b : Bucket) (m : Buckets K)
      → length m < rate_limit_entries
        ⊎ ((is_known same k m ≡ true) × (length m ≤ rate_limit_entries))
      → length (put same k b m) ≤ rate_limit_entries
  put-few k b m h = ground (arith, length-put same same_self k b m)

  take_token-IsLimiter :
      (l : RateLimiter K) (k : K) (b : Bucket)
      → 0 < l.burst
      → length l.buckets < rate_limit_entries
        ⊎ ((is_known same k l.buckets ≡ true) × (length l.buckets ≤ rate_limit_entries))
      → Within l.burst l.buckets
      → b.tokens ≤ l.burst
      → IsLimiter ((take_token same l k b).0)
  unfolding take_token
  take_token-IsLimiter l k b p r w t = elim (Bool-cases (b.tokens == 0)) [
    | inl e ↦ rw e (record {
      few = put-few k b l.buckets r;
      burst_pos = p;
      within = put-Within same same_self l.burst k b l.buckets t w;
    })
    | inr e ↦ rw e (record {
      few = put-few k (record b { tokens = b.tokens - 1 }) l.buckets r;
      burst_pos = p;
      within =
          put-Within same same_self l.burst k (record b { tokens = b.tokens - 1 }) l.buckets
            (omega (arith, t)) w;
    })
  ]

  find-Within :
      (n : ℕ) (k : K) (m : Buckets K) (b : Bucket)
      → find same k m ≡ some b
      → Within n m
      → b.tokens ≤ n
  unfolding find
  find-Within n k [] b h w = ground arith
  find-Within n k ((j, c) ∷ m) b h w = elim (Bool-cases (same j k)) [
    | inl e ↦ ground (arith, e, w.0)
    | inr e ↦ find-Within n k m b (ground (arith, e)) w.1
  ]

  entry-few :
      (l : RateLimiter K) (k : K) (now : ℕ) (o : Option Bucket)
      → find same k l.buckets ≡ o
      → Within l.burst l.buckets
      → (entry same l k now o).tokens ≤ l.burst
  entry-few l k now none e w = omega arith
  entry-few l k now (some b) e w = find-Within l.burst k l.buckets b e w

  refill-few :
      (l : RateLimiter K) (now : ℕ) (b : Bucket)
      → b.tokens ≤ l.burst
      → (refill same l now b).tokens ≤ l.burst
  refill-few l now b h = elim (Bool-cases (leb l.window (now - b.refilled))) [
    | inl e ↦ rw e (omega arith)
    | inr e ↦ rw e h
  ]

  allow-IsLimiter :
      (l : RateLimiter K) (k : K) (now : ℕ) → IsLimiter l → IsLimiter ((allow same l k now).0)
  unfolding allow
  allow-IsLimiter l k now v =
      let l' = make_room same l k now in
      let r = make_room-IsReady l k now v in
      let p = v.burst_pos in
      let w : Within l'.burst l'.buckets = rw r.same_burst r.kept in
      take_token-IsLimiter l' k (refill same l' now (entry same l' k now (find same k l'.buckets)))
        (rw r.same_burst p) r.room w
        (refill-few l' now (entry same l' k now (find same k l'.buckets))
          (entry-few l' k now (find same k l'.buckets) refl w))

  run-IsLimiter :
      (calls : List (K × ℕ)) (l : RateLimiter K) → IsLimiter l → IsLimiter (run same l calls)
  run-IsLimiter [] l v = v
  run-IsLimiter ((k, now) ∷ calls) l v =
      run-IsLimiter calls ((allow same l k now).0) (allow-IsLimiter l k now v)

  -- Whatever the calls, a limiter remembers at most 256 addresses, and no bucket has more tokens than
  -- a burst.
  pub IsLimiter-bounded :
      (burst window : ℕ) (calls : List (K × ℕ))
      → IsLimiter (run same (new_limiter burst window) calls)
  unfolding new_limiter
  IsLimiter-bounded burst window calls =
      run-IsLimiter calls (new_limiter burst window)
        (record { few = omega arith; burst_pos = omega arith; within = tt })

  make_room-known :
      (l : RateLimiter K) (k : K) (now : ℕ) (b : Bucket)
      → find same k l.buckets ≡ some b
      → make_room same l k now ≡ l
  unfolding make_room
  make_room-known l k now b h =
      let e : is_known same k l.buckets ≡ true = rw (is_known, h) refl in rw e refl

  -- `allow` after `make_room`.
  allow_in : RateLimiter K → K → ℕ → RateLimiter K × Bool
  allow_in l k now =
      take_token same l k (refill same l now (entry same l k now (find same k l.buckets)))

  allow_lem :
      (l : RateLimiter K) (k : K) (now : ℕ)
      → allow same l k now ≡ allow_in (make_room same l k now) k now
  unfolding allow allow_in
  allow_lem l k now = refl

  refill-within :
      (l : RateLimiter K) (now : ℕ) (b : Bucket)
      → now - b.refilled < l.window
      → refill same l now b ≡ b
  refill-within l now b w =
      let e : leb l.window (now - b.refilled) ≡ false = ground arith in rw e refl

  -- A call for an address that is remembered and whose window is not over.
  known_call :
      (l : RateLimiter K) (k : K) (now : ℕ) (b : Bucket)
      → find same k l.buckets ≡ some b
      → now - b.refilled < l.window
      → allow same l k now ≡ take_token same l k b
  unfolding allow_in
  known_call l k now b h w =
      allow_lem l k now
      ∙ ap (λ x. allow_in x k now) (make_room-known l k now b h)
      ∙ ap (λ o. take_token same l k (refill same l now (entry same l k now o))) h
      ∙ ap (λ c. take_token same l k c) (refill-within l now b w)

  -- For an address that is remembered, of some calls within its window as many are allowed as its
  -- bucket has tokens, or all if there are fewer.
  pub allowed_in_window :
      (times : List ℕ) (l : RateLimiter K) (k : K) (b : Bucket)
      → find same k l.buckets ≡ some b
      → All (λ now. now - b.refilled < l.window) times
      → count_allowed same l k times ≡ min (length times) b.tokens
  unfolding take_token
  allowed_in_window [] l k b h w = omega arith
  allowed_in_window (now ∷ times) l k b h w =
      rw (known_call l k now b h w.0) (elim (Bool-cases (b.tokens == 0)) [
        | inl e ↦ rw e (
            let z : b.tokens ≡ 0 = (==_iff b.tokens 0).0 e in
            let ih =
              allowed_in_window times (record l { buckets = put same k b l.buckets }) k b
                (find-put same same_self k b l.buckets) w.1 in
            omega (arith, ih, z))
        | inr e ↦ rw e (
            let c : Bucket = record b { tokens = b.tokens - 1 } in
            let ih =
              allowed_in_window times (record l { buckets = put same k c l.buckets }) k c
                (find-put same same_self k c l.buckets) w.1 in
            let z : 0 < b.tokens = ground (arith, e) in omega (arith, ih, z))
      ])
