-- ===== src/Reach/Limiter.antt =====
-- The buckets of `RateLimiter` of reach.rs: how many there are and how full.
use sukkula.Base.{
  ℕ, ◌+◌, ◌-◌, ◌≤◌, ◌<◌, ◌≡◌, refl, Bool, true, ◌||◌, some, List, [], ◌∷◌, arith, ltb, leb,
  if◌then◌else◌, length, All, Bool-cases, inl, inr, tests,
}
use sukkula.Limits.{rate_limit_entries}
use sukkula.Reach.{
  Bucket, RateLimiter, retain, victim, find, put, forget, forget_victim, evict, is_at_most,
  is_known,
}

-- What holds of every limiter.
pub record IsLimiter {K : Type 0} (l : RateLimiter K) : Type 0 where
  pub few : length l.buckets ≤ rate_limit_entries
  pub burst_pos : 0 < l.burst
  pub within : All (λ (p : K × Bucket). p.1.tokens ≤ l.burst) l.buckets

abbrev pub Buckets : Type 0 → Type 0
Buckets K = List (K × Bucket)

abbrev pub Within : {K : Type 0} → ℕ → Buckets K → Type 0
Within n m = All (λ p. p.1.tokens ≤ n) m

module _ {K : Type 0} (same : K → K → Bool) (same_self : (k : K) → same k k ≡ true) where
  pub known-cons :
      (k j : K) (c : Bucket) (m : Buckets K)
      → is_known same k ((j, c) ∷ m) ≡ same j k || is_known same k m
  unfolding find
  known-cons k j c m = elim (Bool-cases (same j k)) [
    | inl e ↦ rw (e, is_known) refl
    | inr e ↦ rw (e, is_known) refl
  ]

  length-forget : (k : K) (m : Buckets K) → length (forget same k m) ≤ length m
  unfolding forget
  length-forget k [] = omega arith
  length-forget k ((j, b) ∷ m) = ground (arith, length-forget k m)

  forget-known :
      (k : K) (m : Buckets K) → is_known same k m ≡ true → length (forget same k m) < length m
  unfolding forget find
  forget-known k [] h = ground arith
  forget-known k ((j, b) ∷ m) h = elim (Bool-cases (same j k)) [
    | inl e ↦ rw e (omega (arith, length-forget k m))
    | inr e ↦ rw e (omega (arith, forget-known k m (ground (arith, e))))
  ]

  known-victim :
      (k : K) (b : Bucket) (m : Buckets K) → is_known same ((victim k b m).0) ((k, b) ∷ m) ≡ true
  unfolding victim
  known-victim k b [] = rw (known-cons k k b [], same_self k) refl
  known-victim k b ((j, c) ∷ m) = elim (Bool-cases (is_at_most b c)) [
    | inl e ↦
        rw (e, victim)
          (let x = (victim j c m).0 in
            ground (arith, known-cons x k b ((j, c) ∷ m), known-victim j c m))
    | inr e ↦
        rw (e, victim)
          (let x = (victim k b m).0 in
            ground (
              arith,
              known-cons x k b ((j, c) ∷ m),
              known-cons x j c m,
              known-cons x k b m,
              known-victim k b m,
            ))
  ]

  length-retain : (w now : ℕ) (m : Buckets K) → length (retain w now m) ≤ length m
  unfolding retain
  length-retain w now [] = omega arith
  length-retain w now ((j, b) ∷ m) = ground (arith, length-retain w now m)

  retain-Within : (n w now : ℕ) (m : Buckets K) → Within n m → Within n (retain w now m)
  unfolding retain
  retain-Within n w now [] h = tt
  retain-Within n w now ((j, b) ∷ m) h = elim (Bool-cases (ltb (now - b.refilled) w)) [
    | inl e ↦ rw e (h.0, retain-Within n w now m h.1)
    | inr e ↦ rw e (retain-Within n w now m h.1)
  ]

  forget-Within : (n : ℕ) (k : K) (m : Buckets K) → Within n m → Within n (forget same k m)
  unfolding forget
  forget-Within n k [] h = tt
  forget-Within n k ((j, b) ∷ m) h = elim (Bool-cases (same j k)) [
    | inl e ↦ rw e (forget-Within n k m h.1)
    | inr e ↦ rw e (h.0, forget-Within n k m h.1)
  ]

  pub put-Within :
      (n : ℕ) (k : K) (b : Bucket) (m : Buckets K)
      → b.tokens ≤ n
      → Within n m
      → Within n (put same k b m)
  unfolding put
  put-Within n k b [] t h = (t, tt)
  put-Within n k b ((j, c) ∷ m) t h = elim (Bool-cases (same j k)) [
    | inl e ↦ rw e (t, h.1)
    | inr e ↦ rw e (h.0, put-Within n k b m t h.1)
  ]

  pub length-put :
      (k : K) (b : Bucket) (m : Buckets K)
      → length (put same k b m) ≡ (if is_known same k m then length m else length m + 1)
  unfolding put find
  length-put k b [] = refl
  length-put k b ((j, c) ∷ m) = rw (known-cons k j c m) (elim (Bool-cases (same j k)) [
    | inl e ↦ rw e (omega arith)
    | inr e ↦ rw e (ground (arith, length-put k b m))
  ])

  pub find-put : (k : K) (b : Bucket) (m : Buckets K) → find same k (put same k b m) ≡ some b
  unfolding put find
  find-put k b [] = rw (same_self k) refl
  find-put k b ((j, c) ∷ m) = elim (Bool-cases (same j k)) [
    | inl e ↦ rw (e, e) refl
    | inr e ↦ rw (e, e) (find-put k b m)
  ]

  length-forget_victim : (m : Buckets K) → 0 < length m → length (forget_victim same m) < length m
  unfolding forget_victim
  length-forget_victim [] h = omega (arith, h)
  length-forget_victim ((k, b) ∷ m) h =
      forget-known ((victim k b m).0) ((k, b) ∷ m) (known-victim k b m)

  forget_victim-Within : (n : ℕ) (m : Buckets K) → Within n m → Within n (forget_victim same m)
  unfolding forget_victim
  forget_victim-Within n [] h = h
  forget_victim-Within n ((k, b) ∷ m) h = forget-Within n ((victim k b m).0) ((k, b) ∷ m) h

  -- What `evict` leaves.
  pub record IsRoomy (l l' : RateLimiter K) : Type 0 where
    pub room : length l'.buckets < rate_limit_entries
    pub kept : Within l.burst l'.buckets
    pub same_burst : l'.burst ≡ l.burst
    pub same_window : l'.window ≡ l.window

  pub evict-IsRoomy : (l : RateLimiter K) (now : ℕ) → IsLimiter l → IsRoomy l (evict same l now)
  unfolding evict
  evict-IsRoomy l now v =
      let fresh = retain l.window now l.buckets in
      let n = length-retain l.window now l.buckets in
      let w = retain-Within l.burst l.window now l.buckets v.within in
      elim (Bool-cases (leb rate_limit_entries (length fresh))) [
        | inl e ↦ rw e (record {
          room = omega (tests, n, v.few, length-forget_victim fresh (omega tests));
          kept = forget_victim-Within l.burst fresh w;
          same_burst = refl;
          same_window = refl;
        })
        | inr e ↦
            rw e (record { room = omega tests; kept = w; same_burst = refl; same_window = refl })
      ]
