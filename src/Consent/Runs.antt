-- ===== src/Consent/Runs.antt =====
-- How the calls, the user and the shutdown of consent.rs interleave.
use sukkula.Base.{◌⊎◌, ℕ, ◌≡◌, ◌≢◌, true, false, some, List, [], ◌∷◌}
use sukkula.Consent.{
  Decision, empty, queued, awaiting, elapsed, Ask, Broker, with_limits, ask_begin, announce, wake,
  elapse, reap, withdraw, answer, shutdown,
}

-- One move of a call of `ask`, or of the shutdown.
pub data Move (s : Broker) : Broker → Type 0 where
  begin : Move s (ask_begin s).0
  show : (n : ℕ) (a : Ask) → s.asks n ≡ some a → a.phase ≡ queued → Move s (announce s n a)
  hear :
      (n : ℕ) (a : Ask)
      → s.asks n ≡ some a
      → a.phase ≡ awaiting
      → a.slot ≢ empty
      → Move s (wake s n a)
  expire :
      (n : ℕ) (a : Ask)
      → s.asks n ≡ some a
      → a.phase ≡ awaiting
      → a.slot ≡ empty
      → Move s (elapse s n a)
  collect : (n : ℕ) (a : Ask) → s.asks n ≡ some a → a.phase ≡ elapsed → Move s (reap s n a)
  hang_up : (n : ℕ) (a : Ask) → s.asks n ≡ some a → a.phase ≡ awaiting → Move s (withdraw s n a)
  stop : Move s (shutdown s)

-- A run from a new broker, with the user's answers that were reported as delivered, the latest
-- first.
pub data Run (limit : ℕ) : List (ℕ × Decision) → Broker → Type 0 where
  start : Run limit [] (with_limits limit)
  move : {ds : List (ℕ × Decision)} {s t : Broker} → Run limit ds s → Move s t → Run limit ds t
  delivered :
      {ds : List (ℕ × Decision)} {s t : Broker} (id : ℕ) (d : Decision)
      → Run limit ds s
      → answer s id d ≡ (t, true)
      → Run limit ((id, d) ∷ ds) t
  ignored :
      {ds : List (ℕ × Decision)} {s t : Broker} (id : ℕ) (d : Decision)
      → Run limit ds s
      → answer s id d ≡ (t, false)
      → Run limit ds t

-- An answer stands among those that were reported as delivered.
abbrev pub IsDelivered : ℕ → Decision → List (ℕ × Decision) → Type 0
IsDelivered id d [] = ⊥
IsDelivered id d ((j, e) ∷ ds) = ((j ≡ id) × (e ≡ d)) ⊎ IsDelivered id d ds
