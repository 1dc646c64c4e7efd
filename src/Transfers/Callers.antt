-- ===== src/Transfers/Callers.antt =====
-- The progress of one transfer of ctx.rs that many callers report at once, in every interleaving of the
-- parts of `add_progress`.
use mathlib.Core.Path.{subst}
use sukkula.Base.{
  ℕ, zero, suc, ◌+◌, ◌≤◌, ◌≡◌, refl, ap, Bool, true, false, ◌||◌, Option, none, some, List, [], ◌∷◌,
  ◌++◌, arith, ◌==◌, any, All, if◌then◌else◌,
}
use sukkula.Transfers.{TransferHandle, new_handle, counted, shown_of, throttle}

-- The handle; the counts of the callers that have raised the counter and not yet had the lock; those of
-- the callers that found theirs due and have not yet emitted it; and those of the events emitted.
pub record Callers : Type 0 where
  pub handle : TransferHandle
  pub raised : List ℕ
  pub due : List ℕ
  pub told : List ℕ

-- A caller raises the counter, or has the lock, or emits: the caller at that place of its list.
pub data Step : Type 0 where
  raising : ℕ → Step
  locking : ℕ → ℕ → Step
  emitting : ℕ → Step

abbrev pub keep_first : ℕ → Option (ℕ × List ℕ) → Option (ℕ × List ℕ)
keep_first c none = none
keep_first c (some (d, cs)) = some (d, c ∷ cs)

abbrev pub take_at : ℕ → List ℕ → Option (ℕ × List ℕ)
take_at i [] = none
take_at zero (c ∷ cs) = some (c, cs)
take_at (suc i) (c ∷ cs) = keep_first c (take_at i cs)

abbrev pub throttled : Callers → ℕ → List ℕ → TransferHandle × Bool → Callers
throttled w c rest (h, true) = record w { handle = h; raised = rest; due = c ∷ w.due }
throttled w c rest (h, false) = record w { handle = h; raised = rest }

abbrev pub lock_at : Callers → ℕ → Option (ℕ × List ℕ) → Callers
lock_at w now none = w
lock_at w now (some (c, rest)) = throttled w c rest (throttle w.handle c now)

abbrev pub emit_at : Callers → Option (ℕ × List ℕ) → Callers
emit_at w none = w
emit_at w (some (c, rest)) = record w { due = rest; told = w.told ++ (c ∷ []) }

abbrev pub raise : Callers → ℕ → Callers
raise w n =
    if n == 0
    then w
    else record w { handle = counted w.handle n; raised = shown_of w.handle n ∷ w.raised }

abbrev pub step : Callers → Step → Callers
step w (Step.raising n) = raise w n
step w (Step.locking i now) = lock_at w now (take_at i w.raised)
step w (Step.emitting i) = emit_at w (take_at i w.due)

abbrev pub run : Callers → List Step → Callers
run w [] = w
run w (s ∷ ss) = run (step w s) ss

abbrev pub new_callers : ℕ → ℕ → Callers
new_callers id total = record { handle = new_handle id total; raised = []; due = []; told = [] }

abbrev pub added : Step → ℕ
added (Step.raising n) = n
added (Step.locking i now) = 0
added (Step.emitting i) = 0

abbrev pub sum_added : List Step → ℕ
sum_added [] = 0
sum_added (s ∷ ss) = added s + sum_added ss

abbrev pub is_in : ℕ → List ℕ → Bool
is_in x cs = any (λ c. c == x) cs

pub some-injective : {A : Type 0} {a b : A} → ◌≡◌ {A = Option A} (some a) (some b) → a ≡ b
some-injective {a = a} h = ap (λ o. elim o [ some x ↦ x | none ↦ a ]) h

-- What a taken count and the others were.
pub record IsTaken (cs : List ℕ) (c : ℕ) (rest : List ℕ) : Type 0 where
  pub same : (x : ℕ) → is_in x cs ≡ (c == x || is_in x rest)
  pub bound : (m : ℕ) → All (λ y. y ≤ m) cs → (c ≤ m) × All (λ y. y ≤ m) rest

keep_first-IsTaken :
    (i d : ℕ) (cs : List ℕ) (c : ℕ) (rest : List ℕ)
    → ((e : ℕ) (es : List ℕ) → take_at i cs ≡ some (e, es) → IsTaken cs e es)
    → keep_first d (take_at i cs) ≡ some (c, rest)
    → IsTaken (d ∷ cs) c rest
keep_first-IsTaken i d cs c rest ih h = go (take_at i cs) refl h
  where
    go :
        (o : Option (ℕ × List ℕ))
        → take_at i cs ≡ o
        → keep_first d o ≡ some (c, rest)
        → IsTaken (d ∷ cs) c rest
    go none e q = ground (arith, q)
    go (some (x, xs)) e q =
        let v = ih x xs e in
        let r : IsTaken (d ∷ cs) x (d ∷ xs) = record {
          same = λ y. ground (arith, v.same y);
          bound = λ m a. let b = v.bound m a.1 in (b.0, (a.0, b.1));
        } in
        subst (λ p. IsTaken (d ∷ cs) p.0 p.1) (some-injective q) r

pub take_at-IsTaken :
    (i : ℕ) (cs : List ℕ) (c : ℕ) (rest : List ℕ)
    → take_at i cs ≡ some (c, rest)
    → IsTaken cs c rest
take_at-IsTaken i [] c rest h = ground (arith, h)
take_at-IsTaken zero (d ∷ cs) c rest h =
    let r : IsTaken (d ∷ cs) d cs = record { same = λ y. refl; bound = λ m a. a } in
    subst (λ p. IsTaken (d ∷ cs) p.0 p.1) (some-injective h) r
take_at-IsTaken (suc i) (d ∷ cs) c rest h =
    keep_first-IsTaken i d cs c rest (λ e es. take_at-IsTaken i cs e es) h
