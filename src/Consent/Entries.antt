-- ===== src/Consent/Entries.antt =====
-- What is known of each call of `ask` of consent.rs while the ids do not wrap.
use sukkula.Base.{
  ℕ, suc, ◌+◌, ◌≤◌, ◌<◌, ◌≡◌, ◌⊎◌, inl, inr, sym, ap, ◌∙◌, Bool, true, false, not, ◌&&◌, Option,
  none, some, List, [], ◌∷◌, ◌++◌, arith, ◌==◌, if◌then◌else◌, All, Bool-cases,
}
use mathlib.Core.Path.{subst}
use sukkula.Consent.{
  Decision, Refusal, ConsentEvent, pending, closed, Outcome, refused, dropped, Slot, empty, sent,
  abandoned, Phase, queued, awaiting, elapsed, over, Ask, Broker, lookup, remove, update,
  outcome_of,
}
use sukkula.Consent.Runs.{IsDelivered}

abbrev pub is_over : Phase → Bool
is_over (over o) = true
is_over _ = false

abbrev pub is_queued : Phase → Bool
is_queued queued = true
is_queued _ = false

abbrev pub is_slot_empty : Slot → Bool
is_slot_empty empty = true
is_slot_empty _ = false

-- A call whose entry is in the queue.
abbrev pub is_live : Ask → Bool
is_live a = is_slot_empty a.slot && not (is_over a.phase)

-- How often the observer was told to show an offer, and to take it away.
abbrev pub shows : ℕ → List ConsentEvent → ℕ
shows id [] = 0
shows id (pending j ∷ es) = let rest = shows id es in if j == id then suc rest else rest
shows id (closed j r ∷ es) = shows id es

abbrev pub closes : ℕ → List ConsentEvent → ℕ
closes id [] = 0
closes id (pending j ∷ es) = closes id es
closes id (closed j r ∷ es) = let rest = closes id es in if j == id then suc rest else rest

-- The outcome that a call's channel allows.
abbrev pub Allowed : ℕ → Slot → Outcome → Type 0
Allowed id (sent d) o = (o ≡ outcome_of id (some d)) ⊎ (o ≡ dropped)
Allowed id abandoned o = (o ≡ refused Refusal.shut_down) ⊎ (o ≡ dropped)
Allowed id empty o = (o ≡ refused Refusal.timed_out) ⊎ (o ≡ dropped)

abbrev pub Agrees : ℕ → Slot → Phase → Type 0
Agrees id s (over o) = Allowed id s o
Agrees id s queued = Unit
Agrees id s awaiting = Unit
Agrees id s elapsed = Unit

abbrev pub SentIn : ℕ → Slot → List (ℕ × Decision) → Type 0
SentIn id (sent d) ds = IsDelivered id d ds
SentIn id empty ds = Unit
SentIn id abandoned ds = Unit

-- What is known of the call `n`.
abbrev pub Entry : Broker → List (ℕ × Decision) → ℕ → Option Ask → Type 0
Entry s ds n none =
    (lookup (n + 1) s.queue ≡ none) × (shows (n + 1) s.log ≡ 0) × (closes (n + 1) s.log ≡ 0)
Entry s ds n (some a) =
    (n < s.calls)
    × (a.id ≡ n + 1)
    × (lookup (n + 1) s.queue ≡ (if is_live a then some n else none))
    × (shows (n + 1) s.log ≡ (if is_queued a.phase then 0 else 1))
    × (closes (n + 1) s.log ≡ (if is_over a.phase then 1 else 0))
    × Agrees (n + 1) a.slot a.phase
    × SentIn (n + 1) a.slot ds

abbrev pub slot_at : Option Ask → Slot
slot_at none = empty
slot_at (some a) = a.slot

pub record Inv (s : Broker) (ds : List (ℕ × Decision)) : Type 0 where
  pub numbered : s.next_id ≡ s.calls + 1
  pub keys : All (λ (e : ℕ × ℕ). e.0 ≡ e.1 + 1) s.queue
  pub entry : (n : ℕ) → Entry s ds n (s.asks n)
  pub answered : (n : ℕ) (d : Decision) → IsDelivered (n + 1) d ds → slot_at (s.asks n) ≡ sent d

pub lookup-remove :
    (k j : ℕ) (m : List (ℕ × ℕ)) → lookup j (remove k m) ≡ (if k == j then none else lookup j m)
unfolding lookup remove
lookup-remove k j [] = ground arith
lookup-remove k j ((i, v) ∷ m) = ground (arith, lookup-remove k j m)

pub shows-append :
    (id : ℕ) (es fs : List ConsentEvent) → shows id (es ++ fs) ≡ shows id es + shows id fs
shows-append id [] fs = omega arith
shows-append id (pending j ∷ es) fs = ground (arith, shows-append id es fs)
shows-append id (closed j r ∷ es) fs = shows-append id es fs

pub closes-append :
    (id : ℕ) (es fs : List ConsentEvent) → closes id (es ++ fs) ≡ closes id es + closes id fs
closes-append id [] fs = omega arith
closes-append id (pending j ∷ es) fs = closes-append id es fs
closes-append id (closed j r ∷ es) fs = ground (arith, closes-append id es fs)

pub keys-remove :
    (k : ℕ) (m : List (ℕ × ℕ))
    → All (λ (e : ℕ × ℕ). e.0 ≡ e.1 + 1) m
    → All (λ (e : ℕ × ℕ). e.0 ≡ e.1 + 1) (remove k m)
unfolding remove
keys-remove k [] h = h
keys-remove k ((j, v) ∷ m) h = elim (Bool-cases (j == k)) [
  | inl e ↦ rw e (keys-remove k m h.1)
  | inr e ↦ rw e (h.0, keys-remove k m h.1)
]

pub lookup-keys :
    (id v : ℕ) (m : List (ℕ × ℕ))
    → All (λ (e : ℕ × ℕ). e.0 ≡ e.1 + 1) m
    → lookup id m ≡ some v
    → id ≡ v + 1
unfolding lookup
lookup-keys id v [] k h = ground arith
lookup-keys id v ((j, w) ∷ m) k h = ground (arith, lookup-keys id v m k.1)

-- A call that a move does not touch.
pub Entry-frame :
    (s t : Broker) (ds es : List (ℕ × Decision)) (m : ℕ) (o : Option Ask)
    → s.calls ≤ t.calls
    → lookup (m + 1) t.queue ≡ lookup (m + 1) s.queue
    → shows (m + 1) t.log ≡ shows (m + 1) s.log
    → closes (m + 1) t.log ≡ closes (m + 1) s.log
    → ((d : Decision) → IsDelivered (m + 1) d ds → IsDelivered (m + 1) d es)
    → Entry s ds m o
    → Entry t es m o
Entry-frame s t ds es m none c l h k g v = (l ∙ v.0, h ∙ v.1, k ∙ v.2)
Entry-frame s t ds es m (some a) c l h k g v =
    (omega (arith, v.0), v.1, l ∙ v.2, h ∙ v.3, k ∙ v.4, v.5, keep a.slot v.6)
  where
    keep : (x : Slot) → SentIn (m + 1) x ds → SentIn (m + 1) x es
    keep empty u = u
    keep (sent d) u = g d u
    keep abandoned u = u

-- One call changes, and the others stand.
pub Entry-update :
    (t : Broker) (ds : List (ℕ × Decision)) (f : ℕ → Option Ask) (n : ℕ) (b : Ask)
    → Entry t ds n (some b)
    → ((m : ℕ) → (n == m) ≡ false → Entry t ds m (f m))
    → (m : ℕ) → Entry t ds m (update f n b m)
Entry-update t ds f n b v w m = elim (Bool-cases (n == m)) [
  | inl e ↦ let p : n ≡ m = ground arith in rw e (subst (λ k. Entry t ds k (some b)) p v)
  | inr e ↦ rw e (w m e)
]

pub slot_at-update :
    (f : ℕ → Option Ask) (n m : ℕ) (a : Ask) (phase : Phase)
    → f n ≡ some a
    → slot_at (update f n (record a { phase = phase }) m) ≡ slot_at (f m)
slot_at-update f n m a phase h = elim (Bool-cases (n == m)) [
  | inl e ↦ let p : n ≡ m = ground arith in rw e (sym (ap slot_at (ap f (sym p) ∙ h)))
  | inr e ↦ rw e
]
