-- ===== src/Consent/Fresh.antt =====
-- `State::fresh_id` of consent.rs: its loop ends within `pending.len() + 2` rounds, on an id that is
-- not zero and not in use, also where the ids wrap.
use sukkula.Base.{
  ℕ, zero, suc, ◌+◌, ◌-◌, ◌^◌, ◌≤◌, ◌<◌, ◌≡◌, ◌⊎◌, inl, inr, sym, ap, ◌∙◌, true, false, List, [],
  ◌∷◌, arith, leb, ◌==◌, if◌then◌else◌, length, Bool-cases,
}
use mathlib.Core.Path.{subst}
use sukkula.Consent.{Broker, lookup, remove, contains_key, next_after, fresh_loop, fresh_id}

abbrev top : ℕ
top = 2 ^ 64 - 1

-- The id `j` rounds after `x`.
abbrev After : ℕ → ℕ → ℕ → Type 0
After x j id = id ≡ (if leb (x + j) top then x + j else x + j - top)

After-next :
    (x j id : ℕ) → 0 < x → x ≤ top → j + 1 < top → After x j id → After x (j + 1) (next_after id)
After-next x j id p q h e = ground arith

After-ne : (x j id : ℕ) → 0 < x → x ≤ top → 0 < j → j < top → After x j id → (x == id) ≡ false
After-ne x j id p q h k e = ground arith

-- So many ids from `id` on are all in use.
abbrev InUse : ℕ → ℕ → List (ℕ × ℕ) → Type 0
InUse zero id m = Unit
InUse (suc k) id m = (contains_key id m ≡ true) × InUse k (next_after id) m

contains_key-remove :
    (x id : ℕ) (m : List (ℕ × ℕ))
    → (x == id) ≡ false
    → contains_key id m ≡ true
    → contains_key id (remove x m) ≡ true
unfolding lookup remove
contains_key-remove x id [] h c = ground arith
contains_key-remove x id ((j, v) ∷ m) h c = ground (arith, contains_key-remove x id m)

length-remove :
    (x : ℕ) (m : List (ℕ × ℕ))
    → (length (remove x m) ≤ length m) × (contains_key x m ≡ true → length (remove x m) < length m)
unfolding lookup remove
length-remove x [] = (omega arith, λ h. absurd (ground arith))
length-remove x ((j, v) ∷ m) =
    let ih = length-remove x m in (ground (arith, ih.0), λ h. ground (arith, ih.0, ih.1))

InUse-remove :
    (k j x id : ℕ) (m : List (ℕ × ℕ))
    → 0 < x
    → x ≤ top
    → 0 < j
    → j + k ≤ top
    → After x j id
    → InUse k id m
    → InUse k id (remove x m)
InUse-remove zero j x id m p q h r e u = tt
InUse-remove (suc zero) j x id m p q h r e u =
    (contains_key-remove x id m (After-ne x j id p q h (omega arith) e) u.0, tt)
InUse-remove (suc (suc k)) j x id m p q h r e u = (
  contains_key-remove x id m (After-ne x j id p q h (omega arith) e) u.0,
  InUse-remove (suc k) (j + 1) x (next_after id) m p q (omega arith) (omega arith)
      (After-next x j id p q (omega arith) e) u.1,
)

next_in_range : (id : ℕ) → 0 < id → id ≤ top → (0 < next_after id) × (next_after id ≤ top)
next_in_range id p q = ground arith

first-After : (id : ℕ) → 0 < id → id ≤ top → After id 1 (next_after id)
first-After id p q = ground arith

-- No more ids in a row are in use than there are entries.
InUse-bounded :
    (k id : ℕ) (m : List (ℕ × ℕ)) → 0 < id → id ≤ top → k ≤ top → InUse k id m → k ≤ length m
InUse-bounded zero id m p q r u = omega arith
InUse-bounded (suc k) id m p q r u =
    let (a, b) = next_in_range id p q in
    let ih = InUse-bounded k (next_after id) (remove id m) a b (omega arith) (
      InUse-remove k 1 id (next_after id) m p q (omega arith) (omega arith) (first-After id p q)
        u.1) in
    omega (arith, (length-remove id m).1 u.0)

-- An id that can be given out.
pub record IsFresh (id : ℕ) (m : List (ℕ × ℕ)) : Type 0 where
  pub positive : 0 < id
  pub within : id ≤ 2 ^ 64 - 1
  pub unused : contains_key id m ≡ false

IsFresh-or_InUse :
    (fuel id : ℕ) (m : List (ℕ × ℕ))
    → 0 < id
    → id ≤ top
    → IsFresh (fresh_loop fuel id m) m ⊎ InUse fuel id m
unfolding fresh_loop
IsFresh-or_InUse zero id m p q = inr tt
IsFresh-or_InUse (suc fuel) id m p q = elim (Bool-cases (contains_key id m)) [
  | inl c ↦
      let (a, b) = next_in_range id p q in
      elim (IsFresh-or_InUse fuel (next_after id) m a b) [
        | inl f ↦ inl (let e : (id == 0) ≡ false = ground arith in rw (e, c) f)
        | inr u ↦ inr (c, u)
      ]
  | inr c ↦ inl (
      let e : (id == 0) ≡ false = ground arith in
      rw (e, c) (record { positive = p; within = q; unused = c }))
]

loop-IsFresh :
    (fuel id : ℕ) (m : List (ℕ × ℕ))
    → 0 < id
    → id ≤ top
    → length m < fuel
    → fuel ≤ top
    → IsFresh (fresh_loop fuel id m) m
loop-IsFresh fuel id m p q h k = elim (IsFresh-or_InUse fuel id m p q) [
  | inl f ↦ f
  | inr u ↦ absurd (omega (arith, InUse-bounded fuel id m p q k u))
]

-- Zero is passed over in the first round.
loop_zero :
    (fuel id : ℕ) (m : List (ℕ × ℕ)) → id ≡ 0 → fresh_loop (fuel + 1) id m ≡ fresh_loop fuel 1 m
unfolding fresh_loop
loop_zero fuel id m e = let f : fuel + 1 ≡ suc fuel = omega arith in rw (f, e)

-- For every next id of 64 bits, zero included, and fewer than 2 ^ 64 - 2 offers waiting, the id given
-- out is not zero, fits 64 bits and is the id of no waiting offer.
pub fresh_id-IsFresh :
    (s : Broker)
    → s.next_id ≤ 2 ^ 64 - 1
    → length s.queue + 2 ≤ 2 ^ 64 - 1
    → IsFresh (fresh_id s) s.queue
unfolding fresh_id
fresh_id-IsFresh s h k = elim (Bool-cases (s.next_id == 0)) [
  | inl z ↦
      let e : length s.queue + 2 ≡ length s.queue + 1 + 1 = omega arith in
      subst (λ x. IsFresh x s.queue)
        (sym (
          ap (λ f. fresh_loop f s.next_id s.queue) e
          ∙ loop_zero (length s.queue + 1) s.next_id s.queue (ground arith)))
        (loop-IsFresh (length s.queue + 1) 1 s.queue (omega arith) (omega arith) (omega arith)
          (omega arith))
  | inr z ↦ loop-IsFresh (length s.queue + 2) s.next_id s.queue (ground arith) h (omega arith) k
]
