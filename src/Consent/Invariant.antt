-- ===== src/Consent/Invariant.antt =====
-- The moves of a call of `ask` of consent.rs keep the invariant.
use sukkula.Base.{
  ℕ, ◌+◌, ◌≡◌, ◌≢◌, inl, inr, refl, sym, ◌∙◌, false, none, some, List, [], ◌∷◌, arith, ◌==◌,
  if◌then◌else◌, All, Bool-cases,
}
use mathlib.Core.Path.{subst}
use native.Mathlib.Nat.{le_refl}
use sukkula.Consent.{
  Decision, Closed, Refusal, ConsentEvent, pending, closed, Outcome, refused, dropped, Slot, empty,
  sent, abandoned, Phase, queued, awaiting, elapsed, over, Ask, Broker, lookup, remove, outcome_of,
  received, advance, contains_key, settle, reason_of, announce, wake, elapse, reap, withdraw,
}
use sukkula.Consent.Entries.{
  is_over, is_queued, is_slot_empty, is_live, shows, closes, Allowed, Agrees, Entry, Inv,
  lookup-remove, shows-append, closes-append, keys-remove, Entry-frame, Entry-update,
  slot_at-update,
}

module _ (s : Broker) (ds : List (ℕ × Decision)) (n : ℕ) (a : Ask) (here : s.asks n ≡ some a)
    (v : Inv s ds) where
  pub at : Entry s ds n (some a)
  at = subst (Entry s ds n) here (v.entry n)

  -- A call that takes its entry out of the queue, or has none there, and goes on.
  advanced :
      (q : List (ℕ × ℕ)) (phase : Phase) (events : List ConsentEvent)
      → ((m : ℕ) → (n == m) ≡ false → lookup (m + 1) q ≡ lookup (m + 1) s.queue)
      → ((m : ℕ) → (n == m) ≡ false → shows (m + 1) events ≡ 0)
      → ((m : ℕ) → (n == m) ≡ false → closes (m + 1) events ≡ 0)
      → lookup (n + 1) q ≡ (if is_live (record a { phase = phase }) then some n else none)
      → shows (n + 1) s.log + shows (n + 1) events ≡ (if is_queued phase then 0 else 1)
      → closes (n + 1) s.log + closes (n + 1) events ≡ (if is_over phase then 1 else 0)
      → Agrees (n + 1) a.slot phase
      → All (λ (e : ℕ × ℕ). e.0 ≡ e.1 + 1) q
      → Inv (advance (record s { queue = q }) n a phase events) ds
  advanced q phase events lo so co l h k g keys = record {
    numbered = v.numbered;
    keys = keys;
    entry =
        Entry-update (advance (record s { queue = q }) n a phase events) ds s.asks n _
          (
            at.0,
            at.1,
            l,
            shows-append (n + 1) s.log events ∙ h,
            closes-append (n + 1) s.log events ∙ k,
            g,
            at.6,
          )
          λ m e.
            Entry-frame s (advance (record s { queue = q }) n a phase events) ds ds m (s.asks m)
              (le_refl s.calls) (lo m e) (omega (arith, shows-append (m + 1) s.log events, so m e))
              (omega (arith, closes-append (m + 1) s.log events, co m e)) (λ d u. u) (v.entry m);
    answered = λ m d u. slot_at-update s.asks n m a phase here ∙ v.answered m d u;
  }

  ne_succ : (m : ℕ) → (n == m) ≡ false → (a.id == m + 1) ≡ false
  ne_succ m e = ground (arith, at.1)

  -- A move that leaves the queue alone and says at most one thing about this call.
  pub announce-Inv : a.phase ≡ queued → Inv (announce s n a) ds
  unfolding announce
  announce-Inv p =
      advanced s.queue awaiting (pending a.id ∷ []) (λ m e. refl)
        (λ m e. ground (arith, ne_succ m e)) (λ m e. refl) (ground (arith, at)) (ground (arith, at))
        (ground (arith, at)) tt v.keys

  pub elapse-Inv : a.phase ≡ awaiting → Inv (elapse s n a) ds
  unfolding elapse
  elapse-Inv p =
      advanced s.queue elapsed [] (λ m e. refl) (λ m e. refl) (λ m e. refl) (ground (arith, at))
        (ground (arith, at)) (ground (arith, at)) tt v.keys

  Allowed-received :
      (x : Slot) → is_slot_empty x ≡ false → Allowed (n + 1) x (outcome_of (n + 1) (received x))
  Allowed-received empty h = absurd (ground arith)
  Allowed-received (sent d) h = inl refl
  Allowed-received abandoned h = inl refl

  Allowed-dropped : (x : Slot) → Allowed (n + 1) x dropped
  Allowed-dropped empty = inr refl
  Allowed-dropped (sent d) = inr refl
  Allowed-dropped abandoned = inr refl

  settle-Inv :
      is_slot_empty a.slot ≡ false
      → is_over a.phase ≡ false
      → is_queued a.phase ≡ false
      → Inv (settle s n a (received a.slot)) ds
  settle-Inv x p q =
      advanced s.queue (over (outcome_of a.id (received a.slot)))
        (closed a.id (reason_of (received a.slot)) ∷ []) (λ m e. refl) (λ m e. refl)
        (λ m e. ground (arith, ne_succ m e)) (ground (arith, at)) (ground (arith, at))
        (ground (arith, at))
        (subst (λ k. Allowed (n + 1) a.slot (outcome_of k (received a.slot))) (sym at.1)
          (Allowed-received a.slot x))
        v.keys

  removed :
      (m : ℕ) → (n == m) ≡ false → lookup (m + 1) (remove a.id s.queue) ≡ lookup (m + 1) s.queue
  removed m e = rw lookup-remove (ground (arith, ne_succ m e))

  removed_here : lookup (n + 1) (remove a.id s.queue) ≡ none
  removed_here = rw lookup-remove (ground (arith, at))

  -- The call takes its own entry out, and is over.
  removed-Inv :
      (o : Outcome) (r : Closed)
      → is_over a.phase ≡ false
      → is_queued a.phase ≡ false
      → Allowed (n + 1) a.slot o
      → Inv
          (advance (record s { queue = remove a.id s.queue }) n a (over o) (closed a.id r ∷ []))
          ds
  removed-Inv o r p q g =
      advanced (remove a.id s.queue) (over o) (closed a.id r ∷ []) removed (λ m e. refl)
        (λ m e. ground (arith, ne_succ m e)) (ground (arith, removed_here)) (ground (arith, at))
        (ground (arith, at)) g (keys-remove a.id s.queue v.keys)

  pub withdraw-Inv : a.phase ≡ awaiting → Inv (withdraw s n a) ds
  unfolding withdraw
  withdraw-Inv p =
      removed-Inv dropped Closed.withdrawn (ground arith) (ground arith) (Allowed-dropped a.slot)

  pub wake-Inv : a.phase ≡ awaiting → a.slot ≢ empty → Inv (wake s n a) ds
  unfolding wake
  wake-Inv p h = settle-Inv (ground arith) (ground arith) (ground arith)

  pub reap-Inv : a.phase ≡ elapsed → Inv (reap s n a) ds
  unfolding reap
  reap-Inv p = elim (Bool-cases (contains_key a.id s.queue)) [
    | inl h ↦
        let e : a.slot ≡ empty = ground (arith, at) in
        rw h (
          removed-Inv (refused Refusal.timed_out) Closed.timed_out (ground arith) (ground arith)
            (subst (λ x. Allowed (n + 1) x (refused Refusal.timed_out)) (sym e) (inl refl)))
    | inr h ↦ rw h (settle-Inv (ground (arith, at)) (ground arith) (ground arith))
  ]
