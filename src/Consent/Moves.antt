-- ===== src/Consent/Moves.antt =====
-- The user's answers, new calls and the shutdown of consent.rs keep the invariant.
use sukkula.Base.{
  ℕ, suc, ◌+◌, ◌-◌, ◌^◌, ◌<◌, ◌≡◌, ◌⊎◌, inl, inr, refl, sym, ap, ◌∙◌, Bool, true, false, Option,
  none, some, List, [], ◌∷◌, arith, leb, ◌==◌, if◌then◌else◌, length, All, Bool-cases, not_leb→lt,
}
use mathlib.Core.Path.{subst}
use native.Mathlib.Nat.{le_refl}
use sukkula.Consent.{
  Decision, Slot, empty, sent, abandoned, Phase, queued, awaiting, elapsed, over, Ask, Broker,
  lookup, remove, update, fresh_id, enqueue, contains_key, ask_begin, answer, abandon, shutdown,
}
use sukkula.Consent.Runs.{IsDelivered}
use sukkula.Consent.Entries.{
  is_over, Agrees, Entry, slot_at, Inv, lookup-remove, keys-remove, lookup-keys, Entry-frame,
  Entry-update,
}

-- The broker after a delivered answer.
abbrev delivered_to : Broker → ℕ → ℕ → Decision → Ask → Broker
delivered_to s id n d a = record s {
  queue = remove id s.queue;
  asks = update s.asks n (record a { slot = sent d });
}

Agrees-unless_over : (id : ℕ) (x : Slot) (p : Phase) → is_over p ≡ false → Agrees id x p
Agrees-unless_over id x queued h = tt
Agrees-unless_over id x awaiting h = tt
Agrees-unless_over id x elapsed h = tt
Agrees-unless_over id x (over o) h = absurd (ground arith)

module _ (s : Broker) (ds : List (ℕ × Decision)) (v : Inv s ds) where
  live_at :
      (id n : ℕ)
      → lookup id s.queue ≡ some n
      → (a : Ask) × (s.asks n ≡ some a)
        × (id ≡ n + 1)
        × (a.slot ≡ empty)
        × (is_over a.phase ≡ false)
  live_at id n h = go (s.asks n) refl (v.entry n)
    where
      key : id ≡ n + 1
      key = lookup-keys id n s.queue v.keys h

      go :
          (o : Option Ask)
          → s.asks n ≡ o
          → Entry s ds n o
          → (a : Ask) × (s.asks n ≡ some a)
            × (id ≡ n + 1)
            × (a.slot ≡ empty)
            × (is_over a.phase ≡ false)
      go none e w = absurd (ground (arith, key, w.0))
      go (some a) e w = (a, e, key, ground (arith, key, w.2), ground (arith, key, w.2))

  answer-some :
      (id n : ℕ) (d : Decision) (a : Ask)
      → lookup id s.queue ≡ some n
      → s.asks n ≡ some a
      → is_over a.phase ≡ false
      → answer s id d ≡ (delivered_to s id n d a, true)
  unfolding answer
  answer-some id n d a h e p = ground arith

  answer-none : (id : ℕ) (d : Decision) → lookup id s.queue ≡ none → answer s id d ≡ (s, false)
  unfolding answer
  answer-none id d h = ground arith

  delivered_to-Inv :
      (id n : ℕ) (d : Decision) (a : Ask)
      → lookup id s.queue ≡ some n
      → s.asks n ≡ some a
      → a.slot ≡ empty
      → is_over a.phase ≡ false
      → Inv (delivered_to s id n d a) ((id, d) ∷ ds)
  delivered_to-Inv id n d a h e x p = record {
    numbered = v.numbered;
    keys = keys-remove id s.queue v.keys;
    entry =
        Entry-update (delivered_to s id n d a) ((id, d) ∷ ds) s.asks n _
          (
            at.0,
            at.1,
            rw lookup-remove (ground (arith, key)),
            at.3,
            at.4,
            Agrees-unless_over (n + 1) (sent d) a.phase p,
            inl (key, refl),
          )
          λ m f.
            Entry-frame s (delivered_to s id n d a) ds ((id, d) ∷ ds) m (s.asks m) (le_refl s.calls)
              (rw lookup-remove (ground (arith, key))) refl refl (λ c u. inr u) (v.entry m);
    answered = λ m c u. answered m c (v.answered m c) u (Bool-cases (n == m));
  }
    where
      key : id ≡ n + 1
      key = lookup-keys id n s.queue v.keys h

      at : Entry s ds n (some a)
      at = subst (Entry s ds n) e (v.entry n)

      answered :
          (m : ℕ) (c : Decision)
          → (IsDelivered (m + 1) c ds → slot_at (s.asks m) ≡ sent c)
          → IsDelivered (m + 1) c ((id, d) ∷ ds)
          → ((n == m) ≡ true) ⊎ ((n == m) ≡ false)
          → slot_at (update s.asks n (record a { slot = sent d }) m) ≡ sent c
      answered m c old (inl u) (inl f) = rw f (ap sent u.1)
      answered m c old (inl u) (inr f) = absurd (ground (arith, key, u.0))
      answered m c old (inr u) (inl f) =
          let q : m ≡ n = ground arith in
          absurd (ground (arith, old u, ap slot_at (ap s.asks q ∙ e)))
      answered m c old (inr u) (inr f) = rw f (old u)

-- What an answer leaves, and whether it was delivered.
abbrev Answered : Broker → List (ℕ × Decision) → ℕ → Decision → Broker × Bool → Type 0
Answered s ds id d r = Inv r.0 (if r.1 then (id, d) ∷ ds else ds) × (r.1 ≡ false → r.0 ≡ s)

-- An answer keeps the invariant: reported as delivered, it is one more; otherwise nothing changes.
pub answer-Inv :
    (s t : Broker) (ds : List (ℕ × Decision)) (id : ℕ) (d : Decision) (b : Bool)
    → Inv s ds
    → answer s id d ≡ (t, b)
    → Inv t (if b then (id, d) ∷ ds else ds) × (b ≡ false → t ≡ s)
answer-Inv s t ds id d b v h = go (lookup id s.queue) refl
  where
    go : (o : Option ℕ) → lookup id s.queue ≡ o → Answered s ds id d (t, b)
    go none e = subst (Answered s ds id d) (sym (answer-none s ds v id d e) ∙ h) (v, λ _. refl)
    go (some n) e =
        let (a, f, key, x, q) = live_at s ds v id n e in
        subst (Answered s ds id d) (sym (answer-some s ds v id n d a e f q) ∙ h)
          (delivered_to-Inv s ds v id n d a e f x q, λ z. absurd (cc z))

-- The senders dropped by the shutdown.
abbrev forsaken : Option Ask → Option Ask
forsaken none = none
forsaken (some a) = some (record a { slot = abandoned })

abandon_lem :
    (q : List (ℕ × ℕ)) (f : ℕ → Option Ask) (m : ℕ)
    → All (λ (e : ℕ × ℕ). e.0 ≡ e.1 + 1) q
    → abandon q f m ≡ (if contains_key (m + 1) q then forsaken (f m) else f m)
unfolding abandon lookup
abandon_lem [] f m k = refl
abandon_lem ((id, n) ∷ q) f m k = go (f n) refl (λ g. abandon_lem q g m k.1)
  where
    go :
        (o : Option Ask)
        → f n ≡ o
        → ((g : ℕ → Option Ask)
            → abandon q g m ≡ (if contains_key (m + 1) q then forsaken (g m) else g m))
        → abandon ((id, n) ∷ q) f m
          ≡ (if contains_key (m + 1) ((id, n) ∷ q) then forsaken (f m) else f m)
    go none e ih = elim (Bool-cases (n == m)) [
      | inl h ↦
          let p : f m ≡ none = let r : m ≡ n = ground arith in ap f r ∙ e in
          rw (e, abandon) (ground (arith, p, ih f, k.0))
      | inr h ↦ rw (e, abandon) (ground (arith, ih f, k.0))
    ]
    go (some a) e ih = elim (Bool-cases (n == m)) [
      | inl h ↦
          let p : f m ≡ some a = let r : m ≡ n = ground arith in ap f r ∙ e in
          rw (e, abandon) (ground (arith, p, ih (update f n (record a { slot = abandoned })), k.0))
      | inr h ↦
          rw (e, abandon) (ground (arith, ih (update f n (record a { slot = abandoned })), k.0))
    ]

-- A call after the shutdown.
shut-Entry :
    (s : Broker) (ds : List (ℕ × Decision)) (n : ℕ) (o : Option Ask)
    → Entry s ds n o
    → Entry (shutdown s) ds n (if contains_key (n + 1) s.queue then forsaken o else o)
unfolding shutdown lookup
shut-Entry s ds n none w = elim (Bool-cases (contains_key (n + 1) s.queue)) [
  | inl c ↦ rw c (refl, w.1, w.2)
  | inr c ↦ rw c (refl, w.1, w.2)
]
shut-Entry s ds n (some a) w = elim (Bool-cases (contains_key (n + 1) s.queue)) [
  | inl c ↦ rw c (
    w.0,
    w.1,
    refl,
    w.3,
    w.4,
    Agrees-unless_over (n + 1) abandoned a.phase (ground (arith, w.2, c)),
    tt,
  )
  | inr c ↦ rw c (w.0, w.1, ground (arith, w.2, c), w.3, w.4, w.5, w.6)
]

-- A decision that was sent is not taken back.
shut_slot :
    (s : Broker) (ds : List (ℕ × Decision)) (n : ℕ) (d : Decision) (o : Option Ask)
    → Entry s ds n o
    → slot_at o ≡ sent d
    → slot_at (if contains_key (n + 1) s.queue then forsaken o else o) ≡ sent d
shut_slot s ds n d none w h = absurd (ground arith)
shut_slot s ds n d (some a) w h = ground (arith, w.2)

pub shutdown-Inv : (s : Broker) (ds : List (ℕ × Decision)) → Inv s ds → Inv (shutdown s) ds
unfolding shutdown
shutdown-Inv s ds v = record {
  numbered = v.numbered;
  keys = tt;
  entry = λ n. rw (abandon_lem s.queue s.asks n v.keys) (shut-Entry s ds n (s.asks n) (v.entry n));
  answered = λ n d u.
      rw (abandon_lem s.queue s.asks n v.keys)
        (shut_slot s ds n d (s.asks n) (v.entry n) (v.answered n d u));
}

module _ (s : Broker) (ds : List (ℕ × Decision)) (v : Inv s ds) where
  -- The next call has no number yet, and its id is not in the queue.
  next_unused : (s.asks s.calls ≡ none) × Entry s ds s.calls none
  next_unused = go (s.asks s.calls) refl (v.entry s.calls)
    where
      go :
          (o : Option Ask)
          → s.asks s.calls ≡ o
          → Entry s ds s.calls o
          → (s.asks s.calls ≡ none) × Entry s ds s.calls none
      go none e w = (e, w)
      go (some a) e w = absurd (omega (arith, w.0))

  fresh_id-next : fresh_id s ≡ s.calls + 1
  unfolding fresh_id
  fresh_id-next =
      let (e, w) = next_unused in
      let f : length s.queue + 2 ≡ suc (length s.queue + 1) = omega arith in
      rw f (ground (arith, v.numbered, w.0))

  abbrev begun : Broker
  begun = enqueue s (s.calls + 1)

  begun-Inv : s.calls + 1 < 2 ^ 64 - 1 → Inv begun ds
  unfolding lookup
  begun-Inv c =
      let (e, w) = next_unused in
      record {
        numbered = ground arith;
        keys = (refl, v.keys);
        entry =
            Entry-update begun ds s.asks s.calls _
              (omega arith, refl, ground arith, w.1, w.2, tt, tt)
              λ m f.
                Entry-frame s begun ds ds m (s.asks m) (omega arith) (ground arith) refl refl
                  (λ c u. u) (v.entry m);
        answered = λ m d u. begun_slot m d (v.answered m d u);
      }
    where
      begun_slot :
          (m : ℕ) (d : Decision) → slot_at (s.asks m) ≡ sent d → slot_at (begun.asks m) ≡ sent d
      begun_slot m d h = elim (Bool-cases (s.calls == m)) [
        | inl f ↦
            let p : m ≡ s.calls = ground arith in
            absurd (ground (arith, h, ap slot_at (ap s.asks p ∙ next_unused.0)))
        | inr f ↦ rw f h
      ]

-- A call that begins changes nothing, or queues its offer under a fresh id while there is room.
pub ask_begin-cases :
    (s : Broker)
    → ((ask_begin s).0 ≡ s)
      ⊎ ((s.is_shut_down ≡ false)
          × (length s.queue < s.max_pending)
          × ((ask_begin s).0 ≡ enqueue s (fresh_id s)))
unfolding ask_begin
ask_begin-cases s = go s.is_shut_down (leb s.max_pending (length s.queue)) refl refl
  where
    go :
        (b c : Bool)
        → s.is_shut_down ≡ b
        → leb s.max_pending (length s.queue) ≡ c
        → ((ask_begin s).0 ≡ s)
          ⊎ ((s.is_shut_down ≡ false)
              × (length s.queue < s.max_pending)
              × ((ask_begin s).0 ≡ enqueue s (fresh_id s)))
    go true c e f = inl (simp e)
    go false true e f = inl (simp (e, f))
    go false false e f = inr (e, not_leb→lt _ _ f, simp (e, f))

pub begin-Inv :
    (s : Broker) (ds : List (ℕ × Decision))
    → (ask_begin s).0.calls < 2 ^ 64 - 1
    → Inv s ds
    → Inv (ask_begin s).0 ds
begin-Inv s ds c v = elim (ask_begin-cases s) [
  | inl e ↦ subst (λ t. Inv t ds) (sym e) v
  | inr (h, k, e) ↦
      let f : (ask_begin s).0 ≡ enqueue s (s.calls + 1) =
        e ∙ ap (enqueue s) (fresh_id-next s ds v) in
      subst (λ t. Inv t ds) (sym f)
        (begun-Inv s ds v (subst (λ (t : Broker). t.calls < 2 ^ 64 - 1) f c))
]
