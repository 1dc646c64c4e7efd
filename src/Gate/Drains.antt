-- ===== src/Gate/Drains.antt =====
-- The gate of hub.rs while it drains: what waits is delivered, and the thread ends.
use mathlib.Core.Path.{subst}
use mathlib.Core.List.{append_assoc, append-nil}
use sukkula.Base.{
  ℕ, zero, suc, ◌≡◌, refl, sym, ◌∙◌, ap, Bool, true, false, List, [], ◌∷◌, ◌++◌, arith, length,
  if-both,
}
use sukkula.Api.{Event}
use sukkula.Gate.{
  GateState, is_closed, Queue, Queued, Next, pop, popped, empty_next, next, count_delivered, leave,
}
use sukkula.Gate.Runs.{
  Thread, World, Step, new_world, turned, turn_at, call_at, return_at, step, run,
}
use sukkula.Gate.Order.{is_over, not_gone, events_of, hand_on}
use sukkula.Gate.Turns.{run-IsOrdered}

module _ {X : Type 0} where
  -- Some events one after another, each with the call of the sink and its return, and the end of the thread.
  abbrev pub deliveries : ℕ → List (Step X)
  deliveries zero = Step.turning ∷ Step.leaving ∷ []
  deliveries (suc n) = Step.turning ∷ Step.calling ∷ Step.returning ∷ deliveries n

  popped-items :
      (q : Queue X) (item : Queued X) (rest : List (Queued X)) → (popped q item rest).items ≡ rest
  popped-items q item rest = if-both (λ (x : Queue X). x.items ≡ rest) item.has_permit _ _ refl refl

  popped-state :
      (q : Queue X) (item : Queued X) (rest : List (Queued X))
      → (popped q item rest).state ≡ q.state
  popped-state q item rest =
      if-both (λ (x : Queue X). x.state ≡ q.state) item.has_permit _ _ refl refl

  -- The world after an event was delivered.
  after : World X → Queued X → List (Queued X) → World X
  after w item rest = record w {
    q = count_delivered (popped w.q item rest);
    thread = Thread.listening;
    sent = w.sent ++ (item.event ∷ []);
  }

  next-takes :
      (q : Queue X) (item : Queued X) (rest : List (Queued X))
      → is_closed q.state ≡ false
      → q.items ≡ item ∷ rest
      → next q ≡ (popped q item rest, Next.takes item)
  unfolding next
  next-takes q item rest c i = rw c (ap (pop q) i)

  next-ends : (q : Queue X) → q.state ≡ GateState.draining → q.items ≡ [] → next q ≡ (q, Next.ends)
  unfolding next
  next-ends q s i =
      let c : is_closed q.state ≡ false = ap is_closed s in
      rw c (ap (pop q) i ∙ ap (λ x. (q, empty_next x)) s)

  one_delivery :
      (json_len : Event X → ℕ) (w : World X) (item : Queued X) (rest : List (Queued X))
      → w.thread ≡ Thread.listening
      → is_closed w.q.state ≡ false
      → w.q.items ≡ item ∷ rest
      → step json_len (step json_len (step json_len w Step.turning) Step.calling) Step.returning
        ≡ after w item rest
  unfolding after
  one_delivery json_len w item rest t c i =
      ap (λ x. step json_len (step json_len x Step.calling) Step.returning)
        (ap (turn_at w) t ∙ ap (turned w) (next-takes w.q item rest c i))

  -- The thread has delivered everything and is gone.
  record IsDrained (w w' : World X) (events : List (Event X)) : Type 0 where
    all_sent : w'.sent ≡ w.sent ++ events
    finished : w'.q.is_finished ≡ true

  drained :
      (json_len : Event X → ℕ) (w : World X) (items : List (Queued X))
      → w.q.items ≡ items
      → w.thread ≡ Thread.listening
      → w.q.state ≡ GateState.draining
      → IsDrained w (run json_len w (deliveries (length items))) (events_of items)
  unfolding leave after count_delivered
  drained json_len w [] i t s =
      let e : step json_len w Step.turning ≡ record w { thread = Thread.ended } =
        ap (turn_at w) t ∙ ap (turned w) (next-ends w.q s i) in
      subst (λ x. IsDrained w (step json_len x Step.leaving) []) (sym e)
        (record { all_sent = sym (append-nil w.sent); finished = refl })
  drained json_len w (item ∷ rest) i t s =
      let w1 = after w item rest in
      let ih =
        drained json_len w1 rest (popped-items w.q item rest) refl
          (popped-state w.q item rest ∙ s) in
      subst (λ x. IsDrained w (run json_len x (deliveries (length rest))) (events_of (item ∷ rest)))
        (sym (one_delivery json_len w item rest t (ap is_closed s) i))
        (record {
          all_sent = ih.all_sent ∙ append_assoc w.sent (item.event ∷ []) (events_of rest);
          finished = ih.finished;
        })

  -- Whether the thread holds an event for the sink.
  abbrev is_held : Thread X → Bool
  is_held Thread.listening = false
  is_held Thread.calling = false
  is_held Thread.ended = false
  is_held Thread.gone = false
  is_held (Thread.holding e) = true

  return_at-IsDrained :
      (json_len : Event X → ℕ) (w : World X) (t : Thread X)
      → w.thread ≡ t
      → is_over t ≡ false
      → is_held t ≡ false
      → w.q.state ≡ GateState.draining
      → IsDrained w
          (run json_len (return_at w t) (deliveries (length w.q.items)))
          (events_of w.q.items)
  unfolding count_delivered
  return_at-IsDrained json_len w Thread.listening t o k s = drained json_len w w.q.items refl t s
  return_at-IsDrained json_len w Thread.calling t o k s =
      let r =
        drained json_len (record w { q = count_delivered w.q; thread = Thread.listening }) w.q.items
          refl refl s in
      record { all_sent = r.all_sent; finished = r.finished }
  return_at-IsDrained json_len w Thread.ended t o k s = absurd (ground (arith, o))
  return_at-IsDrained json_len w Thread.gone t o k s = absurd (ground (arith, o))
  return_at-IsDrained json_len w (Thread.holding e) t o k s = absurd (ground (arith, k))

  call_at-IsDrained :
      (json_len : Event X → ℕ) (w : World X) (t : Thread X)
      → w.thread ≡ t
      → is_over t ≡ false
      → w.q.state ≡ GateState.draining
      → let x = call_at w t in
        IsDrained w
          (run json_len (return_at x x.thread) (deliveries (length w.q.items)))
          (hand_on t (events_of w.q.items))
  call_at-IsDrained json_len w Thread.listening t o s =
      return_at-IsDrained json_len w w.thread refl (ap is_over t) (ap is_held t) s
  call_at-IsDrained json_len w Thread.calling t o s =
      return_at-IsDrained json_len w w.thread refl (ap is_over t) (ap is_held t) s
  call_at-IsDrained json_len w Thread.ended t o s = absurd (ground (arith, o))
  call_at-IsDrained json_len w Thread.gone t o s = absurd (ground (arith, o))
  call_at-IsDrained json_len w (Thread.holding e) t o s =
      let x : World X = record w { thread = Thread.calling; sent = w.sent ++ (e ∷ []) } in
      let r = return_at-IsDrained json_len x Thread.calling refl refl refl s in
      record {
        all_sent = r.all_sent ∙ append_assoc w.sent (e ∷ []) (events_of w.q.items);
        finished = r.finished;
      }

  -- While the gate drains and its thread is in its loop or in the sink: after the sink was given the
  -- event in hand, if any, and returned, a turn, a call and a return for each event that waits, one turn
  -- more and its exit, the sink was given every event that was ever accepted, and the thread is finished.
  pub run-drained :
      (json_len : Event X → ℕ) (ss : List (Step X))
      → (run json_len new_world ss).q.state ≡ GateState.draining
      → is_over (run json_len new_world ss).thread ≡ false
      → let w = run json_len new_world ss in
        let w' = run json_len w (Step.calling ∷ Step.returning ∷ deliveries (length w.q.items)) in
        (w'.sent ≡ w.taken) × (w'.q.is_finished ≡ true)
  run-drained json_len ss s o =
      let w = run json_len new_world ss in
      let v = run-IsOrdered json_len ss in
      let r = call_at-IsDrained json_len w w.thread refl o s in
      (r.all_sent ∙ sym (v.waiting (ap is_closed s) (not_gone w.thread o)), r.finished)
