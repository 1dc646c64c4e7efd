-- ===== src/Gate/Turns.antt =====
-- The turns of the delivery thread of hub.rs, and `close`, keep the order of the events.
use mathlib.Core.List.{append_assoc}
use sukkula.Base.{
  ℕ, ◌≡◌, refl, sym, ◌∙◌, ap, inl, inr, Bool, true, false, List, [], ◌∷◌, ◌++◌, arith,
  length-append, Bool-cases, if-split,
}
use sukkula.Api.{Event}
use sukkula.Gate.{
  GateState, is_open, is_closed, Queue, Queued, Finish, Next, fit, closing, close_to, close, pop,
  popped, empty_next, next, count_delivered, leave,
}
use sukkula.Gate.Runs.{
  Thread, World, Step, new_world, turned, turn_at, call_at, return_at, leave_at, step, run,
}
use sukkula.Gate.Order.{
  is_gone, is_over, in_sink, events_of, hand_on, IsOrdered, push_fit-IsOrdered,
}

closed_not_open : (s : GateState) → is_closed s ≡ true → is_open s ≡ false
closed_not_open GateState.opened h = ground (arith, h)
closed_not_open GateState.draining h = refl
closed_not_open GateState.closed h = refl

module _ {X : Type 0} where
  state-IsOrdered :
      (w : World X) (s : GateState)
      → is_closed s ≡ false
      → (is_open w.q.state ≡ false → is_open s ≡ false)
      → (is_closed w.q.state ≡ true → is_closed s ≡ true)
      → IsOrdered w
      → IsOrdered (record w { q = record w.q { state = s } })
  state-IsOrdered w s n f g v = record {
    prefix = v.prefix;
    waiting = λ c x. elim (Bool-cases (is_closed w.q.state)) [
      | inl e ↦ absurd (ground (arith, n, g e))
      | inr e ↦ v.waiting e x
    ];
    emptied = λ c. absurd (ground (arith, n, c));
    over = λ t. f (v.over t);
    accepted = v.accepted;
    delivered = v.delivered;
    begun = v.begun;
  }

  close_to-IsOrdered :
      (w : World X) (s : GateState)
      → (is_open w.q.state ≡ false → is_open s ≡ false)
      → (is_closed w.q.state ≡ true → is_closed s ≡ true)
      → IsOrdered w
      → IsOrdered (record w { q = close_to w.q s })
  close_to-IsOrdered w GateState.closed f g v = record {
    prefix = v.prefix;
    waiting = λ c. ground (arith, c);
    emptied = λ c. refl;
    over = λ t. refl;
    accepted = v.accepted;
    delivered = v.delivered;
    begun = v.begun;
  }
  close_to-IsOrdered w GateState.opened f g v = state-IsOrdered w GateState.opened refl f g v
  close_to-IsOrdered w GateState.draining f g v = state-IsOrdered w GateState.draining refl f g v

  takes-IsOrdered :
      (w : World X) (item : Queued X) (rest : List (Queued X)) (h : Queue X)
      → w.thread ≡ Thread.listening
      → w.q.items ≡ item ∷ rest
      → is_closed w.q.state ≡ false
      → h.state ≡ w.q.state
      → h.delivered ≡ w.q.delivered
      → h.accepted ≡ w.q.accepted
      → h.items ≡ rest
      → IsOrdered w
      → IsOrdered (record w { q = h; thread = Thread.holding item.event })
  takes-IsOrdered w item rest h t i c s d a r v =
      let flow : w.taken ≡ w.sent ++ (item.event ∷ events_of h.items) =
        v.waiting c (ap is_gone t)
        ∙ ap (λ x. w.sent ++ hand_on x (events_of w.q.items)) t
        ∙ ap (λ l. w.sent ++ events_of l) i
        ∙ ap (λ l. w.sent ++ (item.event ∷ events_of l)) (sym r) in
      let n : in_sink w.thread ≡ 0 = ap in_sink t in
      record {
        prefix = (events_of h.items, flow);
        waiting = λ x y. flow;
        emptied = λ x. absurd (ground (arith, x, ap is_closed s, c));
        over = λ x. ground (arith, x);
        accepted = a ∙ v.accepted;
        delivered = omega (arith, d, v.delivered, n);
        begun = omega arith;
      }

  end-IsOrdered :
      (w : World X)
      → w.thread ≡ Thread.listening
      → is_open w.q.state ≡ false
      → IsOrdered w
      → IsOrdered (record w { thread = Thread.ended })
  end-IsOrdered w t o v = record {
    prefix = (v.prefix.0, v.prefix.1 ∙ ap (λ x. w.sent ++ hand_on x v.prefix.0) t);
    waiting =
        λ c x. v.waiting c (ap is_gone t) ∙ ap (λ y. w.sent ++ hand_on y (events_of w.q.items)) t;
    emptied = v.emptied;
    over = λ x. o;
    accepted = v.accepted;
    delivered = omega (arith, v.delivered, ap in_sink t);
    begun = omega arith;
  }

  empty-IsOrdered :
      (w : World X) (s : GateState)
      → w.thread ≡ Thread.listening
      → w.q.state ≡ s
      → IsOrdered w
      → IsOrdered (turned w (w.q, empty_next s))
  empty-IsOrdered w GateState.opened t e v = v
  empty-IsOrdered w GateState.draining t e v = end-IsOrdered w t (ap is_open e) v
  empty-IsOrdered w GateState.closed t e v = end-IsOrdered w t (ap is_open e) v

  popped-IsOrdered :
      (w : World X) (bytes : ℕ) (event : Event X) (has_permit : Bool) (rest : List (Queued X))
      → w.thread ≡ Thread.listening
      → is_closed w.q.state ≡ false
      → let item : Queued X = record { event = event; bytes = bytes; has_permit = has_permit } in
        w.q.items ≡ item ∷ rest → IsOrdered w → IsOrdered (turned w (pop w.q (item ∷ rest)))
  popped-IsOrdered w bytes event true rest t c i v =
      let item : Queued X = record { event = event; bytes = bytes; has_permit = true } in
      takes-IsOrdered w item rest (popped w.q item rest) t i c refl refl refl refl v
  popped-IsOrdered w bytes event false rest t c i v =
      let item : Queued X = record { event = event; bytes = bytes; has_permit = false } in
      takes-IsOrdered w item rest (popped w.q item rest) t i c refl refl refl refl v

  pop-IsOrdered :
      (w : World X) (items : List (Queued X))
      → w.thread ≡ Thread.listening
      → is_closed w.q.state ≡ false
      → w.q.items ≡ items
      → IsOrdered w
      → IsOrdered (turned w (pop w.q items))
  pop-IsOrdered w [] t c i v = empty-IsOrdered w w.q.state t refl v
  pop-IsOrdered w (item ∷ rest) t c i v =
      popped-IsOrdered w item.bytes item.event item.has_permit rest t c i v

  turn_at-IsOrdered :
      (w : World X) (t : Thread X) → w.thread ≡ t → IsOrdered w → IsOrdered (turn_at w t)
  unfolding next
  turn_at-IsOrdered w Thread.listening t v =
      let ends : Queue X × Next X = (w.q, Next.ends) in
      if-split (λ r. IsOrdered (turned w r)) (is_closed w.q.state) ends (pop w.q w.q.items)
        (λ c. end-IsOrdered w t (closed_not_open w.q.state c) v)
        (λ c. pop-IsOrdered w w.q.items t c refl v)
  turn_at-IsOrdered w Thread.calling t v = v
  turn_at-IsOrdered w Thread.ended t v = v
  turn_at-IsOrdered w Thread.gone t v = v
  turn_at-IsOrdered w (Thread.holding e) t v = v

  call_at-IsOrdered :
      (w : World X) (t : Thread X) → w.thread ≡ t → IsOrdered w → IsOrdered (call_at w t)
  call_at-IsOrdered w Thread.listening t v = v
  call_at-IsOrdered w Thread.calling t v = v
  call_at-IsOrdered w Thread.ended t v = v
  call_at-IsOrdered w Thread.gone t v = v
  call_at-IsOrdered w (Thread.holding e) t v =
      let flow : (es : List (Event X))
          → w.taken ≡ w.sent ++ hand_on w.thread es
          → w.taken ≡ (w.sent ++ (e ∷ [])) ++ es =
        λ es h. h ∙ ap (λ x. w.sent ++ hand_on x es) t ∙ sym (append_assoc w.sent (e ∷ []) es) in
      let l = length-append w.sent (e ∷ []) in
      record {
        prefix = (v.prefix.0, flow v.prefix.0 v.prefix.1);
        waiting = λ c x. flow (events_of w.q.items) (v.waiting c (ap is_gone t));
        emptied = v.emptied;
        over = λ x. absurd (ground (arith, x));
        accepted = v.accepted;
        delivered = omega (arith, v.delivered, ap in_sink t, l);
        begun = omega (arith, l);
      }

  return_at-IsOrdered :
      (w : World X) (t : Thread X) → w.thread ≡ t → IsOrdered w → IsOrdered (return_at w t)
  unfolding count_delivered
  return_at-IsOrdered w Thread.listening t v = v
  return_at-IsOrdered w Thread.calling t v = record {
    prefix = (v.prefix.0, v.prefix.1 ∙ ap (λ x. w.sent ++ hand_on x v.prefix.0) t);
    waiting =
        λ c x. v.waiting c (ap is_gone t) ∙ ap (λ y. w.sent ++ hand_on y (events_of w.q.items)) t;
    emptied = v.emptied;
    over = λ x. absurd (ground (arith, x));
    accepted = v.accepted;
    delivered = omega (arith, v.delivered, v.begun, ap in_sink t);
    begun = omega arith;
  }
  return_at-IsOrdered w Thread.ended t v = v
  return_at-IsOrdered w Thread.gone t v = v
  return_at-IsOrdered w (Thread.holding e) t v = v

  leave_at-IsOrdered :
      (w : World X) (t : Thread X) → w.thread ≡ t → IsOrdered w → IsOrdered (leave_at w t)
  unfolding leave
  leave_at-IsOrdered w Thread.listening t v = v
  leave_at-IsOrdered w Thread.calling t v = v
  leave_at-IsOrdered w Thread.ended t v = record {
    prefix = (v.prefix.0, v.prefix.1 ∙ ap (λ x. w.sent ++ hand_on x v.prefix.0) t);
    waiting = λ c x. absurd (ground (arith, x));
    emptied = λ c. refl;
    over = λ x. v.over (ap is_over t);
    accepted = v.accepted;
    delivered = omega (arith, v.delivered, ap in_sink t);
    begun = omega arith;
  }
  leave_at-IsOrdered w Thread.gone t v = v
  leave_at-IsOrdered w (Thread.holding e) t v = v

  close-IsOrdered :
      (w : World X) (f : Finish) (s : GateState)
      → w.q.state ≡ s
      → IsOrdered w
      → IsOrdered (record w { q = close_to w.q (closing f s) })
  close-IsOrdered w Finish.drain GateState.opened e v =
      close_to-IsOrdered w GateState.draining (λ x. refl)
        (λ c. absurd (ground (arith, c, ap is_closed e))) v
  close-IsOrdered w Finish.drain GateState.draining e v =
      close_to-IsOrdered w GateState.draining (λ x. refl)
        (λ c. absurd (ground (arith, c, ap is_closed e))) v
  close-IsOrdered w Finish.drain GateState.closed e v =
      close_to-IsOrdered w GateState.closed (λ x. refl) (λ c. refl) v
  close-IsOrdered w Finish.discard s e v =
      close_to-IsOrdered w GateState.closed (λ x. refl) (λ c. refl) v

  pub step-IsOrdered :
      (json_len : Event X → ℕ) (w : World X) (s : Step X)
      → IsOrdered w
      → IsOrdered (step json_len w s)
  unfolding close
  step-IsOrdered json_len w (Step.pushing e has_permit in_delivery) v =
      push_fit-IsOrdered w has_permit in_delivery (fit json_len e) v
  step-IsOrdered json_len w (Step.closing f) v = close-IsOrdered w f w.q.state refl v
  step-IsOrdered json_len w Step.turning v = turn_at-IsOrdered w w.thread refl v
  step-IsOrdered json_len w Step.calling v = call_at-IsOrdered w w.thread refl v
  step-IsOrdered json_len w Step.returning v = return_at-IsOrdered w w.thread refl v
  step-IsOrdered json_len w Step.leaving v = leave_at-IsOrdered w w.thread refl v

  run-IsOrdered_from :
      (json_len : Event X → ℕ) (w : World X) (ss : List (Step X))
      → IsOrdered w
      → IsOrdered (run json_len w ss)
  run-IsOrdered_from json_len w [] v = v
  run-IsOrdered_from json_len w (s ∷ ss) v =
      run-IsOrdered_from json_len (step json_len w s) ss (step-IsOrdered json_len w s v)

  -- Whatever happens in whatever order, the sink was given the first of the accepted events, in the
  -- order in which they were accepted; the next may be in the hand of the delivery thread, between the
  -- lock and the sink; the others still wait, unless the gate is closed or its thread gone; a closed
  -- gate keeps none; and the counts of accepted and of delivered events are right, up to their largest
  -- value.
  pub run-IsOrdered :
      (json_len : Event X → ℕ) (ss : List (Step X)) → IsOrdered (run json_len new_world ss)
  run-IsOrdered json_len ss = run-IsOrdered_from json_len new_world ss (record {
    prefix = ([], refl);
    waiting = λ c x. refl;
    emptied = λ c. refl;
    over = λ x. absurd (ground (arith, x));
    accepted = omega arith;
    delivered = omega arith;
    begun = omega arith;
  })
