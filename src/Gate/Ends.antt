-- ===== src/Gate/Ends.antt =====
-- The gate of hub.rs once it is closed.
use mathlib.Core.List.{append-nil}
use sukkula.Base.{
  ℕ, ◌≡◌, refl, sym, ◌∙◌, ◌++◌, ap, Bool, not, ◌&&◌, Option, none, some, List, [], ◌∷◌, arith,
  if-split, if◌then◌else◌,
}
use sukkula.Api.{Event}
use sukkula.Gate.{
  GateState, is_open, is_closed, Queue, Finish, Turn, Next, fit, push_turn, accept, sat_add,
  is_crowded, closing, close_to, close, pop, next, count_delivered, leave,
}
use sukkula.Gate.Runs.{
  Thread, World, Step, pushed, push_fit, turned, turn_at, call_at, return_at, leave_at, step, run,
}
use sukkula.Gate.Order.{hand_on}

closing_closed : (f : Finish) → closing f GateState.closed ≡ GateState.closed
closing_closed Finish.drain = refl
closing_closed Finish.discard = refl

module _ {X : Type 0} where
  -- A closed gate stays closed, and its sink and its thread have together what they have.
  record IsShut (w w' : World X) : Type 0 where
    shut : w'.q.state ≡ GateState.closed
    same : w'.sent ++ hand_on w'.thread [] ≡ w.sent ++ hand_on w.thread []

  push-IsShut :
      (w : World X) (e : Event X) (bytes : ℕ) (has_permit in_delivery : Bool)
      → w.q.state ≡ GateState.closed
      → IsShut w (pushed w e (push_turn w.q e bytes has_permit in_delivery))
  unfolding push_turn
  push-IsShut w e bytes has_permit in_delivery c =
      let q = w.q in
      let P : Queue X × Turn → Type 0 = λ r. IsShut w (pushed w e r) in
      let waits : Queue X × Turn = (q, Turn.waits) in
      let refused : Queue X × Turn = (q, Turn.refused) in
      let taken : Queue X × Turn =
        (accept q e bytes has_permit, Turn.numbered (sat_add q.accepted 1)) in
      let v : IsShut w w = record { shut = c; same = refl } in
      if-split P (not has_permit && not in_delivery && is_open q.state && is_crowded q bytes) waits
        (if not (is_open q.state) then refused else taken) (λ a. v)
        (λ a.
          if-split P (not (is_open q.state)) refused taken (λ b. v)
            (λ b. absurd (ground (arith, b, ap is_open c))))

  push_fit-IsShut :
      (w : World X) (has_permit in_delivery : Bool) (o : Option (Event X × ℕ))
      → w.q.state ≡ GateState.closed
      → IsShut w (push_fit w has_permit in_delivery o)
  push_fit-IsShut w has_permit in_delivery none c = record { shut = c; same = refl }
  push_fit-IsShut w has_permit in_delivery (some (e, bytes)) c =
      push-IsShut w e bytes has_permit in_delivery c

  turn_at-IsShut :
      (w : World X) (t : Thread X)
      → w.thread ≡ t
      → w.q.state ≡ GateState.closed
      → IsShut w (turn_at w t)
  unfolding next
  turn_at-IsShut w Thread.listening t c =
      let ends : Queue X × Next X = (w.q, Next.ends) in
      if-split (λ r. IsShut w (turned w r)) (is_closed w.q.state) ends (pop w.q w.q.items)
        (λ x. record { shut = c; same = ap (λ x. w.sent ++ hand_on x []) (sym t) })
        (λ x. absurd (ground (arith, x, ap is_closed c)))
  turn_at-IsShut w Thread.calling t c = record { shut = c; same = refl }
  turn_at-IsShut w Thread.ended t c = record { shut = c; same = refl }
  turn_at-IsShut w Thread.gone t c = record { shut = c; same = refl }
  turn_at-IsShut w (Thread.holding e) t c = record { shut = c; same = refl }

  call_at-IsShut :
      (w : World X) (t : Thread X)
      → w.thread ≡ t
      → w.q.state ≡ GateState.closed
      → IsShut w (call_at w t)
  call_at-IsShut w Thread.listening t c = record { shut = c; same = refl }
  call_at-IsShut w Thread.calling t c = record { shut = c; same = refl }
  call_at-IsShut w Thread.ended t c = record { shut = c; same = refl }
  call_at-IsShut w Thread.gone t c = record { shut = c; same = refl }
  call_at-IsShut w (Thread.holding e) t c = record {
    shut = c;
    same = append-nil (w.sent ++ (e ∷ [])) ∙ ap (λ x. w.sent ++ hand_on x []) (sym t);
  }

  return_at-IsShut :
      (w : World X) (t : Thread X)
      → w.thread ≡ t
      → w.q.state ≡ GateState.closed
      → IsShut w (return_at w t)
  unfolding count_delivered
  return_at-IsShut w Thread.listening t c = record { shut = c; same = refl }
  return_at-IsShut w Thread.calling t c = record {
    shut = c;
    same = ap (λ x. w.sent ++ hand_on x []) (sym t);
  }
  return_at-IsShut w Thread.ended t c = record { shut = c; same = refl }
  return_at-IsShut w Thread.gone t c = record { shut = c; same = refl }
  return_at-IsShut w (Thread.holding e) t c = record { shut = c; same = refl }

  leave_at-IsShut :
      (w : World X) (t : Thread X)
      → w.thread ≡ t
      → w.q.state ≡ GateState.closed
      → IsShut w (leave_at w t)
  unfolding leave
  leave_at-IsShut w Thread.listening t c = record { shut = c; same = refl }
  leave_at-IsShut w Thread.calling t c = record { shut = c; same = refl }
  leave_at-IsShut w Thread.ended t c = record {
    shut = c;
    same = ap (λ x. w.sent ++ hand_on x []) (sym t);
  }
  leave_at-IsShut w Thread.gone t c = record { shut = c; same = refl }
  leave_at-IsShut w (Thread.holding e) t c = record { shut = c; same = refl }

  close_to-IsShut :
      (w : World X) (s : GateState)
      → s ≡ GateState.closed
      → IsShut w (record w { q = close_to w.q s })
  close_to-IsShut w GateState.closed c = record { shut = refl; same = refl }
  close_to-IsShut w GateState.opened c = absurd (ground (arith, ap is_closed c))
  close_to-IsShut w GateState.draining c = absurd (ground (arith, ap is_closed c))

  step-IsShut :
      (json_len : Event X → ℕ) (w : World X) (s : Step X)
      → w.q.state ≡ GateState.closed
      → IsShut w (step json_len w s)
  unfolding close
  step-IsShut json_len w (Step.pushing e has_permit in_delivery) c =
      push_fit-IsShut w has_permit in_delivery (fit json_len e) c
  step-IsShut json_len w (Step.closing f) c =
      close_to-IsShut w (closing f w.q.state) (ap (closing f) c ∙ closing_closed f)
  step-IsShut json_len w Step.turning c = turn_at-IsShut w w.thread refl c
  step-IsShut json_len w Step.calling c = call_at-IsShut w w.thread refl c
  step-IsShut json_len w Step.returning c = return_at-IsShut w w.thread refl c
  step-IsShut json_len w Step.leaving c = leave_at-IsShut w w.thread refl c

  run_closed :
      (json_len : Event X → ℕ) (w : World X) (ss : List (Step X))
      → w.q.state ≡ GateState.closed
      → let w' = run json_len w ss in
        w'.sent ++ hand_on w'.thread [] ≡ w.sent ++ hand_on w.thread []
  run_closed json_len w [] c = refl
  run_closed json_len w (s ∷ ss) c =
      let v = step-IsShut json_len w s c in
      run_closed json_len (step json_len w s) ss v.shut ∙ v.same

  -- After a `close` that discards, whatever happens, the sink gets no further event but the one that
  -- the delivery thread had already taken and held between the lock and the sink, if any: the events
  -- given to the sink, with the one in hand, stay what they were before the `close`.
  pub run-discarded :
      (json_len : Event X → ℕ) (w : World X) (ss : List (Step X))
      → let w' = run json_len (step json_len w (Step.closing Finish.discard)) ss in
        w'.sent ++ hand_on w'.thread [] ≡ w.sent ++ hand_on w.thread []
  unfolding close
  run-discarded json_len w ss =
      run_closed json_len (step json_len w (Step.closing Finish.discard)) ss refl
