-- ===== src/Gate/Room.antt =====
-- How much waits at the gate of hub.rs, whatever happens.
use sukkula.Base.{
  ℕ, ◌≡◌, ◌∙◌, refl, ap, Bool, true, Option, none, some, List, [], ◌∷◌, arith, if-split, all,
}
use sukkula.Api.{Event}
use sukkula.Gate.{
  is_closed, Queue, Queued, Next, fit, closing, close, pop, next, count_delivered, leave,
}
use sukkula.Gate.Runs.{
  Thread, World, Step, new_world, push_fit, turned, turn_at, call_at, return_at, leave_at, step,
  run,
}
use sukkula.Gate.Order.{IsOrdered, is_over}
use sukkula.Gate.Turns.{step-IsOrdered, run-IsOrdered}
use sukkula.Gate.Bounds.{
  IsHeld, counted, weight, may_wait, fit-fits, push-IsHeld, close_to-IsHeld, end-IsHeld,
  empty-IsHeld, popped-IsHeld,
}

module _ {X : Type 0} where
  push_fit-IsHeld :
      (json_len : Event X → ℕ) (w : World X) (e : Event X) (has_permit in_delivery : Bool)
      (o : Option (Event X × ℕ))
      → fit json_len e ≡ o
      → may_wait (Step.pushing e has_permit in_delivery) ≡ true
      → IsOrdered w
      → IsHeld w
      → IsHeld (push_fit w has_permit in_delivery o)
  push_fit-IsHeld json_len w e has_permit in_delivery none f m o v = v
  push_fit-IsHeld json_len w e has_permit in_delivery (some (e', n)) f m o v =
      push-IsHeld w e' n has_permit in_delivery m (fit-fits json_len e e' n f) o v

  pop-IsHeld :
      (w : World X) (items : List (Queued X))
      → w.q.items ≡ items
      → IsHeld w
      → IsHeld (turned w (pop w.q items))
  pop-IsHeld w [] i v = empty-IsHeld w w.q.state i v
  pop-IsHeld w (item ∷ rest) i v = popped-IsHeld w item.bytes item.event item.has_permit rest i v

  turn_at-IsHeld : (w : World X) (t : Thread X) → IsOrdered w → IsHeld w → IsHeld (turn_at w t)
  unfolding next
  turn_at-IsHeld w Thread.listening o v =
      let ends : Queue X × Next X = (w.q, Next.ends) in
      if-split (λ r. IsHeld (turned w r)) (is_closed w.q.state) ends (pop w.q w.q.items)
        (λ c. end-IsHeld w (o.emptied c) v) (λ c. pop-IsHeld w w.q.items refl v)
  turn_at-IsHeld w Thread.calling o v = v
  turn_at-IsHeld w Thread.ended o v = v
  turn_at-IsHeld w Thread.gone o v = v
  turn_at-IsHeld w (Thread.holding e) o v = v

  call_at-IsHeld : (w : World X) (t : Thread X) → IsHeld w → IsHeld (call_at w t)
  call_at-IsHeld w Thread.listening v = v
  call_at-IsHeld w Thread.calling v = v
  call_at-IsHeld w Thread.ended v = v
  call_at-IsHeld w Thread.gone v = v
  call_at-IsHeld w (Thread.holding e) v = record {
    events = v.events;
    bytes = v.bytes;
    few = v.few;
    light = v.light;
    sized = v.sized;
    over = λ x. absurd (ground (arith, x));
  }

  return_at-IsHeld : (w : World X) (t : Thread X) → IsHeld w → IsHeld (return_at w t)
  unfolding count_delivered
  return_at-IsHeld w Thread.listening v = v
  return_at-IsHeld w Thread.calling v = record {
    events = v.events;
    bytes = v.bytes;
    few = v.few;
    light = v.light;
    sized = v.sized;
    over = λ x. absurd (ground (arith, x));
  }
  return_at-IsHeld w Thread.ended v = v
  return_at-IsHeld w Thread.gone v = v
  return_at-IsHeld w (Thread.holding e) v = v

  leave_at-IsHeld : (w : World X) (t : Thread X) → w.thread ≡ t → IsHeld w → IsHeld (leave_at w t)
  unfolding leave
  leave_at-IsHeld w Thread.listening t v = v
  leave_at-IsHeld w Thread.calling t v = v
  leave_at-IsHeld w Thread.ended t v =
      let i = v.over (ap is_over t) in
      record {
        events = v.events ∙ ap counted i;
        bytes = v.bytes ∙ ap weight i;
        few = v.few;
        light = v.light;
        sized = tt;
        over = λ x. refl;
      }
  leave_at-IsHeld w Thread.gone t v = v
  leave_at-IsHeld w (Thread.holding e) t v = v

  step-IsHeld :
      (json_len : Event X → ℕ) (w : World X) (s : Step X)
      → may_wait s ≡ true
      → IsOrdered w
      → IsHeld w
      → IsHeld (step json_len w s)
  unfolding close
  step-IsHeld json_len w (Step.pushing e has_permit in_delivery) m o v =
      push_fit-IsHeld json_len w e has_permit in_delivery (fit json_len e) refl m o v
  step-IsHeld json_len w (Step.closing f) m o v = close_to-IsHeld w (closing f w.q.state) v
  step-IsHeld json_len w Step.turning m o v = turn_at-IsHeld w w.thread o v
  step-IsHeld json_len w Step.calling m o v = call_at-IsHeld w w.thread v
  step-IsHeld json_len w Step.returning m o v = return_at-IsHeld w w.thread v
  step-IsHeld json_len w Step.leaving m o v = leave_at-IsHeld w w.thread refl v

  run-IsHeld_from :
      (json_len : Event X → ℕ) (w : World X) (ss : List (Step X))
      → all may_wait ss ≡ true
      → IsOrdered w
      → IsHeld w
      → IsHeld (run json_len w ss)
  run-IsHeld_from json_len w [] m o v = v
  run-IsHeld_from json_len w (s ∷ ss) m o v =
      run-IsHeld_from json_len (step json_len w s) ss (ground (arith, m))
        (step-IsOrdered json_len w s o) (step-IsHeld json_len w s (ground (arith, m)) o v)

  -- Unless the delivery thread itself pushes events without a command slot: at most 1024 events that
  -- hold no command slot wait, of at most 4 MiB together, the gate's counts of both are exact, and no
  -- waiting event is larger than 256 KiB.
  pub run-IsHeld :
      (json_len : Event X → ℕ) (ss : List (Step X))
      → all may_wait ss ≡ true
      → IsHeld (run json_len new_world ss)
  run-IsHeld json_len ss m =
      run-IsHeld_from json_len new_world ss m (run-IsOrdered json_len []) (record {
        events = refl;
        bytes = refl;
        few = omega arith;
        light = omega arith;
        sized = tt;
        over = λ t. refl;
      })
