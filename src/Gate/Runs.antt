-- ===== src/Gate/Runs.antt =====
-- The gate of hub.rs with its delivery thread, in every interleaving of the holds of its lock.
use sukkula.Base.{ℕ, Bool, Option, none, some, List, [], ◌∷◌, ◌++◌}
use sukkula.Api.{Event}
use sukkula.Gate.{
  Queue, Finish, Turn, Next, new_gate, fit, push_turn, close, next, count_delivered, leave,
}

-- Where the delivery thread is: in its inner loop, after the lock with an event for the sink, in the
-- sink, after the loop, or gone.
pub data Thread (X : Type 0) : Type 0 where
  listening calling ended gone : Thread X
  holding : Event X → Thread X

-- The gate, and what happened: the events accepted and those given to the sink, in order.
pub record World (X : Type 0) : Type 0 where
  pub q : Queue X
  pub thread : Thread X
  pub taken : List (Event X)
  pub sent : List (Event X)

-- What can happen: a turn of a `push` (with a command slot or not, from the delivery thread or not),
-- a `close`, and what the delivery thread does: a turn at the lock, the call of the sink with the
-- event in hand, its return, and the exit.
pub data Step (X : Type 0) : Type 0 where
  pushing : Event X → Bool → Bool → Step X
  closing : Finish → Step X
  turning : Step X
  calling : Step X
  returning : Step X
  leaving : Step X

module _ {X : Type 0} where
  abbrev pub new_world : World X
  new_world = record { q = new_gate; thread = Thread.listening; taken = []; sent = [] }

  abbrev pub pushed : World X → Event X → Queue X × Turn → World X
  pushed w e (q, Turn.waits) = record w { q = q }
  pushed w e (q, Turn.refused) = record w { q = q }
  pushed w e (q, Turn.numbered n) = record w { q = q; taken = w.taken ++ (e ∷ []) }

  abbrev pub push_fit : World X → Bool → Bool → Option (Event X × ℕ) → World X
  push_fit w has_permit in_delivery none = w
  push_fit w has_permit in_delivery (some (e, bytes)) =
      pushed w e (push_turn w.q e bytes has_permit in_delivery)

  abbrev pub turned : World X → Queue X × Next X → World X
  turned w (q, Next.sleeps) = record w { q = q }
  turned w (q, Next.ends) = record w { q = q; thread = Thread.ended }
  turned w (q, Next.takes item) = record w { q = q; thread = Thread.holding item.event }

  abbrev pub turn_at : World X → Thread X → World X
  turn_at w Thread.listening = turned w (next w.q)
  turn_at w Thread.calling = w
  turn_at w Thread.ended = w
  turn_at w Thread.gone = w
  turn_at w (Thread.holding e) = w

  abbrev pub call_at : World X → Thread X → World X
  call_at w Thread.listening = w
  call_at w Thread.calling = w
  call_at w Thread.ended = w
  call_at w Thread.gone = w
  call_at w (Thread.holding e) = record w { thread = Thread.calling; sent = w.sent ++ (e ∷ []) }

  abbrev pub return_at : World X → Thread X → World X
  return_at w Thread.listening = w
  return_at w Thread.calling = record w { q = count_delivered w.q; thread = Thread.listening }
  return_at w Thread.ended = w
  return_at w Thread.gone = w
  return_at w (Thread.holding e) = w

  abbrev pub leave_at : World X → Thread X → World X
  leave_at w Thread.listening = w
  leave_at w Thread.calling = w
  leave_at w Thread.ended = record w { q = leave w.q; thread = Thread.gone }
  leave_at w Thread.gone = w
  leave_at w (Thread.holding e) = w

  abbrev pub step : (Event X → ℕ) → World X → Step X → World X
  step json_len w (Step.pushing e has_permit in_delivery) =
      push_fit w has_permit in_delivery (fit json_len e)
  step json_len w (Step.closing f) = record w { q = close w.q f }
  step json_len w Step.turning = turn_at w w.thread
  step json_len w Step.calling = call_at w w.thread
  step json_len w Step.returning = return_at w w.thread
  step json_len w Step.leaving = leave_at w w.thread

  abbrev pub run : (Event X → ℕ) → World X → List (Step X) → World X
  run json_len w [] = w
  run json_len w (s ∷ ss) = run json_len (step json_len w s) ss
