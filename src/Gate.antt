-- ===== src/Gate.antt =====
-- crates/sukkula-engine/src/hub.rs: the `Gate` between the engine and the sink of events. Each hold of
-- the lock is one function. How long an event is as JSON is an argument.
pub mod Runs
pub mod Order
pub mod Turns
pub mod Bounds
pub mod Room
pub mod Ends
pub mod Drains
pub mod Tests
use sukkula.Base.{
  ℕ, ◌+◌, ◌-◌, ◌*◌, ◌^◌, min, Bool, true, false, not, ◌&&◌, ◌||◌, Option, none, some, List, [], ◌∷◌,
  ◌++◌, Str, codes, ltb, leb, ◌==◌, if◌then◌else◌,
}
use sukkula.Base.Maybe.{◌>>=◌}
use sukkula.Base.Outcome.{Result, ok, err}
use sukkula.Limits.{max_event_bytes}
use sukkula.Api.{ErrorCode, ErrorInfo, Outcome, Event}

abbrev pub max_queued_events : ℕ
max_queued_events = 1024

abbrev pub max_queued_bytes : ℕ
max_queued_bytes = 4 * 1024 * 1024

-- `saturating_add` on 64 bits.
abbrev pub sat_add : ℕ → ℕ → ℕ
sat_add a b = min (2 ^ 64 - 1) (a + b)

pub data GateState : Type 0 where
  opened draining closed : GateState

abbrev pub is_open : GateState → Bool
is_open GateState.opened = true
is_open GateState.draining = false
is_open GateState.closed = false

abbrev pub is_closed : GateState → Bool
is_closed GateState.opened = false
is_closed GateState.draining = false
is_closed GateState.closed = true

pub data Finish : Type 0 where
  drain discard : Finish

-- A waiting event; `has_permit` marks a reply's command slot.
pub record Queued (X : Type 0) : Type 0 where
  pub event : Event X
  pub bytes : ℕ
  pub has_permit : Bool

pub record Queue (X : Type 0) : Type 0 where
  pub items : List (Queued X)
  pub held_events : ℕ
  pub held_bytes : ℕ
  pub state : GateState
  pub accepted : ℕ
  pub delivered : ℕ
  pub is_finished : Bool

-- One turn of the loop of `push` at the lock: it waits, gives up, or has its number.
pub data Turn : Type 0 where
  waits : Turn
  refused : Turn
  numbered : ℕ → Turn

-- One turn of the inner loop of `run`: the thread waits, has an event for the sink, or stops.
pub data Next (X : Type 0) : Type 0 where
  sleeps : Next X
  ends : Next X
  takes : Queued X → Next X

abbrev pub internal : Str → ErrorInfo
internal message = record { code = ErrorCode.internal; message = message }

-- `close`.
abbrev pub closing : Finish → GateState → GateState
closing Finish.drain GateState.opened = GateState.draining
closing Finish.drain GateState.draining = GateState.draining
closing Finish.drain GateState.closed = GateState.closed
closing Finish.discard s = GateState.closed

module _ {X : Type 0} where
  abbrev pub new_gate : Queue X
  new_gate = record {
    items = [];
    held_events = 0;
    held_bytes = 0;
    state = GateState.opened;
    accepted = 0;
    delivered = 0;
    is_finished = false;
  }

  abbrev pub reply_event : ℕ → Result ErrorInfo (Option ℕ) → Event X
  reply_event id (ok transfer) = Event.reply id true none transfer
  reply_event id (err error) = Event.reply id false (some error) none

  -- What `fit` puts in the place of an event that is too large.
  abbrev pub replacement : Event X → Option (Event X)
  replacement (Event.reply id is_ok error transfer) =
      some (reply_event id (err (internal (codes "the reply was too large"))))
  replacement (Event.transfer_finished id outcome saved) =
      some (
        Event.transfer_finished id (Outcome.failed (internal (codes "the report was too large")))
          [])
  replacement (Event.transfer_started v) = none
  replacement (Event.transfer_progress id bytes total) = none
  replacement (Event.other x) = none

  abbrev pub encoded_len : (Event X → ℕ) → Event X → Option ℕ
  encoded_len json_len e = if leb (json_len e) max_event_bytes then some (json_len e) else none

  abbrev pub with_len : Event X → Option ℕ → Option (Event X × ℕ)
  with_len e none = none
  with_len e (some n) = some (e, n)

  abbrev pub fit_at : (Event X → ℕ) → Event X → Option ℕ → Option (Event X × ℕ)
  fit_at json_len e (some n) = some (e, n)
  fit_at json_len e none = replacement e >>= (λ r. with_len r (encoded_len json_len r))

  unfoldable pub fit : (Event X → ℕ) → Event X → Option (Event X × ℕ)
  fit json_len e = fit_at json_len e (encoded_len json_len e)

  -- Whether `push` waits for room.
  abbrev pub is_crowded : Queue X → ℕ → Bool
  is_crowded q bytes =
      ltb 0 q.held_events
      && (leb max_queued_events q.held_events || ltb max_queued_bytes (sat_add q.held_bytes bytes))

  abbrev pub held : Queue X → ℕ → Bool → Queue X
  held q bytes has_permit = if has_permit then q else record q {
    held_events = sat_add q.held_events 1;
    held_bytes = sat_add q.held_bytes bytes;
  }

  abbrev pub accept : Queue X → Event X → ℕ → Bool → Queue X
  accept q e bytes has_permit =
      let h = held q bytes has_permit in
      record h {
        accepted = sat_add q.accepted 1;
        items = q.items ++ (record { event = e; bytes = bytes; has_permit = has_permit } ∷ []);
      }

  unfoldable pub push_turn : Queue X → Event X → ℕ → Bool → Bool → Queue X × Turn
  push_turn q e bytes has_permit in_delivery =
      if not has_permit && not in_delivery && is_open q.state && is_crowded q bytes
      then (q, Turn.waits)
      else if not (is_open q.state)
      then (q, Turn.refused)
      else (accept q e bytes has_permit, Turn.numbered (sat_add q.accepted 1))

  abbrev pub close_to : Queue X → GateState → Queue X
  close_to q s =
      if is_closed s
      then record q { state = s; held_events = 0; held_bytes = 0; items = [] }
      else record q { state = s }

  unfoldable pub close : Queue X → Finish → Queue X
  close q f = close_to q (closing f q.state)

  abbrev pub popped : Queue X → Queued X → List (Queued X) → Queue X
  popped q item rest = if item.has_permit then record q { items = rest } else record q {
    items = rest;
    held_events = q.held_events - 1;
    held_bytes = q.held_bytes - item.bytes;
  }

  abbrev pub empty_next : GateState → Next X
  empty_next GateState.opened = Next.sleeps
  empty_next GateState.draining = Next.ends
  empty_next GateState.closed = Next.ends

  abbrev pub pop : Queue X → List (Queued X) → Queue X × Next X
  pop q [] = (q, empty_next q.state)
  pop q (item ∷ rest) = (popped q item rest, Next.takes item)

  unfoldable pub next : Queue X → Queue X × Next X
  next q = if is_closed q.state then (q, Next.ends) else pop q q.items

  -- After the sink returned, and after the loop.
  unfoldable pub count_delivered : Queue X → Queue X
  count_delivered q = record q { delivered = sat_add q.delivered 1 }

  unfoldable pub leave : Queue X → Queue X
  leave q = record q { is_finished = true; items = [] }
