-- ===== src/Consent.antt =====
-- crates/sukkula-core/src/consent.rs: the queue of offers that wait for the user.
-- Each function is what one thread does between two points where another may run: under one hold
-- of the lock, or between two awaits. The observer is the log of what it is told.
pub mod Fresh
pub mod Runs
pub mod Entries
pub mod Invariant
pub mod Moves
pub mod Promises
pub mod Tests
use sukkula.Base.{
  ℕ, zero, suc, ◌+◌, ◌-◌, ◌^◌, Bool, true, false, not, ◌&&◌, ◌||◌, Option, none, some, List, [],
  ◌∷◌, ◌++◌, leb, ◌==◌, if◌then◌else◌, length,
}

pub data Decision : Type 0 where
  accept decline : Decision

-- `Closed`: how a pending offer left the queue.
pub data Closed : Type 0 where
  accepted declined timed_out withdrawn shut_down : Closed

-- `Refusal`: why `ask` did not come back with a yes.
pub data Refusal : Type 0 where
  busy declined timed_out shut_down : Refusal

pub data ConsentEvent : Type 0 where
  pending : ℕ → ConsentEvent
  closed : ℕ → Closed → ConsentEvent

-- What a call of `ask` gives: a yes, a refusal, or nothing, as its future was dropped.
pub data Outcome : Type 0 where
  granted : ℕ → Outcome
  refused : Refusal → Outcome
  dropped : Outcome

-- A oneshot channel: nothing sent yet, a decision, or its sender dropped without one.
pub data Slot : Type 0 where
  empty : Slot
  sent : Decision → Slot
  abandoned : Slot

-- Where a call of `ask` stands: its offer queued, shown and awaited, past its deadline, or over.
pub data Phase : Type 0 where
  queued awaiting elapsed : Phase
  over : Outcome → Phase

pub record Ask : Type 0 where
  pub id : ℕ
  pub slot : Slot
  pub phase : Phase

-- `State` with the calls of `ask` so far, each with its channel, and the observer's log. `pending`
-- holds, for an offer's id, the number of the call whose channel's sender the entry is.
pub record Broker : Type 0 where
  pub next_id : ℕ
  pub queue : List (ℕ × ℕ)
  pub is_shut_down : Bool
  pub max_pending : ℕ
  pub calls : ℕ
  pub asks : ℕ → Option Ask
  pub log : List ConsentEvent

unfoldable pub with_limits : ℕ → Broker
with_limits max_pending = record {
  next_id = 1;
  queue = [];
  is_shut_down = false;
  max_pending = max_pending;
  calls = 0;
  asks = λ n. none;
  log = [];
}

-- The operations of `HashMap` on the queue.
pub lookup : ℕ → List (ℕ × ℕ) → Option ℕ
lookup k [] = none
lookup k ((j, v) ∷ m) = if j == k then some v else lookup k m

pub remove : ℕ → List (ℕ × ℕ) → List (ℕ × ℕ)
remove k [] = []
remove k ((j, v) ∷ m) = let rest = remove k m in if j == k then rest else (j, v) ∷ rest

abbrev pub contains_key : ℕ → List (ℕ × ℕ) → Bool
contains_key k m = elim (lookup k m) [ some v ↦ true | none ↦ false ]

abbrev pub update : (ℕ → Option Ask) → ℕ → Ask → ℕ → Option Ask
update f n a m = if n == m then some a else f m

-- `id.checked_add(1).unwrap_or(1)` on a `u64`.
abbrev pub next_after : ℕ → ℕ
next_after id = if id == 2 ^ 64 - 1 then 1 else id + 1

-- The loop of `fresh_id`.
pub fresh_loop : ℕ → ℕ → List (ℕ × ℕ) → ℕ
fresh_loop zero id m = id
fresh_loop (suc fuel) id m =
    let rest = fresh_loop fuel (next_after id) m in
    if id == 0 || contains_key id m then rest else id

unfoldable pub fresh_id : Broker → ℕ
unfolding fresh_loop lookup
fresh_id s = fresh_loop (length s.queue + 2) s.next_id s.queue

-- The offer `id` enters the queue, with the sender of a new call's channel.
abbrev pub enqueue : Broker → ℕ → Broker
enqueue s id = record s {
  next_id = next_after id;
  queue = (id, s.calls) ∷ s.queue;
  calls = s.calls + 1;
  asks = update s.asks s.calls (record { id = id; slot = empty; phase = queued });
}

-- `ask`, up to the end of its first hold of the lock: its outcome, if that is an error.
unfoldable pub ask_begin : Broker → Broker × Option Refusal
ask_begin s =
    if s.is_shut_down
    then (s, some Refusal.shut_down)
    else if leb s.max_pending (length s.queue)
    then (s, some busy)
    else (enqueue s (fresh_id s), none)

-- The call `n` moves on to another phase, and tells the observer.
abbrev pub advance : Broker → ℕ → Ask → Phase → List ConsentEvent → Broker
advance s n a phase events = record s {
  asks = update s.asks n (record a { phase = phase });
  log = s.log ++ events;
}

-- `self.notify(ConsentEvent::Pending { .. })`.
pub announce : Broker → ℕ → Ask → Broker
announce s n a = advance s n a awaiting (pending a.id ∷ [])

-- What a received decision means.
abbrev pub outcome_of : ℕ → Option Decision → Outcome
outcome_of id (some accept) = granted id
outcome_of id (some decline) = refused Refusal.declined
outcome_of id none = refused Refusal.shut_down

abbrev pub reason_of : Option Decision → Closed
reason_of (some accept) = Closed.accepted
reason_of (some decline) = Closed.declined
reason_of none = Closed.shut_down

-- The end of `ask`, on the decision.
abbrev pub settle : Broker → ℕ → Ask → Option Decision → Broker
settle s n a d = advance s n a (over (outcome_of a.id d)) (closed a.id (reason_of d) ∷ [])

-- `received.ok()` and `rx.try_recv().ok()`.
abbrev pub received : Slot → Option Decision
received empty = none
received (sent d) = some d
received abandoned = none

-- The await returns `Ok`: the channel has a decision, or has lost its sender.
pub wake : Broker → ℕ → Ask → Broker
wake s n a = settle s n a (received a.slot)

-- The await returns `Err`: the deadline has passed.
pub elapse : Broker → ℕ → Ask → Broker
elapse s n a = advance s n a elapsed []

-- After the deadline: whoever takes the entry out of the queue decides.
pub reap : Broker → ℕ → Ask → Broker
reap s n a =
    if contains_key a.id s.queue
    then advance (record s { queue = remove a.id s.queue }) n a (over (refused Refusal.timed_out))
        (closed a.id Closed.timed_out ∷ [])
    else settle s n a (received a.slot)

-- `Waiting::drop` of a call that is still waiting.
pub withdraw : Broker → ℕ → Ask → Broker
withdraw s n a =
    advance (record s { queue = remove a.id s.queue }) n a (over dropped)
      (closed a.id Closed.withdrawn ∷ [])

-- `tx.send(decision)`: delivered unless the call is over, and its receiver gone.
pub send : Broker → ℕ → Decision → Option Ask → Broker × Bool
send s n d none = (s, false)
send s n d (some a) = elim a.phase [
  | over o ↦ (s, false)
  | _ ↦ (record s { asks = update s.asks n (record a { slot = sent d }) }, true)
]

pub answer_entry : Broker → ℕ → Decision → Option ℕ → Broker × Bool
unfolding send
answer_entry s id d none = (s, false)
answer_entry s id d (some n) = send (record s { queue = remove id s.queue }) n d (s.asks n)

unfoldable pub answer : Broker → ℕ → Decision → Broker × Bool
unfolding answer_entry
answer s id d = answer_entry s id d (lookup id s.queue)

-- Dropping the senders in the queue.
pub abandon : List (ℕ × ℕ) → (ℕ → Option Ask) → ℕ → Option Ask
abandon [] f = f
abandon ((id, n) ∷ m) f = elim (f n) [
  | none ↦ abandon m f
  | some a ↦ abandon m (update f n (record a { slot = abandoned }))
]

unfoldable pub shutdown : Broker → Broker
unfolding abandon
shutdown s = record s { is_shut_down = true; queue = []; asks = abandon s.queue s.asks }
