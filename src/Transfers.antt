-- ===== src/Transfers.antt =====
-- crates/sukkula-engine/src/ctx.rs: the registry of running transfers (`Transfers`) and what a
-- transfer reports (`TransferHandle`). The context outlives the transfers. Instants and durations are
-- in milliseconds.
pub mod Runs
pub mod Paired
pub mod Pairs
pub mod Once
pub mod Whole
pub mod Progress
pub mod Reports
pub mod Callers
pub mod Reached
pub mod Tests
use sukkula.Base.{
  ℕ, ◌+◌, ◌-◌, ◌%◌, ◌^◌, min, Bool, true, false, not, ◌&&◌, ◌||◌, Option, none, some, List, [], ◌∷◌,
  ◌++◌, Str, codes, ltb, leb, ◌==◌, if◌then◌else◌, map, length, take,
}
use sukkula.Base.Outcome.{Result, ok, err}
use sukkula.Base.Assoc.{lookup, insert, remove}
use sukkula.Limits.{max_active_transfers}
use sukkula.Offer.{Protocol, OfferFile}
use sukkula.Api.{ErrorCode, ErrorInfo, Outcome, Direction, FileView, TransferView, Event}
use sukkula.Gate.{sat_add}

abbrev pub progress_interval : ℕ
progress_interval = 250

abbrev pub max_listed_files : ℕ
max_listed_files = 50

abbrev pub same_id : ℕ → ℕ → Bool
same_id a b = a == b

-- The registry: the last id, and for each running transfer whether its token was cancelled. With it
-- the engine's shutdown token, whose children the transfers' tokens are, and what the UI was told.
pub record Transfers (X : Type 0) : Type 0 where
  pub next : ℕ
  pub active : List (ℕ × Bool)
  pub is_shut_down : Bool
  pub events : List (Event X)

-- The last progress report of a transfer, and one running transfer.
pub record Report : Type 0 where
  pub at : Option ℕ
  pub shown : Option ℕ

pub record TransferHandle : Type 0 where
  pub id : ℕ
  pub total : ℕ
  pub bytes : ℕ
  pub last_report : Report
  pub is_finished : Bool

-- `checked_add(1).unwrap_or(1)` on 64 bits.
abbrev pub next_id : ℕ → ℕ
next_id n = if n == 2 ^ 64 - 1 then 1 else n + 1

abbrev pub new_handle : ℕ → ℕ → TransferHandle
new_handle id total = record {
  id = id;
  total = total;
  bytes = 0;
  last_report = record { at = none; shown = none };
  is_finished = false;
}

abbrev pub view_of : OfferFile → FileView
view_of f = record { name = f.name; size = f.size }

abbrev pub total_of : List OfferFile → ℕ → ℕ
total_of [] acc = acc
total_of (f ∷ fs) acc = total_of fs (sat_add acc f.size)

-- The throttle of `add_progress`: whether a count is reported.
abbrev pub is_new : Option ℕ → ℕ → Bool
is_new none shown = true
is_new (some last) shown = not (last == shown)

abbrev pub is_late : Option ℕ → ℕ → Bool
is_late none now = true
is_late (some t) now = leb progress_interval (now - t)

abbrev pub is_due : TransferHandle → ℕ → ℕ → Bool
is_due h shown now =
    is_new h.last_report.shown shown && (leb h.total shown || is_late h.last_report.at now)

-- `add_progress` in its three parts: the counter is raised, and what is then shown; the throttle under
-- its lock, and whether the count is due; and the event after the lock. Between them other callers run.
abbrev pub counted : TransferHandle → ℕ → TransferHandle
counted h n = record h { bytes = (h.bytes + n) % 2 ^ 64 }

abbrev pub shown_of : TransferHandle → ℕ → ℕ
shown_of h n = min (sat_add h.bytes n) h.total

unfoldable pub throttle : TransferHandle → ℕ → ℕ → TransferHandle × Bool
throttle h shown now =
    if is_due h shown now
    then (record h { last_report = record { at = some now; shown = some shown } }, true)
    else (h, false)

abbrev pub cancelled : ErrorInfo
cancelled = record { code = ErrorCode.refused; message = codes "cancelled" }

abbrev pub abandoned : ErrorInfo
abandoned = record { code = ErrorCode.internal; message = codes "transfer abandoned" }

-- How a transfer that failed ends; a cancelled one is not reported as failed.
abbrev pub outcome_of : Bool → ErrorInfo → Outcome
outcome_of was_cancelled e = if was_cancelled then Outcome.cancelled else Outcome.failed e

module _ {X : Type 0} where
  abbrev pub emit : Transfers X → Event X → Transfers X
  emit s e = record s { events = s.events ++ (e ∷ []) }

  unfoldable pub begin_views :
      Transfers X
      → Direction
      → Protocol
      → Str
      → List FileView
      → ℕ
      → Transfers X × Option TransferHandle
  begin_views s direction protocol peer files total =
      if leb max_active_transfers (length s.active)
      then (s, none)
      else (let id = next_id s.next in
          let started : Event X = Event.transfer_started (record {
            id = id;
            direction = direction;
            protocol = protocol;
            peer = peer;
            files = take max_listed_files files;
            file_count = length files;
            total_bytes = total;
          }) in
          (
            emit (record s { next = id; active = insert same_id id false s.active }) started,
            some (new_handle id total),
          ))

  unfoldable pub begin :
      Transfers X
      → Direction
      → Protocol
      → Str
      → List OfferFile
      → Transfers X × Option TransferHandle
  begin s direction protocol peer files =
      begin_views s direction protocol peer (map view_of files) (total_of files 0)

  abbrev pub cancel_at : Transfers X → ℕ → Option Bool → Transfers X × Bool
  cancel_at s id none = (s, false)
  cancel_at s id (some c) = (record s { active = insert same_id id true s.active }, true)

  unfoldable pub cancel : Transfers X → ℕ → Transfers X × Bool
  cancel s id = cancel_at s id (lookup same_id id s.active)

  unfoldable pub cancel_all : Transfers X → Transfers X
  cancel_all s = record s { active = map (λ p. (p.0, true)) s.active }

  -- `shut_down`, without the consent queue.
  unfoldable pub shut_down : Transfers X → Transfers X
  shut_down s = cancel_all (record s { is_shut_down = true })

  -- A token is cancelled with its parent.
  abbrev pub token_state : Transfers X → Option Bool → Bool
  token_state s none = s.is_shut_down
  token_state s (some c) = c || s.is_shut_down

  abbrev pub is_cancelled : Transfers X → TransferHandle → Bool
  is_cancelled s h = token_state s (lookup same_id h.id s.active)

  abbrev pub tell : Transfers X → ℕ → TransferHandle × Bool → Transfers X × TransferHandle
  tell s shown (h, is_told) =
      (if is_told then emit s (Event.transfer_progress h.id shown h.total) else s, h)

  -- A call that no other call interrupts.
  unfoldable pub add_progress : Transfers X → TransferHandle → ℕ → ℕ → Transfers X × TransferHandle
  add_progress s h n now =
      if n == 0 then (s, h) else tell s (shown_of h n) (throttle (counted h n) (shown_of h n) now)

  abbrev pub report : Transfers X → TransferHandle → Outcome → List Str → Transfers X
  report s h outcome saved =
      emit (record s { active = remove same_id h.id s.active })
        (Event.transfer_finished h.id outcome saved)

  -- The drop of a handle: an unfinished transfer is reported as failed.
  unfoldable pub drop_handle : Transfers X → TransferHandle → Transfers X
  drop_handle s h =
      if h.is_finished then s else report ((cancel s h.id).0) h (Outcome.failed abandoned) []

  -- `finish`, with the drop of the handle at its end.
  unfoldable pub finish : Transfers X → TransferHandle → Outcome → List Str → Transfers X
  finish s h outcome saved =
      let h' : TransferHandle = record h { is_finished = true } in
      drop_handle (report s h' outcome saved) h'

  unfoldable pub finish_with :
      Transfers X → TransferHandle → Result ErrorInfo (List Str) → Transfers X
  finish_with s h (ok saved) = finish s h Outcome.done saved
  finish_with s h (err e) = finish s h (outcome_of (is_cancelled s h) e) []
