-- ===== src/Transfers/Runs.antt =====
-- Runs of the transfers of ctx.rs: what the adapters and the engine do, one call after another.
use sukkula.Base.{ℕ, false, Option, none, some, List, [], ◌∷◌, Str}
use sukkula.Base.Outcome.{Result}
use sukkula.Base.Assoc.{lookup, insert, remove}
use sukkula.Offer.{Protocol}
use sukkula.Api.{ErrorInfo, Direction, FileView}
use sukkula.Transfers.{
  Transfers, TransferHandle, same_id, begin_views, cancel, shut_down, add_progress, drop_handle,
  finish_with,
}

-- The registry, and the handles that the adapters own, by their ids.
pub record World (X : Type 0) : Type 0 where
  pub ctx : Transfers X
  pub handles : List (ℕ × TransferHandle)

pub data Call : Type 0 where
  beginning : Direction → Protocol → Str → List FileView → ℕ → Call
  cancelling : ℕ → Call
  shutting_down : Call
  progressing : ℕ → ℕ → ℕ → Call
  finishing : ℕ → Result ErrorInfo (List Str) → Call
  dropping : ℕ → Call

module _ {X : Type 0} where
  abbrev pub new_world : World X
  new_world = record {
    ctx = record { next = 0; active = []; is_shut_down = false; events = [] };
    handles = [];
  }

  abbrev pub begun : World X → Transfers X × Option TransferHandle → World X
  begun w (s, none) = record w { ctx = s }
  begun w (s, some h) = record { ctx = s; handles = insert same_id h.id h w.handles }

  abbrev pub progress_at : World X → ℕ → ℕ → ℕ → Option TransferHandle → World X
  progress_at w id n now none = w
  progress_at w id n now (some h) =
      let r = add_progress w.ctx h n now in
      record { ctx = r.0; handles = insert same_id id r.1 w.handles }

  abbrev pub finish_at : World X → ℕ → Result ErrorInfo (List Str) → Option TransferHandle → World X
  finish_at w id result none = w
  finish_at w id result (some h) = record {
    ctx = finish_with w.ctx h result;
    handles = remove same_id id w.handles;
  }

  abbrev pub drop_at : World X → ℕ → Option TransferHandle → World X
  drop_at w id none = w
  drop_at w id (some h) = record {
    ctx = drop_handle w.ctx h;
    handles = remove same_id id w.handles;
  }

  abbrev pub call : World X → Call → World X
  call w (Call.beginning direction protocol peer files total) =
      begun w (begin_views w.ctx direction protocol peer files total)
  call w (Call.cancelling id) = record w { ctx = (cancel w.ctx id).0 }
  call w Call.shutting_down = record w { ctx = shut_down w.ctx }
  call w (Call.progressing id n now) = progress_at w id n now (lookup same_id id w.handles)
  call w (Call.finishing id result) = finish_at w id result (lookup same_id id w.handles)
  call w (Call.dropping id) = drop_at w id (lookup same_id id w.handles)

  abbrev pub run : World X → List Call → World X
  run w [] = w
  run w (c ∷ cs) = run (call w c) cs
