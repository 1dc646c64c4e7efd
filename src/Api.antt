-- ===== src/Api.antt =====
-- crates/sukkula-engine/src/api.rs: what the engine tells the UI about commands and transfers.
use sukkula.Base.{ℕ, Bool, Option, List, Str}
use sukkula.Offer.{Protocol}

pub data ErrorCode : Type 0 where
  bad_command bad_version unavailable not_found bad_settings bad_file too_large refused
        peer_mismatch bad_code network storage internal :
      ErrorCode

pub record ErrorInfo : Type 0 where
  pub code : ErrorCode
  pub message : Str

-- How a transfer ended.
pub data Outcome : Type 0 where
  done : Outcome
  cancelled : Outcome
  failed : ErrorInfo → Outcome

pub data Direction : Type 0 where
  incoming outgoing : Direction

pub record FileView : Type 0 where
  pub name : Str
  pub size : ℕ

pub record TransferView : Type 0 where
  pub id : ℕ
  pub direction : Direction
  pub protocol : Protocol
  pub peer : Str
  pub files : List FileView
  pub file_count : ℕ
  pub total_bytes : ℕ

-- The events about commands and transfers; `other` stands for the rest, whose contents are of type `X`.
pub data Event (X : Type 0) : Type 0 where
  reply : ℕ → Bool → Option ErrorInfo → Option ℕ → Event X
  transfer_started : TransferView → Event X
  transfer_progress : ℕ → ℕ → ℕ → Event X
  transfer_finished : ℕ → Outcome → List Str → Event X
  other : X → Event X
