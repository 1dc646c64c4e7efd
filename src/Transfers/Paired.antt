-- ===== src/Transfers/Paired.antt =====
-- The transfers of ctx.rs: how many run, and that the UI hears of the start and of the end of each.
use sukkula.Base.{
  ℕ, ◌+◌, ◌≤◌, ◌<◌, ◌≡◌, refl, false, List, [], ◌∷◌, ◌++◌, arith, ◌==◌, ==_iff, length, All,
  if◌then◌else◌,
}
use sukkula.Base.Assoc.{IsTest, IsMap, has}
use sukkula.Limits.{max_active_transfers}
use sukkula.Api.{Event}
use sukkula.Transfers.{TransferHandle, same_id}
use sukkula.Transfers.Runs.{World}

pub same_id-IsTest : IsTest same_id
same_id-IsTest = record { same_self = λ k. (==_iff k k).1 refl; sound = λ k j h. (==_iff k j).0 h }

-- A handle is kept under its id, and its transfer has not ended.
abbrev pub IsOwn : ℕ × TransferHandle → Type 0
IsOwn p = (p.1.id ≡ p.0) × (p.1.is_finished ≡ false)

module _ {X : Type 0} where
  -- How often the UI heard that a transfer started, and that it ended.
  abbrev pub starts_of : ℕ → Event X → ℕ
  starts_of id (Event.transfer_started v) = if v.id == id then 1 else 0
  starts_of id (Event.reply i is_ok error transfer) = 0
  starts_of id (Event.transfer_progress i bytes total) = 0
  starts_of id (Event.transfer_finished i outcome saved) = 0
  starts_of id (Event.other x) = 0

  abbrev pub ends_of : ℕ → Event X → ℕ
  ends_of id (Event.transfer_finished i outcome saved) = if i == id then 1 else 0
  ends_of id (Event.reply i is_ok error transfer) = 0
  ends_of id (Event.transfer_started v) = 0
  ends_of id (Event.transfer_progress i bytes total) = 0
  ends_of id (Event.other x) = 0

  abbrev pub started : ℕ → List (Event X) → ℕ
  started id [] = 0
  started id (e ∷ es) = starts_of id e + started id es

  abbrev pub ended : ℕ → List (Event X) → ℕ
  ended id [] = 0
  ended id (e ∷ es) = ends_of id e + ended id es

  started-append :
      (id : ℕ) (es fs : List (Event X)) → started id (es ++ fs) ≡ started id es + started id fs
  started-append id [] fs = omega arith
  started-append id (e ∷ es) fs = omega (arith, started-append id es fs)

  ended-append : (id : ℕ) (es fs : List (Event X)) → ended id (es ++ fs) ≡ ended id es + ended id fs
  ended-append id [] fs = omega arith
  ended-append id (e ∷ es) fs = omega (arith, ended-append id es fs)

  -- What the UI hears in one event more.
  pub started-emit :
      (id : ℕ) (es : List (Event X)) (e : Event X)
      → started id (es ++ (e ∷ [])) ≡ started id es + starts_of id e
  started-emit id es e = omega (arith, started-append id es (e ∷ []))

  pub ended-emit :
      (id : ℕ) (es : List (Event X)) (e : Event X)
      → ended id (es ++ (e ∷ [])) ≡ ended id es + ends_of id e
  ended-emit id es e = omega (arith, ended-append id es (e ∷ []))

  -- What holds of the registry and the handles after at most `n` transfers.
  pub record IsPaired (n : ℕ) (w : World X) : Type 0 where
    pub few : length w.ctx.active ≤ max_active_transfers
    pub distinct : IsMap same_id w.ctx.active
    pub handled : IsMap same_id w.handles
    pub same : (id : ℕ) → has same_id id w.ctx.active ≡ has same_id id w.handles
    pub own : All IsOwn w.handles
    pub bounded : w.ctx.next ≤ n
    pub fresh :
        (id : ℕ)
        → w.ctx.next < id
        → (has same_id id w.ctx.active ≡ false) × (started id w.ctx.events ≡ 0)
    pub paired :
        (id : ℕ)
        → started id w.ctx.events
          ≡ ended id w.ctx.events + (if has same_id id w.ctx.active then 1 else 0)
    pub once : (id : ℕ) → started id w.ctx.events ≤ 1
