-- ===== src/Transfers/Whole.antt =====
-- The transfers of ctx.rs: the UI hears of each start and of each end, once.
use mathlib.Core.Path.{subst}
use sukkula.Base.{
  ℕ, ◌+◌, ◌-◌, ◌<◌, ◌^◌, ◌≡◌, refl, sym, ◌∙◌, ap, inl, inr, Bool, false, Option, none, some, List,
  [], ◌∷◌, Str, arith, leb, ◌==◌, ==_iff, length, if-split, Bool-cases, take, not_leb→lt,
  not_leb→lt,
}
use sukkula.Base.Assoc.{lookup, insert, remove, is_some, lookup-All}
use sukkula.Limits.{max_active_transfers}
use sukkula.Offer.{Protocol}
use sukkula.Api.{Outcome, Direction, FileView, TransferView, Event}
use sukkula.Transfers.{
  Transfers, TransferHandle, same_id, next_id, new_handle, emit, begin_views, cancel_at, cancel,
  report, drop_handle, abandoned, max_listed_files,
}
use sukkula.Transfers.Runs.{World, Call, new_world, begun, drop_at, call, run}
use sukkula.Transfers.Paired.{same_id-IsTest, IsOwn, IsPaired}
use sukkula.Transfers.Pairs.{begin-IsPaired, quiet-IsPaired, still-IsPaired, end-IsPaired}
use sukkula.Transfers.Once.{
  cancel_at-IsQuiet, shut_down-IsQuiet, progress_at-IsPaired, finish_at-IsPaired,
}

next_id_lem : (n : ℕ) → n < 2 ^ 64 - 1 → next_id n ≡ n + 1
next_id_lem n h = elim (Bool-cases (n == 2 ^ 64 - 1)) [
  | inl e ↦ absurd (omega (arith, h, (==_iff n (2 ^ 64 - 1)).0 e))
  | inr e ↦ rw e refl
]

module _ {X : Type 0} where
  cancel_at-events :
      (s : Transfers X) (id : ℕ) (o : Option Bool) → (cancel_at s id o).0.events ≡ s.events
  cancel_at-events s id none = refl
  cancel_at-events s id (some c) = refl

  drop_lem :
      (s : Transfers X) (h : TransferHandle)
      → h.is_finished ≡ false
      → drop_handle s h ≡ report ((cancel s h.id).0) h (Outcome.failed abandoned) []
  unfolding drop_handle
  drop_lem s h f = rw f refl

  drop_at-IsPaired :
      (n id : ℕ) (w : World X) (o : Option TransferHandle)
      → lookup same_id id w.handles ≡ o
      → IsPaired n w
      → IsPaired (n + 1) (drop_at w id o)
  unfolding cancel
  drop_at-IsPaired n id w none e p = still-IsPaired n w p
  drop_at-IsPaired n id w (some h) e p =
      let o = lookup-All same_id same_id-IsTest IsOwn id h w.handles e p.own in
      let c = lookup same_id id w.ctx.active in
      let w1 : World X = record w { ctx = (cancel_at w.ctx id c).0 } in
      subst (λ s. IsPaired (n + 1) (record { ctx = s; handles = remove same_id id w.handles }))
        (sym (
          drop_lem w.ctx h o.1
          ∙ ap
              (λ i.
                emit
                  (record ((cancel w.ctx i).0) {
                    active = remove same_id i (cancel w.ctx i).0.active;
                  })
                  (Event.transfer_finished i (Outcome.failed abandoned) []))
              o.0))
        (end-IsPaired n id w1 (Outcome.failed abandoned) [] (ap is_some e)
          (quiet-IsPaired n w w1 (cancel_at-IsQuiet n id w c refl p) p))

  begin_call-IsPaired :
      (n : ℕ) (w : World X) (direction : Direction) (protocol : Protocol) (peer : Str)
      (files : List FileView) (total : ℕ)
      → n < 2 ^ 64 - 1
      → IsPaired n w
      → IsPaired (n + 1) (begun w (begin_views w.ctx direction protocol peer files total))
  unfolding begin_views
  begin_call-IsPaired n w direction protocol peer files total b p =
      let k = next_id w.ctx.next in
      let e : k ≡ w.ctx.next + 1 = next_id_lem w.ctx.next (omega (arith, b, p.bounded)) in
      let v : TransferView = record {
        id = k;
        direction = direction;
        protocol = protocol;
        peer = peer;
        files = take max_listed_files files;
        file_count = length files;
        total_bytes = total;
      } in
      let refused : Transfers X × Option TransferHandle = (w.ctx, none) in
      let starts : Transfers X × Option TransferHandle = (
        emit (record w.ctx { next = k; active = insert same_id k false w.ctx.active })
            (Event.transfer_started v),
        some (new_handle k total),
      ) in
      if-split (λ r. IsPaired (n + 1) (begun w r)) (leb max_active_transfers (length w.ctx.active))
        refused starts (λ a. still-IsPaired n w p)
        (λ a.
          begin-IsPaired n k w v (new_handle k total)
            (not_leb→lt max_active_transfers (length w.ctx.active) a) (omega (arith, e))
            (omega (arith, e, p.bounded)) refl refl refl p)

  call-IsPaired :
      (n : ℕ) (w : World X) (c : Call) → n < 2 ^ 64 - 1 → IsPaired n w → IsPaired (n + 1) (call w c)
  unfolding cancel
  call-IsPaired n w (Call.beginning direction protocol peer files total) b p =
      begin_call-IsPaired n w direction protocol peer files total b p
  call-IsPaired n w (Call.cancelling id) b p =
      still-IsPaired n _
        (quiet-IsPaired n w _ (cancel_at-IsQuiet n id w (lookup same_id id w.ctx.active) refl p) p)
  call-IsPaired n w Call.shutting_down b p =
      still-IsPaired n _ (quiet-IsPaired n w _ (shut_down-IsQuiet n w p) p)
  call-IsPaired n w (Call.progressing id m now) b p =
      still-IsPaired n _ (progress_at-IsPaired n id m now w (lookup same_id id w.handles) refl p)
  call-IsPaired n w (Call.finishing id result) b p =
      finish_at-IsPaired n id w result (lookup same_id id w.handles) refl p
  call-IsPaired n w (Call.dropping id) b p =
      drop_at-IsPaired n id w (lookup same_id id w.handles) refl p

  run-IsPaired_from :
      (n : ℕ) (w : World X) (cs : List Call)
      → n + length cs < 2 ^ 64
      → IsPaired n w
      → IsPaired (n + length cs) (run w cs)
  run-IsPaired_from n w [] b p = subst (λ m. IsPaired m w) (omega arith) p
  run-IsPaired_from n w (c ∷ cs) b p =
      subst (λ m. IsPaired m (run (call w c) cs)) (omega arith)
        (run-IsPaired_from (n + 1) (call w c) cs (omega (arith, b))
          (call-IsPaired n w c (omega (arith, b)) p))

-- In a run of fewer than 2 ^ 64 calls: at most 8 transfers run; each has exactly one handle, which
-- is not finished; the UI heard of the start of each id at most once, and of its end as often as of
-- its start, less one while it runs.
pub run-IsPaired :
    (X : Type 0) (cs : List Call)
    → length cs < 2 ^ 64
    → IsPaired (length cs) (run (new_world {X = X}) cs)
run-IsPaired X cs b =
    subst (λ m. IsPaired m (run (new_world {X = X}) cs)) (omega arith)
      (run-IsPaired_from 0 new_world cs (omega (arith, b)) (record {
        few = omega arith;
        distinct = tt;
        handled = tt;
        same = λ id. refl;
        own = tt;
        bounded = omega arith;
        fresh = λ id i. (refl, refl);
        paired = λ id. refl;
        once = λ id. omega arith;
      }))
