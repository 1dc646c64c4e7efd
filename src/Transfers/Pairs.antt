-- ===== src/Transfers/Pairs.antt =====
-- Each call of the transfers of ctx.rs keeps starts and ends paired.
use mathlib.Core.Path.{subst}
use sukkula.Base.{
  ℕ, ◌+◌, ◌≤◌, ◌<◌, ◌≡◌, refl, sym, ◌∙◌, ap, inl, inr, Bool, true, false, not, ◌&&◌, ◌||◌, List, [],
  ◌∷◌, ◌++◌, Str, arith, ◌==◌, ==_iff, length, All, if◌then◌else◌, Bool-cases,
}
use sukkula.Base.Assoc.{
  insert, remove, IsMap, has, has-insert, has-remove, insert-IsMap, remove-IsMap, length-insert_le,
  length-remove_le, All-insert, All-remove,
}
use sukkula.Limits.{max_active_transfers}
use sukkula.Api.{Outcome, TransferView, Event}
use sukkula.Transfers.{TransferHandle, same_id, emit}
use sukkula.Transfers.Runs.{World}
use sukkula.Transfers.Paired.{
  same_id-IsTest, started, ended, started-emit, ended-emit, IsOwn, IsPaired,
}

-- A start, counted.
flags :
    (s e s' e' : ℕ) (b old new : Bool)
    → s' ≡ s + (if b then 1 else 0)
    → e' ≡ e
    → new ≡ b || old
    → (b ≡ true → old ≡ false)
    → s ≡ e + (if old then 1 else 0)
    → s' ≡ e' + (if new then 1 else 0)
flags s e s' e' true old new hs he hn ho h = ground (arith, hs, he, hn, ho refl, h)
flags s e s' e' false old new hs he hn ho h = ground (arith, hs, he, hn, h)

-- An end, counted.
finishes :
    (s e s' e' : ℕ) (b old new : Bool)
    → s' ≡ s
    → e' ≡ e + (if b then 1 else 0)
    → new ≡ not b && old
    → (b ≡ true → old ≡ true)
    → s ≡ e + (if old then 1 else 0)
    → s' ≡ e' + (if new then 1 else 0)
finishes s e s' e' true old new hs he hn ho h = ground (arith, hs, he, hn, ho refl, h)
finishes s e s' e' false old new hs he hn ho h = ground (arith, hs, he, hn, h)

no : (b : Bool) → not b && false ≡ false
no true = refl
no false = refl

module _ {X : Type 0} where
  pub begin-IsPaired :
      (n k : ℕ) (w : World X) (v : TransferView) (h : TransferHandle)
      → length w.ctx.active < max_active_transfers
      → w.ctx.next < k
      → k ≤ n + 1
      → v.id ≡ k
      → h.id ≡ k
      → h.is_finished ≡ false
      → IsPaired n w
      → IsPaired (n + 1) (record {
        ctx =
            emit
              (record w.ctx { next = k; active = insert same_id k false w.ctx.active })
              (Event.transfer_started v);
        handles = insert same_id k h w.handles;
      })
  begin-IsPaired n k w v h l a b e f g p =
      let t = same_id-IsTest in
      let z = p.fresh k a in
      let E = Event.transfer_started v in
      let es = w.ctx.events in
      let starts : (id : ℕ)
          → started id (es ++ (E ∷ [])) ≡ started id es + (if k == id then 1 else 0) =
        λ id. started-emit id es E ∙ ap (λ x. started id es + (if x == id then 1 else 0)) e in
      let ends : (id : ℕ) → ended id (es ++ (E ∷ [])) ≡ ended id es =
        λ id. omega (arith, ended-emit id es E) in
      let here = λ (id : ℕ). has-insert same_id t k id false w.ctx.active in
      let old : (id : ℕ)
          → (k == id) ≡ true
          → (has same_id id w.ctx.active ≡ false) × (started id es ≡ 0) =
        λ id q.
          subst (λ x. (has same_id x w.ctx.active ≡ false) × (started x es ≡ 0)) ((==_iff k id).0 q)
            z in
      record {
        few = omega (arith, l, length-insert_le same_id k false w.ctx.active);
        distinct = insert-IsMap same_id t k false w.ctx.active p.distinct;
        handled = insert-IsMap same_id t k h w.handles p.handled;
        same = λ id.
            has-insert same_id t k id false w.ctx.active
            ∙ ap (λ x. same_id k id || x) (p.same id)
            ∙ sym (has-insert same_id t k id h w.handles);
        own = All-insert same_id t IsOwn k h w.handles (f, g) p.own;
        bounded = b;
        fresh = λ id i.
            let y = p.fresh id (omega (arith, a, i)) in
            let q : (k == id) ≡ false = ground (arith, i) in
            (
              here id ∙ ap (λ x. x || has same_id id w.ctx.active) q ∙ y.0,
              starts id ∙ ap (λ x. started id es + (if x then 1 else 0)) q ∙ omega (arith, y.1),
            );
        paired = λ id. elim (Bool-cases (k == id)) [
          | inl q ↦
              flags (started id es) (ended id es) (started id (es ++ (E ∷ [])))
                (ended id (es ++ (E ∷ []))) true (has same_id id w.ctx.active)
                (has same_id id (insert same_id k false w.ctx.active))
                (starts id ∙ ap (λ x. started id es + (if x then 1 else 0)) q) (ends id)
                (here id ∙ ap (λ x. x || has same_id id w.ctx.active) q) (λ _. (old id q).0)
                (p.paired id)
          | inr q ↦
              flags (started id es) (ended id es) (started id (es ++ (E ∷ [])))
                (ended id (es ++ (E ∷ []))) false (has same_id id w.ctx.active)
                (has same_id id (insert same_id k false w.ctx.active))
                (starts id ∙ ap (λ x. started id es + (if x then 1 else 0)) q) (ends id)
                (here id ∙ ap (λ x. x || has same_id id w.ctx.active) q)
                (λ x. absurd (ground (arith, x))) (p.paired id)
        ];
        once = λ id. elim (Bool-cases (k == id)) [
          | inl q ↦
              omega
                (arith, starts id ∙ ap (λ x. started id es + (if x then 1 else 0)) q, (old id q).1)
          | inr q ↦
              omega (arith, starts id ∙ ap (λ x. started id es + (if x then 1 else 0)) q, p.once id)
        ];
      }

  -- A call that changes neither what runs nor how often the UI heard of starts and ends.
  pub record IsQuiet (w w' : World X) : Type 0 where
    pub shorter : length w'.ctx.active ≤ length w.ctx.active
    pub distinct : IsMap same_id w'.ctx.active
    pub handled : IsMap same_id w'.handles
    pub running : (id : ℕ) → has same_id id w'.ctx.active ≡ has same_id id w.ctx.active
    pub owned : (id : ℕ) → has same_id id w'.handles ≡ has same_id id w.handles
    pub own : All IsOwn w'.handles
    pub same_next : w'.ctx.next ≡ w.ctx.next
    pub starts : (id : ℕ) → started id w'.ctx.events ≡ started id w.ctx.events
    pub ends : (id : ℕ) → ended id w'.ctx.events ≡ ended id w.ctx.events

  pub quiet-IsPaired : (n : ℕ) (w w' : World X) → IsQuiet w w' → IsPaired n w → IsPaired n w'
  quiet-IsPaired n w w' q p = record {
    few = omega (arith, q.shorter, p.few);
    distinct = q.distinct;
    handled = q.handled;
    same = λ id. q.running id ∙ p.same id ∙ sym (q.owned id);
    own = q.own;
    bounded = omega (arith, q.same_next, p.bounded);
    fresh = λ id i.
        let y = p.fresh id (omega (arith, q.same_next, i)) in
        (q.running id ∙ y.0, q.starts id ∙ y.1);
    paired = λ id.
        q.starts id
        ∙ p.paired id
        ∙ ap (λ x. ended id w.ctx.events + (if x then 1 else 0)) (sym (q.running id))
        ∙ ap (λ x. x + (if has same_id id w'.ctx.active then 1 else 0)) (sym (q.ends id));
    once = λ id. omega (arith, q.starts id, p.once id);
  }

  pub still-IsPaired : (n : ℕ) (w : World X) → IsPaired n w → IsPaired (n + 1) w
  still-IsPaired n w p = record {
    few = p.few;
    distinct = p.distinct;
    handled = p.handled;
    same = p.same;
    own = p.own;
    bounded = omega (arith, p.bounded);
    fresh = p.fresh;
    paired = p.paired;
    once = p.once;
  }

  -- The end of a transfer that runs.
  pub end-IsPaired :
      (n id : ℕ) (w : World X) (outcome : Outcome) (saved : List Str)
      → has same_id id w.handles ≡ true
      → IsPaired n w
      → IsPaired (n + 1) (record {
        ctx =
            emit
              (record w.ctx { active = remove same_id id w.ctx.active })
              (Event.transfer_finished id outcome saved);
        handles = remove same_id id w.handles;
      })
  end-IsPaired n id w outcome saved h p =
      let t = same_id-IsTest in
      let E : Event X = Event.transfer_finished id outcome saved in
      let es = w.ctx.events in
      let gone = λ (j : ℕ). has-remove same_id t id j w.ctx.active p.distinct in
      record {
        few = omega (arith, p.few, length-remove_le same_id id w.ctx.active);
        distinct = remove-IsMap same_id id w.ctx.active p.distinct;
        handled = remove-IsMap same_id id w.handles p.handled;
        same = λ j.
            gone j
            ∙ ap (λ x. not (same_id id j) && x) (p.same j)
            ∙ sym (has-remove same_id t id j w.handles p.handled);
        own = All-remove same_id IsOwn id w.handles p.own;
        bounded = omega (arith, p.bounded);
        fresh = λ j i.
            let y = p.fresh j i in
            (
              gone j ∙ ap (λ x. not (same_id id j) && x) y.0 ∙ no (same_id id j),
              omega (arith, started-emit j es E, y.1),
            );
        paired = λ j.
            finishes (started j es) (ended j es) (started j (es ++ (E ∷ [])))
              (ended j (es ++ (E ∷ []))) (id == j) (has same_id j w.ctx.active)
              (has same_id j (remove same_id id w.ctx.active)) (omega (arith, started-emit j es E))
              (ended-emit j es E) (gone j)
              (λ q. p.same j ∙ subst (λ x. has same_id x w.handles ≡ true) ((==_iff id j).0 q) h)
              (p.paired j);
        once = λ j. omega (arith, started-emit j es E, p.once j);
      }
