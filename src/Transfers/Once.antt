-- ===== src/Transfers/Once.antt =====
-- Cancelling, progress and finishing of the transfers of ctx.rs keep starts and ends paired.
use mathlib.Core.Path.{subst}
use sukkula.Base.{
  ℕ, suc, ◌+◌, ◌≡◌, refl, sym, ◌∙◌, ap, inl, inr, Bool, true, false, ◌||◌, Option, none, some, List,
  [], ◌∷◌, Str, arith, ◌==◌, ==_iff, length, map, if◌then◌else◌, if-split, Bool-cases,
}
use sukkula.Base.Outcome.{Result, ok, err}
use sukkula.Base.Assoc.{
  lookup, insert, remove, IsMap, is_some, none_of_is_some, has, has-insert, insert-IsMap,
  length-insert_known, All-insert, lookup-All,
}
use sukkula.Api.{ErrorInfo, Outcome, Event}
use sukkula.Transfers.{
  Transfers, TransferHandle, same_id, emit, cancel_at, cancel_all, shut_down, is_due, tell,
  throttle, shown_of, counted, add_progress, report, drop_handle, finish, finish_with, outcome_of,
  is_cancelled,
}
use sukkula.Transfers.Runs.{World, progress_at, finish_at}
use sukkula.Transfers.Paired.{
  same_id-IsTest, started, ended, started-emit, ended-emit, IsOwn, IsPaired,
}
use sukkula.Transfers.Pairs.{IsQuiet, quiet-IsPaired, still-IsPaired, end-IsPaired}

-- Tokens that are cancelled all at once.
abbrev all_cancelled : List (ℕ × Bool) → List (ℕ × Bool)
all_cancelled m = map (λ p. (p.0, true)) m

has-all_cancelled :
    (id : ℕ) (m : List (ℕ × Bool)) → has same_id id (all_cancelled m) ≡ has same_id id m
has-all_cancelled id [] = refl
has-all_cancelled id ((j, c) ∷ m) = elim (Bool-cases (j == id)) [
  | inl e ↦ rw e refl
  | inr e ↦ rw e (has-all_cancelled id m)
]

length-all_cancelled : (m : List (ℕ × Bool)) → length (all_cancelled m) ≡ length m
length-all_cancelled [] = refl
length-all_cancelled (p ∷ m) = ap suc (length-all_cancelled m)

all_cancelled-IsMap : (m : List (ℕ × Bool)) → IsMap same_id m → IsMap same_id (all_cancelled m)
all_cancelled-IsMap [] d = tt
all_cancelled-IsMap ((j, c) ∷ m) d =
    (none_of_is_some _ (has-all_cancelled j m ∙ ap is_some d.0), all_cancelled-IsMap m d.1)

insert_known :
    {V : Type 0} (id j : ℕ) (v : V) (m : List (ℕ × V))
    → has same_id id m ≡ true
    → has same_id j (insert same_id id v m) ≡ has same_id j m
insert_known id j v m h = elim (Bool-cases (id == j)) [
  | inl e ↦
      has-insert same_id same_id-IsTest id j v m
      ∙ ap (λ x. x || has same_id j m) e
      ∙ sym (subst (λ x. has same_id x m ≡ true) ((==_iff id j).0 e) h)
  | inr e ↦ has-insert same_id same_id-IsTest id j v m ∙ ap (λ x. x || has same_id j m) e
]

module _ {X : Type 0} where
  pub cancel_at-IsQuiet :
      (n id : ℕ) (w : World X) (o : Option Bool)
      → lookup same_id id w.ctx.active ≡ o
      → IsPaired n w
      → IsQuiet w (record w { ctx = (cancel_at w.ctx id o).0 })
  cancel_at-IsQuiet n id w none h p = record {
    shorter = omega arith;
    distinct = p.distinct;
    handled = p.handled;
    running = λ j. refl;
    owned = λ j. refl;
    own = p.own;
    same_next = refl;
    starts = λ j. refl;
    ends = λ j. refl;
  }
  cancel_at-IsQuiet n id w (some c) h p =
      let k : has same_id id w.ctx.active ≡ true = ap is_some h in
      record {
        shorter = omega (arith, length-insert_known same_id id true w.ctx.active k);
        distinct = insert-IsMap same_id same_id-IsTest id true w.ctx.active p.distinct;
        handled = p.handled;
        running = λ j. insert_known id j true w.ctx.active k;
        owned = λ j. refl;
        own = p.own;
        same_next = refl;
        starts = λ j. refl;
        ends = λ j. refl;
      }

  pub shut_down-IsQuiet :
      (n : ℕ) (w : World X) → IsPaired n w → IsQuiet w (record w { ctx = shut_down w.ctx })
  unfolding shut_down cancel_all
  shut_down-IsQuiet n w p = record {
    shorter = omega (arith, length-all_cancelled w.ctx.active);
    distinct = all_cancelled-IsMap w.ctx.active p.distinct;
    handled = p.handled;
    running = λ j. has-all_cancelled j w.ctx.active;
    owned = λ j. refl;
    own = p.own;
    same_next = refl;
    starts = λ j. refl;
    ends = λ j. refl;
  }

  progress-IsQuiet :
      (n id : ℕ) (w : World X) (h : TransferHandle) (s : Transfers X)
      → has same_id id w.handles ≡ true
      → h.id ≡ id
      → h.is_finished ≡ false
      → s.active ≡ w.ctx.active
      → s.next ≡ w.ctx.next
      → ((j : ℕ) → started j s.events ≡ started j w.ctx.events)
      → ((j : ℕ) → ended j s.events ≡ ended j w.ctx.events)
      → IsPaired n w
      → IsQuiet w (record { ctx = s; handles = insert same_id id h w.handles })
  progress-IsQuiet n id w h s k i f a b c d p = record {
    shorter = omega (arith, ap length a);
    distinct = subst (λ m. IsMap same_id m) (sym a) p.distinct;
    handled = insert-IsMap same_id same_id-IsTest id h w.handles p.handled;
    running = λ j. ap (has same_id j) a;
    owned = λ j. insert_known id j h w.handles k;
    own = All-insert same_id same_id-IsTest IsOwn id h w.handles (i, f) p.own;
    same_next = b;
    starts = c;
    ends = d;
  }

  pub progress_at-IsPaired :
      (n id m now : ℕ) (w : World X) (o : Option TransferHandle)
      → lookup same_id id w.handles ≡ o
      → IsPaired n w
      → IsPaired n (progress_at w id m now o)
  unfolding add_progress throttle
  progress_at-IsPaired n id m now w none e p = p
  progress_at-IsPaired n id m now w (some h) e p =
      let k : has same_id id w.handles ≡ true = ap is_some e in
      let o = lookup-All same_id same_id-IsTest IsOwn id h w.handles e p.own in
      let P : Transfers X × TransferHandle → Type 0 =
        λ r. IsPaired n (record { ctx = r.0; handles = insert same_id id r.1 w.handles }) in
      let still : Transfers X × TransferHandle = (w.ctx, h) in
      let count : TransferHandle × Bool = (counted h m, false) in
      let E : Event X = Event.transfer_progress h.id (shown_of h m) h.total in
      let h' : TransferHandle = record (counted h m) {
        last_report = record { at = some now; shown = some (shown_of h m) };
      } in
      let tells : TransferHandle × Bool = (h', true) in
      if-split P (m == 0) still
        (tell w.ctx (shown_of h m) (if is_due h (shown_of h m) now then tells else count))
        (λ a.
          quiet-IsPaired n w _
            (progress-IsQuiet n id w h w.ctx k o.0 o.1 refl refl (λ j. refl) (λ j. refl) p) p)
        (λ a.
          if-split (λ r. P (tell w.ctx (shown_of h m) r)) (is_due h (shown_of h m) now) tells count
            (λ b.
              quiet-IsPaired n w _
                (progress-IsQuiet n id w h' (emit w.ctx E) k o.0 o.1 refl refl
                  (λ j. omega (arith, started-emit j w.ctx.events E))
                  (λ j. omega (arith, ended-emit j w.ctx.events E)) p)
                p)
            (λ b.
              quiet-IsPaired n w _
                (progress-IsQuiet n id w (counted h m) w.ctx k o.0 o.1 refl refl (λ j. refl)
                  (λ j. refl) p)
                p))

  -- `finish` of a handle that is not finished reports once, and its drop reports nothing.
  finish_lem :
      (s : Transfers X) (h : TransferHandle) (outcome : Outcome) (saved : List Str)
      → finish s h outcome saved ≡ report s h outcome saved
  unfolding finish drop_handle
  finish_lem s h outcome saved = refl

  finished-IsPaired :
      (n id : ℕ) (w : World X) (h : TransferHandle) (outcome : Outcome) (saved : List Str)
      → lookup same_id id w.handles ≡ some h
      → IsPaired n w
      → IsPaired
          (n + 1)
          (record { ctx = finish w.ctx h outcome saved; handles = remove same_id id w.handles })
  finished-IsPaired n id w h outcome saved e p =
      let o = lookup-All same_id same_id-IsTest IsOwn id h w.handles e p.own in
      subst (λ s. IsPaired (n + 1) (record { ctx = s; handles = remove same_id id w.handles }))
        (sym (
          finish_lem w.ctx h outcome saved
          ∙ ap
              (λ i.
                emit (record w.ctx { active = remove same_id i w.ctx.active })
                  (Event.transfer_finished i outcome saved))
              o.0))
        (end-IsPaired n id w outcome saved (ap is_some e) p)

  pub finish_at-IsPaired :
      (n id : ℕ) (w : World X) (result : Result ErrorInfo (List Str)) (o : Option TransferHandle)
      → lookup same_id id w.handles ≡ o
      → IsPaired n w
      → IsPaired (n + 1) (finish_at w id result o)
  unfolding finish_with
  finish_at-IsPaired n id w result none e p = still-IsPaired n w p
  finish_at-IsPaired n id w (ok saved) (some h) e p =
      finished-IsPaired n id w h Outcome.done saved e p
  finish_at-IsPaired n id w (err x) (some h) e p =
      finished-IsPaired n id w h (outcome_of (is_cancelled w.ctx h) x) [] e p
