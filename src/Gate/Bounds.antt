-- ===== src/Gate/Bounds.antt =====
-- How much waits at the gate of hub.rs.
use mathlib.Core.Path.{subst}
use sukkula.Base.Maybe.{◌>>=◌}
use sukkula.Base.{
  ℕ, ◌+◌, ◌≤◌, ◌<◌, ◌≡◌, refl, sym, ◌∙◌, ap, inl, inr, Bool, true, false, not, ◌&&◌, ◌||◌, Option,
  none, some, List, [], ◌∷◌, ◌++◌, arith, leb, ltb, All, All-append, Bool-cases, if-split,
  if◌then◌else◌,
}
use sukkula.Limits.{max_event_bytes}
use sukkula.Api.{Event}
use sukkula.Gate.{
  GateState, is_open, Queue, Queued, Turn, fit, fit_at, with_len, encoded_len, replacement,
  push_turn, accept, sat_add, is_crowded, close_to, pop, empty_next, max_queued_events,
  max_queued_bytes,
}
use sukkula.Gate.Runs.{Thread, World, Step, pushed, turned}
use sukkula.Gate.Order.{IsOrdered, is_over}

module _ {X : Type 0} where
  -- How many waiting events count against the bounds, and their bytes.
  abbrev pub counted : List (Queued X) → ℕ
  counted [] = 0
  counted (i ∷ is) = (if i.has_permit then 0 else 1) + counted is

  abbrev pub weight : List (Queued X) → ℕ
  weight [] = 0
  weight (i ∷ is) = (if i.has_permit then 0 else i.bytes) + weight is

  pub record IsHeld (w : World X) : Type 0 where
    pub events : w.q.held_events ≡ counted w.q.items
    pub bytes : w.q.held_bytes ≡ weight w.q.items
    pub few : w.q.held_events ≤ max_queued_events
    pub light : w.q.held_bytes ≤ max_queued_bytes
    pub sized : All (λ (i : Queued X). i.bytes ≤ max_event_bytes) w.q.items
    pub over : is_over w.thread ≡ true → w.q.items ≡ []

  -- A step that is no push by the delivery thread without a command slot.
  abbrev pub may_wait : Step X → Bool
  may_wait (Step.pushing e has_permit in_delivery) = has_permit || not in_delivery
  may_wait (Step.closing f) = true
  may_wait Step.turning = true
  may_wait Step.calling = true
  may_wait Step.returning = true
  may_wait Step.leaving = true

  counted-append : (xs ys : List (Queued X)) → counted (xs ++ ys) ≡ counted xs + counted ys
  counted-append [] ys = omega arith
  counted-append (x ∷ xs) ys = omega (arith, counted-append xs ys)

  weight-append : (xs ys : List (Queued X)) → weight (xs ++ ys) ≡ weight xs + weight ys
  weight-append [] ys = omega arith
  weight-append (x ∷ xs) ys = omega (arith, weight-append xs ys)

  weight_none : (xs : List (Queued X)) → counted xs ≡ 0 → weight xs ≡ 0
  weight_none [] h = refl
  weight_none (x ∷ xs) h = elim (Bool-cases x.has_permit) [
    | inl e ↦ ground (arith, e, h, weight_none xs)
    | inr e ↦ ground (arith, e, h)
  ]

  with_len-fits :
      (json_len : Event X → ℕ) (e e' : Event X) (n : ℕ)
      → with_len e (encoded_len json_len e) ≡ some (e', n)
      → n ≤ max_event_bytes
  with_len-fits json_len e e' n h = elim (Bool-cases (leb (json_len e) max_event_bytes)) [
    | inl f ↦ ground (arith, h, f)
    | inr f ↦ ground (arith, h, f)
  ]

  replaced-fits :
      (json_len : Event X → ℕ) (r : Option (Event X)) (e' : Event X) (n : ℕ)
      → (r >>= (λ x. with_len x (encoded_len json_len x))) ≡ some (e', n)
      → n ≤ max_event_bytes
  replaced-fits json_len none e' n h = ground (arith, h)
  replaced-fits json_len (some x) e' n h = with_len-fits json_len x e' n h

  fit_at-fits :
      (json_len : Event X → ℕ) (e e' : Event X) (n : ℕ) (o : Option ℕ)
      → encoded_len json_len e ≡ o
      → fit_at json_len e o ≡ some (e', n)
      → n ≤ max_event_bytes
  fit_at-fits json_len e e' n none i h = replaced-fits json_len (replacement e) e' n h
  fit_at-fits json_len e e' n (some m) i h = with_len-fits json_len e e' n (ap (with_len e) i ∙ h)

  pub fit-fits :
      (json_len : Event X → ℕ) (e e' : Event X) (n : ℕ)
      → fit json_len e ≡ some (e', n)
      → n ≤ max_event_bytes
  unfolding fit
  fit-fits json_len e e' n h = fit_at-fits json_len e e' n (encoded_len json_len e) refl h

  -- A gate that is not crowded has room for an event.
  roomy :
      (q : Queue X) (bytes : ℕ)
      → is_crowded q bytes ≡ false
      → bytes ≤ max_event_bytes
      → q.held_events ≡ counted q.items
      → q.held_bytes ≡ weight q.items
      → q.held_bytes ≤ max_queued_bytes
      → (q.held_events < max_queued_events) × (q.held_bytes + bytes ≤ max_queued_bytes)
  roomy q bytes c b e w l = elim (Bool-cases (ltb 0 q.held_events)) [
    | inl f ↦ (ground (arith, c, f), ground (arith, c, f, l, b))
    | inr f ↦
        let z : q.held_events ≡ 0 = ground (arith, f) in
        let y = weight_none q.items (sym e ∙ z) in (omega (arith, z), omega (arith, y, w, b))
  ]

  accept-IsHeld :
      (w : World X) (e : Event X) (bytes : ℕ) (has_permit : Bool)
      → bytes ≤ max_event_bytes
      → is_over w.thread ≡ false
      → (has_permit ≡ false
          → (w.q.held_events < max_queued_events) × (w.q.held_bytes + bytes ≤ max_queued_bytes))
      → IsHeld w
      → IsHeld (record w { q = accept w.q e bytes has_permit; taken = w.taken ++ (e ∷ []) })
  accept-IsHeld w e bytes true b o r v =
      let item : Queued X = record { event = e; bytes = bytes; has_permit = true } in
      record {
        events = omega (arith, v.events, counted-append w.q.items (item ∷ []));
        bytes = omega (arith, v.bytes, weight-append w.q.items (item ∷ []));
        few = v.few;
        light = v.light;
        sized = All-append (λ i. i.bytes ≤ max_event_bytes) w.q.items (item ∷ []) v.sized (b, tt);
        over = λ t. absurd (ground (arith, t, o));
      }
  accept-IsHeld w e bytes false b o r v =
      let item : Queued X = record { event = e; bytes = bytes; has_permit = false } in
      let room = r refl in
      record {
        events = omega (arith, v.events, counted-append w.q.items (item ∷ []), room.0);
        bytes = omega (arith, v.bytes, weight-append w.q.items (item ∷ []), room.1);
        few = omega (arith, room.0);
        light = omega (arith, room.1);
        sized = All-append (λ i. i.bytes ≤ max_event_bytes) w.q.items (item ∷ []) v.sized (b, tt);
        over = λ t. absurd (ground (arith, t, o));
      }

  pub push-IsHeld :
      (w : World X) (e : Event X) (bytes : ℕ) (has_permit in_delivery : Bool)
      → has_permit || not in_delivery ≡ true
      → bytes ≤ max_event_bytes
      → IsOrdered w
      → IsHeld w
      → IsHeld (pushed w e (push_turn w.q e bytes has_permit in_delivery))
  unfolding push_turn
  push-IsHeld w e bytes has_permit in_delivery m b o v =
      let q = w.q in
      let P : Queue X × Turn → Type 0 = λ r. IsHeld (pushed w e r) in
      let waits : Queue X × Turn = (q, Turn.waits) in
      let refused : Queue X × Turn = (q, Turn.refused) in
      let taken : Queue X × Turn =
        (accept q e bytes has_permit, Turn.numbered (sat_add q.accepted 1)) in
      let blocks = not has_permit && not in_delivery && is_open q.state && is_crowded q bytes in
      if-split P blocks waits (if not (is_open q.state) then refused else taken) (λ a. v)
        (λ a.
          if-split P (not (is_open q.state)) refused taken (λ c. v)
            (λ c.
              accept-IsHeld w e bytes has_permit b
                (elim (Bool-cases (is_over w.thread)) [
                  | inl t ↦ ground (arith, o.over t, c)
                  | inr f ↦ f
                ])
                (λ p. roomy q bytes (ground (arith, a, c, m, p)) b v.events v.bytes v.light) v))

  pub close_to-IsHeld :
      (w : World X) (s : GateState) → IsHeld w → IsHeld (record w { q = close_to w.q s })
  close_to-IsHeld w GateState.opened v = record {
    events = v.events;
    bytes = v.bytes;
    few = v.few;
    light = v.light;
    sized = v.sized;
    over = v.over;
  }
  close_to-IsHeld w GateState.draining v = record {
    events = v.events;
    bytes = v.bytes;
    few = v.few;
    light = v.light;
    sized = v.sized;
    over = v.over;
  }
  close_to-IsHeld w GateState.closed v = record {
    events = refl;
    bytes = refl;
    few = omega arith;
    light = omega arith;
    sized = tt;
    over = λ t. refl;
  }

  pub end-IsHeld :
      (w : World X) → w.q.items ≡ [] → IsHeld w → IsHeld (record w { thread = Thread.ended })
  end-IsHeld w i v = record {
    events = v.events;
    bytes = v.bytes;
    few = v.few;
    light = v.light;
    sized = v.sized;
    over = λ t. i;
  }

  pub empty-IsHeld :
      (w : World X) (s : GateState)
      → w.q.items ≡ []
      → IsHeld w
      → IsHeld (turned w (w.q, empty_next s))
  empty-IsHeld w GateState.opened i v = v
  empty-IsHeld w GateState.draining i v = end-IsHeld w i v
  empty-IsHeld w GateState.closed i v = end-IsHeld w i v

  pub popped-IsHeld :
      (w : World X) (bytes : ℕ) (event : Event X) (has_permit : Bool) (rest : List (Queued X))
      → let item : Queued X = record { event = event; bytes = bytes; has_permit = has_permit } in
        w.q.items ≡ item ∷ rest → IsHeld w → IsHeld (turned w (pop w.q (item ∷ rest)))
  popped-IsHeld w bytes event true rest i v =
      let s = subst (All (λ (x : Queued X). x.bytes ≤ max_event_bytes)) i v.sized in
      record {
        events = omega (arith, v.events, ap counted i);
        bytes = omega (arith, v.bytes, ap weight i);
        few = v.few;
        light = v.light;
        sized = s.1;
        over = λ t. absurd (ground (arith, t));
      }
  popped-IsHeld w bytes event false rest i v =
      let s = subst (All (λ (x : Queued X). x.bytes ≤ max_event_bytes)) i v.sized in
      record {
        events = omega (arith, v.events, ap counted i);
        bytes = omega (arith, v.bytes, ap weight i);
        few = omega (arith, v.few);
        light = omega (arith, v.light);
        sized = s.1;
        over = λ t. absurd (ground (arith, t));
      }
