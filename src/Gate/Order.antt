-- ===== src/Gate/Order.antt =====
-- The order in which the sink gets the events of the gate of hub.rs.
use mathlib.Core.List.{append_assoc}
use sukkula.Base.{
  ℕ, ◌-◌, ◌≤◌, ◌≡◌, ◌^◌, min, refl, sym, ◌∙◌, ap, inl, inr, Bool, true, false, not, ◌&&◌, Option,
  none, some, List, [], ◌∷◌, ◌++◌, arith, length, length-append, map, Bool-cases, if-split,
  if◌then◌else◌,
}
use sukkula.Api.{Event}
use sukkula.Gate.{
  GateState, is_open, is_closed, Queue, Queued, Turn, push_turn, accept, held, sat_add, is_crowded,
}
use sukkula.Gate.Runs.{Thread, World, pushed, push_fit}

abbrev pub is_gone : {X : Type 0} → Thread X → Bool
is_gone Thread.listening = false
is_gone Thread.calling = false
is_gone Thread.ended = false
is_gone Thread.gone = true
is_gone (Thread.holding e) = false

abbrev pub is_over : {X : Type 0} → Thread X → Bool
is_over Thread.listening = false
is_over Thread.calling = false
is_over Thread.ended = true
is_over Thread.gone = true
is_over (Thread.holding e) = false

-- How many events the sink has and did not return from.
abbrev pub in_sink : {X : Type 0} → Thread X → ℕ
in_sink Thread.listening = 0
in_sink Thread.calling = 1
in_sink Thread.ended = 0
in_sink Thread.gone = 0
in_sink (Thread.holding e) = 0

not_closed : (s : GateState) → is_open s ≡ true → is_closed s ≡ false
not_closed GateState.opened h = refl
not_closed GateState.draining h = refl
not_closed GateState.closed h = ground (arith, h)

pub not_gone : {X : Type 0} → (t : Thread X) → is_over t ≡ false → is_gone t ≡ false
not_gone Thread.listening h = refl
not_gone Thread.calling h = refl
not_gone Thread.ended h = refl
not_gone Thread.gone h = ground (arith, h)
not_gone (Thread.holding e) h = refl

of_not : (b : Bool) → not b ≡ false → b ≡ true
of_not true h = refl
of_not false h = ground (arith, h)

module _ {X : Type 0} where
  abbrev pub events_of : List (Queued X) → List (Event X)
  events_of items = map (λ i. i.event) items

  -- The event that the thread has in hand, before some others.
  abbrev pub hand_on : Thread X → List (Event X) → List (Event X)
  hand_on Thread.listening es = es
  hand_on Thread.calling es = es
  hand_on Thread.ended es = es
  hand_on Thread.gone es = es
  hand_on (Thread.holding e) es = e ∷ es

  hand_on-append :
      (t : Thread X) (xs ys : List (Event X)) → hand_on t xs ++ ys ≡ hand_on t (xs ++ ys)
  hand_on-append Thread.listening xs ys = refl
  hand_on-append Thread.calling xs ys = refl
  hand_on-append Thread.ended xs ys = refl
  hand_on-append Thread.gone xs ys = refl
  hand_on-append (Thread.holding e) xs ys = refl

  pub events_of-append :
      (xs ys : List (Queued X)) → events_of (xs ++ ys) ≡ events_of xs ++ events_of ys
  events_of-append [] ys = refl
  events_of-append (x ∷ xs) ys = ap (λ l. x.event ∷ l) (events_of-append xs ys)

  -- What holds at any time: the sink was given the first of the accepted events, in their order; the
  -- thread may hold the next; the others still wait unless the gate is closed or its thread gone; a
  -- closed gate keeps none; and the counters are right, up to their largest value.
  pub record IsOrdered (w : World X) : Type 0 where
    pub prefix : (rest : List (Event X)) × (w.taken ≡ w.sent ++ hand_on w.thread rest)
    pub waiting :
        is_closed w.q.state ≡ false
        → is_gone w.thread ≡ false
        → w.taken ≡ w.sent ++ hand_on w.thread (events_of w.q.items)
    pub emptied : is_closed w.q.state ≡ true → w.q.items ≡ []
    pub over : is_over w.thread ≡ true → is_open w.q.state ≡ false
    pub accepted : w.q.accepted ≡ min (2 ^ 64 - 1) (length w.taken)
    pub delivered : w.q.delivered ≡ min (2 ^ 64 - 1) (length w.sent - in_sink w.thread)
    pub begun : in_sink w.thread ≤ length w.sent

  accepted-IsOrdered :
      (w : World X) (e : Event X) (bytes : ℕ) (has_permit : Bool) (h : Queue X)
      → h.state ≡ w.q.state
      → h.delivered ≡ w.q.delivered
      → is_open w.q.state ≡ true
      → IsOrdered w
      → let item : Queued X = record { event = e; bytes = bytes; has_permit = has_permit } in
        IsOrdered (record w {
          q = record h { accepted = sat_add w.q.accepted 1; items = w.q.items ++ (item ∷ []) };
          taken = w.taken ++ (e ∷ []);
        })
  accepted-IsOrdered w e bytes has_permit h s d o v =
      let item : Queued X = record { event = e; bytes = bytes; has_permit = has_permit } in
      let live : is_over w.thread ≡ false = elim (Bool-cases (is_over w.thread)) [
        | inl t ↦ ground (arith, v.over t, o)
        | inr f ↦ f
      ] in
      let flow : w.taken ++ (e ∷ [])
          ≡ w.sent ++ hand_on w.thread (events_of (w.q.items ++ (item ∷ []))) =
        ap (λ l. l ++ (e ∷ [])) (v.waiting (not_closed w.q.state o) (not_gone w.thread live))
        ∙ append_assoc w.sent (hand_on w.thread (events_of w.q.items)) (e ∷ [])
        ∙ ap (λ l. w.sent ++ l) (hand_on-append w.thread (events_of w.q.items) (e ∷ []))
        ∙ ap (λ l. w.sent ++ hand_on w.thread l) (sym (events_of-append w.q.items (item ∷ []))) in
      record {
        prefix = (events_of (w.q.items ++ (item ∷ [])), flow);
        waiting = λ c g. flow;
        emptied = λ c. absurd (ground (arith, c, ap is_closed s, not_closed w.q.state o));
        over = λ t. absurd (ground (arith, t, live));
        accepted = omega (arith, v.accepted, length-append w.taken (e ∷ []));
        delivered = d ∙ v.delivered;
        begun = v.begun;
      }

  accept-IsOrdered :
      (w : World X) (e : Event X) (bytes : ℕ) (has_permit : Bool)
      → is_open w.q.state ≡ true
      → IsOrdered w
      → IsOrdered (record w { q = accept w.q e bytes has_permit; taken = w.taken ++ (e ∷ []) })
  accept-IsOrdered w e bytes true o v = accepted-IsOrdered w e bytes true w.q refl refl o v
  accept-IsOrdered w e bytes false o v =
      accepted-IsOrdered w e bytes false (held w.q bytes false) refl refl o v

  push-IsOrdered :
      (w : World X) (e : Event X) (bytes : ℕ) (has_permit in_delivery : Bool)
      → IsOrdered w
      → IsOrdered (pushed w e (push_turn w.q e bytes has_permit in_delivery))
  unfolding push_turn
  push-IsOrdered w e bytes has_permit in_delivery v =
      let q = w.q in
      let P : Queue X × Turn → Type 0 = λ r. IsOrdered (pushed w e r) in
      let waits : Queue X × Turn = (q, Turn.waits) in
      let refused : Queue X × Turn = (q, Turn.refused) in
      let taken : Queue X × Turn =
        (accept q e bytes has_permit, Turn.numbered (sat_add q.accepted 1)) in
      if-split P (not has_permit && not in_delivery && is_open q.state && is_crowded q bytes) waits
        (if not (is_open q.state) then refused else taken) (λ a. v)
        (λ a.
          if-split P (not (is_open q.state)) refused taken (λ b. v)
            (λ b. accept-IsOrdered w e bytes has_permit (of_not (is_open q.state) b) v))

  pub push_fit-IsOrdered :
      (w : World X) (has_permit in_delivery : Bool) (o : Option (Event X × ℕ))
      → IsOrdered w
      → IsOrdered (push_fit w has_permit in_delivery o)
  push_fit-IsOrdered w has_permit in_delivery none v = v
  push_fit-IsOrdered w has_permit in_delivery (some (e, bytes)) v =
      push-IsOrdered w e bytes has_permit in_delivery v
