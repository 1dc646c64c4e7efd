-- ===== src/Consent/Promises.antt =====
-- What consent.rs promises of every run: nothing is received without a yes, every offer leaves the
-- queue once, and the queue stays short.
use mathlib.Core.Path.{subst}
use native.Mathlib.Nat.{le_refl}
use sukkula.Base.{
  ℕ, ◌+◌, ◌-◌, ◌^◌, ◌≤◌, ◌<◌, ◌≡◌, ◌⊎◌, inl, inr, refl, sym, ap, ◌∙◌, Bool, true, false, Option,
  none, some, List, [], ◌∷◌, arith, if◌then◌else◌, length, Bool-cases,
}
use sukkula.Consent.{
  Decision, accept, decline, ConsentEvent, contains_key, queued, awaiting, elapsed, send,
  answer_entry, Outcome, granted, dropped, Slot, empty, sent, abandoned, Phase, over, Ask, Broker,
  with_limits, lookup, remove, outcome_of, ask_begin, announce, wake, elapse, reap, withdraw,
  answer, shutdown,
}
use sukkula.Consent.Runs.{
  Move, begin, show, hear, expire, collect, hang_up, stop, Run, start, move, delivered, ignored,
  IsDelivered,
}
use sukkula.Consent.Entries.{
  Entry, Inv, Allowed, Agrees, SentIn, is_queued, slot_at, shows, closes, is_over,
}
use sukkula.Consent.Invariant.{announce-Inv, elapse-Inv, withdraw-Inv, wake-Inv, reap-Inv}
use sukkula.Consent.Moves.{answer-Inv, shutdown-Inv, begin-Inv, ask_begin-cases}

Move-Inv :
    {s t : Broker} (ds : List (ℕ × Decision))
    → Move s t
    → t.calls < 2 ^ 64 - 1
    → Inv s ds
    → Inv t ds
Move-Inv {s} ds begin c v = begin-Inv s ds c v
Move-Inv {s} ds (show n a h p) c v = announce-Inv s ds n a h v p
Move-Inv {s} ds (hear n a h p k) c v = wake-Inv s ds n a h v p k
Move-Inv {s} ds (expire n a h p k) c v = elapse-Inv s ds n a h v p
Move-Inv {s} ds (collect n a h p) c v = reap-Inv s ds n a h v p
Move-Inv {s} ds (hang_up n a h p) c v = withdraw-Inv s ds n a h v p
Move-Inv {s} ds stop c v = shutdown-Inv s ds v

-- What no move but a new call changes, and how far the queue may grow.
record Keeps (s t : Broker) : Type 0 where
  calls : s.calls ≤ t.calls
  cap : t.max_pending ≡ s.max_pending
  room : (length t.queue ≤ length s.queue) ⊎ (length t.queue ≤ s.max_pending)
  shut : (s.is_shut_down ≡ true → s.queue ≡ []) → t.is_shut_down ≡ true → t.queue ≡ []

length-remove : (k : ℕ) (m : List (ℕ × ℕ)) → length (remove k m) ≤ length m
unfolding remove
length-remove k [] = omega arith
length-remove k ((j, v) ∷ m) = ground (arith, length-remove k m)

remove-nil : (k : ℕ) (m : List (ℕ × ℕ)) → m ≡ [] → remove k m ≡ []
unfolding remove
remove-nil k m h = rw h

-- A move that leaves the queue alone, or takes an entry out.
same-Keeps :
    (s : Broker) (asks : ℕ → Option Ask) (log : List ConsentEvent)
    → Keeps s (record s { asks = asks; log = log })
same-Keeps s asks log = record {
  calls = le_refl s.calls;
  cap = refl;
  room = inl (le_refl _);
  shut = λ h. h;
}

less-Keeps :
    (s : Broker) (id : ℕ) (asks : ℕ → Option Ask) (log : List ConsentEvent)
    → Keeps s (record s { queue = remove id s.queue; asks = asks; log = log })
less-Keeps s id asks log = record {
  calls = le_refl s.calls;
  cap = refl;
  room = inl (length-remove id s.queue);
  shut = λ h k. remove-nil id s.queue (h k);
}

begin-Keeps : (s : Broker) → Keeps s (ask_begin s).0
begin-Keeps s = elim (ask_begin-cases s) [
  | inl e ↦ subst (Keeps s) (sym e) (same-Keeps s s.asks s.log)
  | inr (h, k, e) ↦ subst (Keeps s) (sym e) (record {
    calls = omega arith;
    cap = refl;
    room = inr k;
    shut = λ _ f. absurd (ground arith);
  })
]

Move-Keeps : {s t : Broker} → Move s t → Keeps s t
unfolding announce wake elapse reap withdraw shutdown
Move-Keeps {s} begin = begin-Keeps s
Move-Keeps {s} (show n a h p) = same-Keeps s _ _
Move-Keeps {s} (hear n a h p k) = same-Keeps s _ _
Move-Keeps {s} (expire n a h p k) = same-Keeps s _ _
Move-Keeps {s} (collect n a h p) = elim (Bool-cases (contains_key a.id s.queue)) [
  | inl e ↦ rw e (less-Keeps s a.id _ _)
  | inr e ↦ rw e (same-Keeps s _ _)
]
Move-Keeps {s} (hang_up n a h p) = less-Keeps s a.id _ _
Move-Keeps {s} stop = record {
  calls = le_refl s.calls;
  cap = refl;
  room = inl (omega arith);
  shut = λ h k. refl;
}

send-Keeps :
    (s : Broker) (id n : ℕ) (d : Decision) (o : Option Ask)
    → Keeps s (send (record s { queue = remove id s.queue }) n d o).0
unfolding send
send-Keeps s id n d none = less-Keeps s id s.asks s.log
send-Keeps s id n d (some a) = go a.phase refl
  where
    go :
        (p : Phase)
        → a.phase ≡ p
        → Keeps s (send (record s { queue = remove id s.queue }) n d (some a)).0
    go (over o) e = rw (e, send) (less-Keeps s id s.asks s.log)
    go queued e = rw (e, send) (less-Keeps s id _ s.log)
    go awaiting e = rw (e, send) (less-Keeps s id _ s.log)
    go elapsed e = rw (e, send) (less-Keeps s id _ s.log)

answer-Keeps :
    (s t : Broker) (id : ℕ) (d : Decision) (b : Bool) → answer s id d ≡ (t, b) → Keeps s t
unfolding answer
answer-Keeps s t id d b h = subst (λ (r : Broker × Bool). Keeps s r.0) h (go (lookup id s.queue))
  where
    go : (o : Option ℕ) → Keeps s (answer_entry s id d o).0
    go none = same-Keeps s s.asks s.log
    go (some n) = send-Keeps s id n d (s.asks n)

Run-Inv :
    (limit : ℕ) {ds : List (ℕ × Decision)} {s : Broker}
    → Run limit ds s
    → s.calls < 2 ^ 64 - 1
    → Inv s ds
unfolding with_limits
Run-Inv limit start c = record {
  numbered = refl;
  keys = tt;
  entry = λ n. (unfold lookup in refl, refl, refl);
  answered = λ n d u. absurd u;
}
Run-Inv limit (move {ds} r m) c =
    Move-Inv ds m c (Run-Inv limit r (omega (arith, (Move-Keeps m).calls)))
Run-Inv limit (delivered {ds} {s} {t} id d r h) c =
    (answer-Inv s t ds id d true
      (Run-Inv limit r (omega (arith, (answer-Keeps s t id d true h).calls))) h).0
Run-Inv limit (ignored {ds} {s} {t} id d r h) c =
    (answer-Inv s t ds id d false
      (Run-Inv limit r (omega (arith, (answer-Keeps s t id d false h).calls))) h).0

-- What is known of a call that was made.
Run-Entry :
    (limit : ℕ) {ds : List (ℕ × Decision)} {s : Broker} (n : ℕ) (a : Ask)
    → Run limit ds s
    → s.calls < 2 ^ 64 - 1
    → s.asks n ≡ some a
    → Entry s ds n (some a)
Run-Entry limit {ds} {s} n a r c h = subst (Entry s ds n) h ((Run-Inv limit r c).entry n)

granted-sent :
    (id n : ℕ) (ds : List (ℕ × Decision)) (x : Slot)
    → Allowed (n + 1) x (granted id)
    → SentIn (n + 1) x ds
    → (id ≡ n + 1) × IsDelivered (n + 1) accept ds
granted-sent id n ds (sent accept) (inl g) u = (ground arith, u)
granted-sent id n ds (sent accept) (inr g) u = absurd (ground arith)
granted-sent id n ds (sent decline) (inl g) u = absurd (ground arith)
granted-sent id n ds (sent decline) (inr g) u = absurd (ground arith)
granted-sent id n ds abandoned (inl g) u = absurd (ground arith)
granted-sent id n ds abandoned (inr g) u = absurd (ground arith)
granted-sent id n ds empty (inl g) u = absurd (ground arith)
granted-sent id n ds empty (inr g) u = absurd (ground arith)

-- In every run without a wrap of the ids, a call of `ask` that comes back with a yes gives its own
-- offer's id, and the user's acceptance of that very id was delivered before.
pub granted_only_if_accepted :
    (limit : ℕ) {ds : List (ℕ × Decision)} {s : Broker} (n id : ℕ) (a : Ask)
    → Run limit ds s
    → s.calls < 2 ^ 64 - 1
    → s.asks n ≡ some a
    → a.phase ≡ over (granted id)
    → (id ≡ a.id) × IsDelivered id accept ds
granted_only_if_accepted limit {ds} {s} n id a r c h p =
    let e = Run-Entry limit n a r c h in
    let (q, u) = granted-sent id n ds a.slot (subst (Agrees (n + 1) a.slot) p e.5) e.6 in
    (q ∙ sym e.1, subst (λ k. IsDelivered k accept ds) (sym q) u)

-- In every run without a wrap, a decision that was reported as delivered for a call's id decides
-- how the call ends, once it is over: as the decision says, unless its future was dropped.
pub delivered_answer_decides :
    (limit : ℕ) {ds : List (ℕ × Decision)} {s : Broker} (n : ℕ) (d : Decision) (o : Outcome)
    (a : Ask)
    → Run limit ds s
    → s.calls < 2 ^ 64 - 1
    → s.asks n ≡ some a
    → a.phase ≡ over o
    → IsDelivered a.id d ds
    → (o ≡ outcome_of a.id (some d)) ⊎ (o ≡ dropped)
delivered_answer_decides limit {ds} {s} n d o a r c h p u =
    let v = Run-Inv limit r c in
    let e = Run-Entry limit n a r c h in
    let q : a.slot ≡ sent d =
      sym (ap slot_at h) ∙ v.answered n d (subst (λ k. IsDelivered k d ds) e.1 u) in
    let w : Allowed (n + 1) (sent d) o =
      subst (λ x. Allowed (n + 1) x o) q (subst (Agrees (n + 1) a.slot) p e.5) in
    subst (λ k. (o ≡ outcome_of k (some d)) ⊎ (o ≡ dropped)) (sym e.1) w

-- In every run without a wrap, a call whose offer was shown was shown once, one that is over was
-- taken away once and is not in the queue, and one that is not over was not taken away.
pub every_offer_closes_once :
    (limit : ℕ) {ds : List (ℕ × Decision)} {s : Broker} (n : ℕ) (a : Ask)
    → Run limit ds s
    → s.calls < 2 ^ 64 - 1
    → s.asks n ≡ some a
    → (shows a.id s.log ≡ (if is_queued a.phase then 0 else 1))
      × (closes a.id s.log ≡ (if is_over a.phase then 1 else 0))
      × (is_over a.phase ≡ true → lookup a.id s.queue ≡ none)
every_offer_closes_once limit n a r c h =
    let e = Run-Entry limit n a r c h in rw e.1 (e.3, e.4, λ p. ground (arith, e.2))

Run-cap :
    (limit : ℕ) {ds : List (ℕ × Decision)} {s : Broker} → Run limit ds s → s.max_pending ≡ limit
unfolding with_limits
Run-cap limit start = refl
Run-cap limit (move r m) = (Move-Keeps m).cap ∙ Run-cap limit r
Run-cap limit (delivered {s = s} {t = t} id d r h) =
    (answer-Keeps s t id d true h).cap ∙ Run-cap limit r
Run-cap limit (ignored {s = s} {t = t} id d r h) =
    (answer-Keeps s t id d false h).cap ∙ Run-cap limit r

within_room :
    (limit : ℕ) {s t : Broker}
    → Keeps s t
    → s.max_pending ≡ limit
    → length s.queue ≤ limit
    → length t.queue ≤ limit
within_room limit k c h = ground (arith, k.room)

-- Whatever the calls, the answers and their order, at most `limit` offers wait at once.
pub queue_bounded :
    (limit : ℕ) {ds : List (ℕ × Decision)} {s : Broker} → Run limit ds s → length s.queue ≤ limit
unfolding with_limits
queue_bounded limit start = omega arith
queue_bounded limit (move r m) =
    within_room limit (Move-Keeps m) (Run-cap limit r) (queue_bounded limit r)
queue_bounded limit (delivered {s = s} {t = t} id d r h) =
    within_room limit (answer-Keeps s t id d true h) (Run-cap limit r) (queue_bounded limit r)
queue_bounded limit (ignored {s = s} {t = t} id d r h) =
    within_room limit (answer-Keeps s t id d false h) (Run-cap limit r) (queue_bounded limit r)

-- In every state that a run reaches and that is shut down, no offer waits.
pub shut_down_stays_empty :
    (limit : ℕ) {ds : List (ℕ × Decision)} {s : Broker}
    → Run limit ds s
    → s.is_shut_down ≡ true
    → s.queue ≡ []
unfolding with_limits
shut_down_stays_empty limit start h = refl
shut_down_stays_empty limit (move r m) h = (Move-Keeps m).shut (shut_down_stays_empty limit r) h
shut_down_stays_empty limit (delivered {s = s} {t = t} id d r e) h =
    (answer-Keeps s t id d true e).shut (shut_down_stays_empty limit r) h
shut_down_stays_empty limit (ignored {s = s} {t = t} id d r e) h =
    (answer-Keeps s t id d false e).shut (shut_down_stays_empty limit r) h
