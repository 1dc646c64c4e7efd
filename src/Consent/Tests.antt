-- ===== src/Consent/Tests.antt =====
-- The theorems about consent.rs at concrete runs.
use sukkula.Base.{
  ℕ, ◌≤◌, ◌<◌, ◌^◌, ◌-◌, ◌≡◌, ◌⊎◌, inl, refl, true, some, none, [], ◌∷◌, arith, length,
}
use sukkula.Consent.{
  accept, granted, dropped, outcome_of, Slot, empty, sent, Phase, queued, awaiting, over, Ask,
  Broker, lookup, with_limits, ask_begin, announce, answer, wake, shutdown, fresh_id,
}
use sukkula.Consent.Runs.{begin, show, hear, stop, Run, start, move, delivered, IsDelivered}
use sukkula.Consent.Entries.{shows, closes}
use sukkula.Consent.Fresh.{IsFresh, fresh_id-IsFresh}
use sukkula.Consent.Promises.{
  granted_only_if_accepted, delivered_answer_decides, every_offer_closes_once, queue_bounded,
  shut_down_stays_empty,
}

abbrev begun : Broker
begun = (ask_begin (with_limits 2)).0

abbrev ask_at : Slot → Phase → Ask
ask_at slot phase = record { id = 1; slot = slot; phase = phase }

abbrev shown : Broker
shown = announce begun 0 (ask_at empty queued)

abbrev answered : Broker
answered = (answer shown 1 accept).0

abbrev woken : Broker
woken = wake answered 0 (ask_at (sent accept) awaiting)

run : Run 2 ((1, accept) ∷ []) woken
unfolding with_limits ask_begin fresh_id announce answer wake
run =
    move
      (delivered 1 accept (move (move start begin) (show 0 (ask_at empty queued) refl refl)) refl)
      (hear 0 (ask_at (sent accept) awaiting) refl refl (λ e. ground arith))

one_call : woken.calls < 2 ^ 64 - 1
unfolding with_limits ask_begin fresh_id announce answer wake
one_call = omega arith

the_call : woken.asks 0 ≡ some (ask_at (sent accept) (over (granted 1)))
unfolding with_limits ask_begin fresh_id announce answer wake
the_call = refl

granted_only_if_accepted_example : ◌≡◌ {A = ℕ} 1 1 × IsDelivered 1 accept ((1, accept) ∷ [])
granted_only_if_accepted_example =
    granted_only_if_accepted 2 0 1 (ask_at (sent accept) (over (granted 1))) run one_call the_call
      refl

delivered_answer_decides_example : (granted 1 ≡ outcome_of 1 (some accept)) ⊎ (granted 1 ≡ dropped)
delivered_answer_decides_example =
    delivered_answer_decides 2 0 accept (granted 1) (ask_at (sent accept) (over (granted 1))) run
      one_call the_call refl (inl (refl, refl))

every_offer_closes_once_example :
    (shows 1 woken.log ≡ 1) × (closes 1 woken.log ≡ 1) × (true ≡ true → lookup 1 woken.queue ≡ none)
every_offer_closes_once_example =
    every_offer_closes_once 2 0 (ask_at (sent accept) (over (granted 1))) run one_call the_call

queue_bounded_example : length woken.queue ≤ 2
queue_bounded_example = queue_bounded 2 run

shut_down_stays_empty_example : (shutdown woken).queue ≡ []
shut_down_stays_empty_example = shut_down_stays_empty 2 (move run stop) (unfold shutdown in refl)

fresh_id-IsFresh_example : IsFresh (fresh_id shown) shown.queue
fresh_id-IsFresh_example =
    fresh_id-IsFresh shown (unfold with_limits ask_begin fresh_id announce in omega arith)
      (unfold with_limits ask_begin fresh_id announce in omega arith)
