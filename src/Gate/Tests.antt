-- ===== src/Gate/Tests.antt =====
-- The theorems about the gate of hub.rs at concrete runs.
use sukkula.Base.{ℕ, ◌≡◌, refl, true, false, none, List, [], ◌∷◌, ◌++◌, codes, length}
use sukkula.Api.{Event, Outcome}
use sukkula.Gate.{Finish, GateState, fit}
use sukkula.Gate.Runs.{World, Step, new_world, run, step}
use sukkula.Gate.Order.{IsOrdered, is_over, hand_on}
use sukkula.Gate.Turns.{run-IsOrdered}
use sukkula.Gate.Bounds.{IsHeld}
use sukkula.Gate.Room.{run-IsHeld}
use sukkula.Gate.Ends.{run-discarded}
use sukkula.Gate.Drains.{run-drained, deliveries}

-- The other events are numbers, and as long as their number.
abbrev json_len : Event ℕ → ℕ
json_len (Event.other n) = n
json_len (Event.reply id is_ok error transfer) = 100
json_len (Event.transfer_started v) = 100
json_len (Event.transfer_progress id bytes total) = 100
json_len (Event.transfer_finished id outcome []) = 100
json_len (Event.transfer_finished id outcome (name ∷ names)) = 300000

abbrev three : List (Step ℕ)
three =
    Step.pushing (Event.other 5) false false
    ∷ Step.pushing (Event.reply 7 true none none) true false
    ∷ Step.turning
    ∷ Step.calling
    ∷ Step.pushing (Event.other 300000) false false
    ∷ Step.pushing (Event.other 6) false false
    ∷ Step.closing Finish.drain
    ∷ Step.pushing (Event.other 8) false false
    ∷ []

abbrev after_three : World ℕ
after_three = run json_len new_world three

three_taken : after_three.taken ≡ Event.other 5 ∷ Event.reply 7 true none none ∷ Event.other 6 ∷ []
unfolding fit sukkula.Gate.push_turn sukkula.Gate.close sukkula.Gate.next
three_taken = refl

three_sent : after_three.sent ≡ Event.other 5 ∷ []
unfolding fit sukkula.Gate.push_turn sukkula.Gate.close sukkula.Gate.next
three_sent = refl

report_cut :
    length (
      (run json_len new_world (
        Step.pushing (Event.transfer_finished 3 Outcome.done (codes "a" ∷ [])) false false
        ∷ [])).taken)
    ≡ 1
unfolding fit sukkula.Gate.push_turn sukkula.Gate.close sukkula.Gate.next
report_cut = refl

run-IsOrdered_example : IsOrdered after_three
run-IsOrdered_example = run-IsOrdered json_len three

run-IsHeld_example : IsHeld after_three
run-IsHeld_example = run-IsHeld json_len three refl

-- The thread holds the second event when the gate is closed.
abbrev in_hand : World ℕ
in_hand = run json_len after_three (Step.returning ∷ Step.turning ∷ [])

run-discarded_example :
    let w' =
      run json_len
        (step json_len in_hand (Step.closing Finish.discard))
        (Step.calling ∷ Step.returning ∷ Step.turning ∷ []) in
    w'.sent ++ hand_on w'.thread [] ≡ in_hand.sent ++ hand_on in_hand.thread []
run-discarded_example =
    run-discarded json_len in_hand (Step.calling ∷ Step.returning ∷ Step.turning ∷ [])

three_state : after_three.q.state ≡ GateState.draining
unfolding fit sukkula.Gate.push_turn sukkula.Gate.close sukkula.Gate.next
three_state = refl

three_thread : is_over after_three.thread ≡ false
unfolding fit sukkula.Gate.push_turn sukkula.Gate.close sukkula.Gate.next
three_thread = refl

run-drained_example :
    let w = after_three in
    let w' = run json_len w (Step.calling ∷ Step.returning ∷ deliveries (length w.q.items)) in
    (w'.sent ≡ w.taken) × (w'.q.is_finished ≡ true)
run-drained_example = run-drained json_len three three_state three_thread
