-- ===== src/Transfers/Tests.antt =====
-- The theorems about the transfers of ctx.rs at concrete runs.
use sukkula.Base.{
  ℕ, ◌≡◌, ◌⊎◌, ◌≤◌, ◌<◌, ◌||◌, All, true, refl, false, List, [], ◌∷◌, codes, length, arith,
}
use sukkula.Base.Outcome.{ok, err}
use sukkula.Offer.{Protocol}
use sukkula.Api.{Event, Direction}
use sukkula.Transfers.{Transfers, cancelled, new_handle, throttle}
use sukkula.Transfers.Runs.{World, Call, new_world, run}
use sukkula.Transfers.Paired.{IsPaired, ended}
use sukkula.Transfers.Whole.{run-IsPaired}
use sukkula.Transfers.Progress.{progress_all}
use sukkula.Transfers.Reached.{run-IsReported}
use sukkula.Transfers.Callers.{Step, run as callers_run, new_callers, sum_added, is_in}

abbrev two : List Call
two =
    Call.beginning Direction.incoming Protocol.local_send (codes "Pekka") [] 10
    ∷ Call.beginning Direction.outgoing Protocol.croc (codes "Liisa") [] 20
    ∷ Call.progressing 1 10 5
    ∷ Call.progressing 1 0 6
    ∷ Call.cancelling 2
    ∷ Call.finishing 2 (err cancelled)
    ∷ Call.finishing 2 (ok [])
    ∷ Call.dropping 1
    ∷ []

abbrev after_two : World ℕ
after_two = run new_world two

two_events : length after_two.ctx.events ≡ 5
unfolding sukkula.Transfers.begin_views sukkula.Transfers.add_progress throttle
    sukkula.Transfers.cancel sukkula.Transfers.finish_with sukkula.Transfers.finish
    sukkula.Transfers.drop_handle
two_events = refl

two_ended : ended 2 after_two.ctx.events ≡ 1
unfolding sukkula.Transfers.begin_views sukkula.Transfers.add_progress throttle
    sukkula.Transfers.cancel sukkula.Transfers.finish_with sukkula.Transfers.finish
    sukkula.Transfers.drop_handle
two_ended = refl

run-IsPaired_example : IsPaired (length two) (run (new_world {X = ℕ}) two)
run-IsPaired_example = run-IsPaired ℕ two (omega arith)

abbrev idle : Transfers ℕ
idle = record { next = 1; active = []; is_shut_down = false; events = [] }

-- Chunks as they arrive, with their times.
abbrev chunks : List (ℕ × ℕ)
chunks = (10, 1000) ∷ (10, 1100) ∷ (0, 1200) ∷ (10, 1300) ∷ (30, 1301) ∷ (0, 2000) ∷ []

chunks_told :
    (progress_all idle (new_handle 1 60) chunks).0.events
    ≡ Event.transfer_progress 1 10 60
      ∷ Event.transfer_progress 1 30 60
      ∷ Event.transfer_progress 1 60 60
      ∷ []
unfolding sukkula.Transfers.add_progress throttle
chunks_told = refl

-- Two callers: the second raises the counter last and is told first.
abbrev overlapping : List Step
overlapping =
    Step.raising 6
    ∷ Step.raising 4
    ∷ Step.locking 0 1000
    ∷ Step.locking 0 1500
    ∷ Step.emitting 1
    ∷ Step.emitting 0
    ∷ []

overlapping_told : (callers_run (new_callers 1 10) overlapping).told ≡ 10 ∷ 6 ∷ []
unfolding throttle
overlapping_told = refl

run-IsReported_example :
    let w = callers_run (new_callers 1 10) overlapping in
    (w.handle.bytes ≡ sum_added overlapping)
    × All (λ c. c ≤ 10) w.told
    × ((sum_added overlapping ≡ 0)
        ⊎ (sum_added overlapping < 10)
        ⊎ ((is_in 10 w.raised || is_in 10 w.due || is_in 10 w.told) ≡ true))
run-IsReported_example = run-IsReported 1 10 overlapping (omega arith)
