-- ===== src/Slots/Tests.antt =====
-- The theorem about slots.rs at a concrete interleaving.
use sukkula.Base.{true, false, List, [], ◌∷◌}
use sukkula.Slots.Bounds.{Event, taking, giving, tally, IsTallied, tally-IsTallied}

-- Two tasks read zero; the second finds its value stale and tries again.
abbrev race : List Event
race =
    taking 0 false
    ∷ taking 0 false
    ∷ taking 1 false
    ∷ taking 2 false
    ∷ giving 2 true
    ∷ giving 2 false
    ∷ []

tally-IsTallied_example : IsTallied 2 (tally 2 race (record { count = 0; takes = 0; gives = 0 }))
tally-IsTallied_example = tally-IsTallied 2 race
