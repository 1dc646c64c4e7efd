-- ===== src/Slots/Bounds.antt =====
-- However the turns of slots.rs interleave, the slots are never more than there are.
use sukkula.Base.{ℕ, ◌+◌, ◌≤◌, ◌≡◌, Bool, true, List, [], ◌∷◌, arith}
use sukkula.Slots.{Turn, returned, take_turn, give_turn}

-- A turn of some task: of `take` or of `give_back`, with the value it has read, right or stale.
pub data Event : Type 0 where
  taking giving : ℕ → Bool → Event

abbrev pub gained : Turn → ℕ
gained (returned true) = 1
gained _ = 0

-- The counter after some turns, the slots taken in them and the slots given back.
pub record Tally : Type 0 where
  pub count : ℕ
  pub takes : ℕ
  pub gives : ℕ

pub tally : ℕ → List Event → Tally → Tally
tally slots [] t = t
tally slots (taking n w ∷ es) t =
    let r = take_turn slots n w t.count in
    tally slots es (record t { count = r.0; takes = t.takes + gained r.1 })
tally slots (giving n w ∷ es) t =
    let r = give_turn n w t.count in
    tally slots es (record t { count = r.0; gives = t.gives + gained r.1 })

pub record IsTallied (slots : ℕ) (t : Tally) : Type 0 where
  pub within : t.count ≤ slots
  pub balance : t.count + t.gives ≡ t.takes

take_turn-IsTallied :
    (slots n : ℕ) (w : Bool) (t : Tally)
    → IsTallied slots t
    → IsTallied slots (record t {
      count = (take_turn slots n w t.count).0;
      takes = t.takes + gained ((take_turn slots n w t.count).1);
    })
unfolding take_turn
take_turn-IsTallied slots n w t v = record {
  within = ground (arith, v.within);
  balance = ground (arith, v.balance);
}

give_turn-IsTallied :
    (slots n : ℕ) (w : Bool) (t : Tally)
    → IsTallied slots t
    → IsTallied slots (record t {
      count = (give_turn n w t.count).0;
      gives = t.gives + gained ((give_turn n w t.count).1);
    })
unfolding give_turn
give_turn-IsTallied slots n w t v = record {
  within = ground (arith, v.within);
  balance = ground (arith, v.balance);
}

tally-keeps :
    (slots : ℕ) (es : List Event) (t : Tally)
    → IsTallied slots t
    → IsTallied slots (tally slots es t)
unfolding tally
tally-keeps slots [] t v = v
tally-keeps slots (taking n w ∷ es) t v = tally-keeps slots es _ (take_turn-IsTallied slots n w t v)
tally-keeps slots (giving n w ∷ es) t v = tally-keeps slots es _ (give_turn-IsTallied slots n w t v)

-- However turns of `take` and `give_back` of any tasks interleave, with whatever stale values and
-- spurious failures, the counter never exceeds the slots, and it is the number of slots taken less
-- the number given back.
pub tally-IsTallied :
    (slots : ℕ) (es : List Event)
    → IsTallied slots (tally slots es (record { count = 0; takes = 0; gives = 0 }))
tally-IsTallied slots es =
    tally-keeps slots es (record { count = 0; takes = 0; gives = 0 })
      (record { within = omega arith; balance = omega arith })
