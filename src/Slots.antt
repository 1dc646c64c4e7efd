-- ===== src/Slots.antt =====
-- crates/sukkula-engine/src/slots.rs: counted slots, taken and given back by many tasks at once.
pub mod Bounds
pub mod Tests
use sukkula.Base.{ℕ, ◌+◌, ◌-◌, Bool, true, false, not, ◌&&◌, leb, ◌==◌, if◌then◌else◌}

-- One turn of a loop over `compare_exchange_weak`: it returns, or goes on with another value of `n`.
pub data Turn : Type 0 where
  returned : Bool → Turn
  again : ℕ → Turn

-- The turn of `take` with the value `n` that it has read, where the counter is `count`. A weak
-- exchange may fail although the values are equal.
unfoldable pub take_turn : ℕ → ℕ → Bool → ℕ → ℕ × Turn
take_turn slots n is_spurious count =
    if leb slots n
    then (count, returned false)
    else if n == count && not is_spurious
    then (n + 1, returned true)
    else (count, again count)

-- The turn of `give_back`.
unfoldable pub give_turn : ℕ → Bool → ℕ → ℕ × Turn
give_turn n is_spurious count =
    if n == 0
    then (count, returned false)
    else if n == count && not is_spurious
    then (n - 1, returned true)
    else (count, again count)
