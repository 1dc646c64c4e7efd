-- ===== src/Xxh64.antt =====
-- crates/sukkula-engine/src/croc/xxh64.rs: a running XXH64.
pub mod Tests
use Prim.Native.Nat.{bit_xor}
use sukkula.Base.{
  ℕ, zero, suc, ◌+◌, ◌-◌, ◌*◌, ◌/◌, ◌%◌, ◌^◌, List, [], ◌∷◌, ◌++◌, ltb, leb, ◌==◌, if◌then◌else◌,
  length, take, drop, min,
}

abbrev w64 : ℕ → ℕ
w64 n = n % 2 ^ 64

abbrev p1 : ℕ
p1 = 11400714785074694791

abbrev p2 : ℕ
p2 = 14029467366897019727

abbrev p3 : ℕ
p3 = 1609587929392839161

abbrev p4 : ℕ
p4 = 9650029242287828579

abbrev p5 : ℕ
p5 = 2870177450012600261

abbrev rotate_left : ℕ → ℕ → ℕ
rotate_left x n = w64 (x * 2 ^ n) + x / 2 ^ (64 - n)

round : ℕ → ℕ → ℕ
round acc lane = w64 (rotate_left (w64 (acc + w64 (lane * p2))) 31 * p1)

merge : ℕ → ℕ → ℕ
unfolding round
merge acc v = w64 (w64 (bit_xor acc (round 0 v) * p1) + p4)

-- `u64::from_le_bytes` of at most eight bytes.
le_bytes : List ℕ → ℕ
le_bytes [] = 0
le_bytes (b ∷ bs) = b + 256 * le_bytes bs

lane : List ℕ → ℕ
unfolding le_bytes
lane bytes = le_bytes (take 8 bytes)

-- `v` is the array of four, `buf` the bytes held, of which there are `held`.
pub record Xxh64 : Type 0 where
  pub v1 : ℕ
  pub v2 : ℕ
  pub v3 : ℕ
  pub v4 : ℕ
  pub buf : List ℕ
  pub total : ℕ

abbrev pub default : Xxh64
default = record { v1 = w64 (p1 + p2); v2 = p2; v3 = 0; v4 = 2 ^ 64 - p1; buf = []; total = 0 }

stripe : Xxh64 → List ℕ → Xxh64
unfolding round lane
stripe s bytes = record s {
  v1 = round s.v1 (lane bytes);
  v2 = round s.v2 (lane (drop 8 bytes));
  v3 = round s.v3 (lane (drop 16 bytes));
  v4 = round s.v4 (lane (drop 24 bytes));
}

-- The loop over `chunks_exact(32)`, with its remainder kept.
stripes : ℕ → Xxh64 → List ℕ → Xxh64
unfolding stripe
stripes zero s input = record s { buf = input }
stripes (suc fuel) s input =
    let more = stripes fuel (stripe s (take 32 input)) (drop 32 input) in
    if ltb (length input) 32 then record s { buf = input } else more

-- `update` after the count: what is held is filled up first.
fill : Xxh64 → List ℕ → Xxh64
unfolding stripe stripes
fill s input =
    if length s.buf == 0
    then stripes (length input) s input
    else (let held = s.buf ++ take (32 - length s.buf) input in
        let rest = drop (32 - length s.buf) input in
        if ltb (length held) 32
        then record s { buf = held }
        else stripes (length rest) (stripe s held) rest)

unfoldable pub update : Xxh64 → List ℕ → Xxh64
unfolding fill
update s input = fill (record s { total = w64 (s.total + length input) }) input

finish_start : Xxh64 → ℕ
unfolding merge
finish_start s =
    if leb 32 s.total
    then (let h =
          w64
            (rotate_left s.v1 1 + rotate_left s.v2 7 + rotate_left s.v3 12 + rotate_left s.v4 18) in
        merge (merge (merge (merge h s.v1) s.v2) s.v3) s.v4)
    else p5

finish_bytes : ℕ → List ℕ → ℕ
finish_bytes h [] = h
finish_bytes h (b ∷ bs) = finish_bytes (w64 (rotate_left (bit_xor h (w64 (b * p5))) 11 * p1)) bs

finish_four : ℕ → List ℕ → ℕ
unfolding finish_bytes lane
finish_four h rest =
    if ltb (length rest) 4
    then finish_bytes h rest
    else finish_bytes
        (w64 (w64 (rotate_left (bit_xor h (w64 (lane (take 4 rest) * p1))) 23 * p2) + p3))
        (drop 4 rest)

-- At most three rounds: fewer than 32 bytes are held.
finish_eights : ℕ → ℕ → List ℕ → ℕ
unfolding finish_four round lane
finish_eights zero h rest = finish_four h rest
finish_eights (suc fuel) h rest =
    let h' = w64 (w64 (rotate_left (bit_xor h (round 0 (lane (take 8 rest)))) 27 * p1) + p4) in
    let more = finish_eights fuel h' (drop 8 rest) in
    if ltb (length rest) 8 then finish_four h rest else more

abbrev shift_mix : ℕ → ℕ → ℕ
shift_mix h n = bit_xor h (h / 2 ^ n)

avalanche : ℕ → ℕ
avalanche h = shift_mix (w64 (shift_mix (w64 (shift_mix h 33 * p2)) 29 * p3)) 32

-- `to_be_bytes`, of `n` bytes.
be_bytes : ℕ → ℕ → List ℕ
be_bytes zero h = []
be_bytes (suc n) h = be_bytes n (h / 256) ++ h % 256 ∷ []

unfoldable pub finish : Xxh64 → List ℕ
unfolding finish_start finish_eights avalanche be_bytes
finish s = be_bytes 8 (avalanche (finish_eights 3 (w64 (finish_start s + s.total)) s.buf))
