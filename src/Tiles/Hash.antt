-- ===== src/Tiles/Hash.antt =====
-- src/tiles/tiles_state.cc and the tables that src/tiles/tiles.cc builds for it: the hash of a
-- configuration, which ranks permutations.
pub mod Bits
pub mod Rank
pub mod Laws
use pbnf.Base.{
  ℕ, zero, suc, ◌+◌, ◌-◌, ◌*◌, ◌/◌, ◌%◌, ◌^◌, List, ◌==◌, if◌then◌else◌, length, get_or,
}

abbrev pub word : ℕ
word = 2 ^ 64

-- `mask & bits` for the mask of the lowest `k` bits, `~((~0) << k)`
pub low_bits : ℕ → ℕ → ℕ
low_bits v zero = 0
low_bits v (suc k) = v % 2 + 2 * low_bits (v / 2) k

-- `bits | (1 << k)`
pub or_bit : ℕ → ℕ → ℕ
or_bit v zero = if v % 2 == 0 then v + 1 else v
or_bit v (suc k) = v % 2 + 2 * or_bit (v / 2) k

-- The loop that counts the bits of an entry of `ones`: `j` halves, so `j` rounds are enough.
pub ones_loop : ℕ → ℕ → ℕ → ℕ
ones_loop zero j bits = bits
ones_loop (suc f) j bits =
    let rest = ones_loop f (j / 2) (bits + j % 2) in if j == 0 then bits else rest

-- `ones[v]`
pub ones : ℕ → ℕ
ones v = ones_loop v v 0

-- `fact_ary[i]`
pub fact_ary : ℕ → ℕ
fact_ary zero = 1
fact_ary (suc i) = fact_ary i * suc i % word

-- The rounds of `compute_hash` for the indices below `i`, from the last on.
pub hash_loop : List ℕ → ℕ → ℕ → ℕ → ℕ
hash_loop tiles zero bits hash_val = hash_val
hash_loop tiles (suc i) bits hash_val =
    let k = get_or tiles i 0 in
    let d = (k + word - ones (low_bits bits k)) % word in
    hash_loop tiles i (or_bit bits k) ((hash_val + d * fact_ary i) % word)

unfoldable pub compute_hash : List ℕ → ℕ
compute_hash tiles = hash_loop tiles (length tiles) 0 0
