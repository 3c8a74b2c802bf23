-- ===== src/Tiles/Hash/Bits.antt =====
-- src/tiles/tiles_state.cc: the bit set of `compute_hash` as a set of numbers.
use pbnf.Base.{
  ℕ, zero, suc, ◌+◌, ◌*◌, ◌/◌, ◌%◌, ◌≤◌, ◌≡◌, refl, ◌∙◌, Bool, true, false, arith, ◌==◌,
  if◌then◌else◌, to_nat, tally_below,
}
use pbnf.Tiles.Hash.{low_bits, or_bit, ones_loop, ones}

pub bit : ℕ → ℕ → Bool
bit v zero = v % 2 == 1
bit v (suc i) = bit (v / 2) i

pub bit-or_bit : (v k i : ℕ) → bit (or_bit v k) i ≡ (if k == i then true else bit v i)
unfolding bit or_bit
bit-or_bit v zero zero = ground arith
bit-or_bit v zero (suc i) =
    let e : (if v % 2 == 0 then v + 1 else v) / 2 ≡ v / 2 = ground arith in rw e (ground arith)
bit-or_bit v (suc k) zero = ground arith
bit-or_bit v (suc k) (suc i) =
    let e : (v % 2 + 2 * or_bit (v / 2) k) / 2 ≡ or_bit (v / 2) k = omega arith in
    rw e (ground (arith, bit-or_bit (v / 2) k i))

pub bit-zero : (i : ℕ) → bit 0 i ≡ false
unfolding bit
bit-zero zero = refl
bit-zero (suc i) = bit-zero i

-- The bits of `v` below `k`, counted from the lowest.
tally_bits : ℕ → ℕ → ℕ
tally_bits zero v = 0
tally_bits (suc k) v = v % 2 + tally_bits k (v / 2)

tally_bits-suc : (k v : ℕ) → tally_bits (suc k) v ≡ tally_bits k v + to_nat (bit v k)
unfolding tally_bits bit
tally_bits-suc zero v = ground arith
tally_bits-suc (suc k) v = ground (arith, tally_bits-suc k (v / 2))

tally_bits-tally_below : (k v : ℕ) → tally_bits k v ≡ tally_below k (bit v)
unfolding tally_bits tally_below
tally_bits-tally_below zero v = refl
tally_bits-tally_below (suc k) v = tally_bits-suc k v ∙ omega (arith, tally_bits-tally_below k v)

tally_bits-zero : (k v : ℕ) → low_bits v k ≡ 0 → tally_bits k v ≡ 0
unfolding tally_bits low_bits
tally_bits-zero zero v h = refl
tally_bits-zero (suc k) v h = omega (arith, tally_bits-zero k (v / 2) (omega arith))

ones_loop-low_bits :
    (f k v b : ℕ) → low_bits v k ≤ f → ones_loop f (low_bits v k) b ≡ b + tally_bits k v
unfolding ones_loop
ones_loop-low_bits zero k v b h = omega (arith, tally_bits-zero k v (omega arith))
ones_loop-low_bits (suc f) zero v b h = unfold low_bits tally_bits in omega arith
ones_loop-low_bits (suc f) (suc k) v b h =
    let low : low_bits v (suc k) ≡ v % 2 + 2 * low_bits (v / 2) k = unfold low_bits in refl in
    let half : low_bits v (suc k) / 2 ≡ low_bits (v / 2) k = omega (arith, low) in
    let parity : low_bits v (suc k) % 2 ≡ v % 2 = omega (arith, low) in
    let count : tally_bits (suc k) v ≡ v % 2 + tally_bits k (v / 2) = unfold tally_bits in refl in
    rw (half, parity)
      (ground (
        arith,
        count,
        tally_bits-zero (suc k) v,
        ones_loop-low_bits f k (v / 2) (b + v % 2) (omega (arith, low)),
      ))

-- `ones[mask & bits]` is the number of elements of the set below `k`.
pub ones-low_bits : (v k : ℕ) → ones (low_bits v k) ≡ tally_below k (bit v)
unfolding ones
ones-low_bits v k =
    omega (arith, ones_loop-low_bits (low_bits v k) k v 0 (omega arith), tally_bits-tally_below k v)
