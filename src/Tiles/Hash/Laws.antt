-- ===== src/Tiles/Hash/Laws.antt =====
-- src/tiles/tiles_state.cc: `compute_hash` tells the configurations of a puzzle apart.
use pbnf.Base.{
  ℕ, zero, suc, ◌+◌, ◌-◌, ◌*◌, ◌%◌, ◌≤◌, ◌<◌, ◌≡◌, refl, sym, ap, ◌∙◌, Bool, true, false, List, [],
  ◌∷◌, arith, length, get_or, put, tally_below, tally_below-congr, tally_below-always,
}
use mathlib.Core.Logic.{◌↔◌}
use pbnf.Tiles.Hash.{word, low_bits, or_bit, ones, fact_ary, hash_loop, compute_hash}
use pbnf.Tiles.Hash.Bits.{bit, bit-or_bit, bit-zero, ones-low_bits}
use pbnf.Tiles.Hash.Rank.{
  unseen, tally_below-unseen, factorial, factorial_pos, rank, IsRest, unseen-le, IsRest-put,
  rank-lt, rank_inj,
}

-- A configuration of `n` cells: each cell holds a number below `n`, and no two the same.
pub record IsPermutation (n : ℕ) (tiles : List ℕ) : Type 0 where
  pub cells : length tiles ≡ n
  pub below : (j : ℕ) → j < n → get_or tiles j 0 < n
  pub distinct : (j k : ℕ) → j < n → k < n → get_or tiles j 0 ≡ get_or tiles k 0 → j ≡ k

IsPermutation-IsRest :
    (n : ℕ) (tiles : List ℕ) → IsPermutation n tiles → IsRest n tiles n (λ x. false)
IsPermutation-IsRest n tiles p = record {
  below = p.below;
  fresh = λ j h. refl;
  distinct = p.distinct;
  count = tally_below-always n;
}

factorial-le-suc : (i : ℕ) → factorial i ≤ factorial (suc i)
unfolding factorial
factorial-le-suc i = grind arith

factorial-add : (i m : ℕ) → factorial i ≤ factorial (i + m)
factorial-add i zero = let e : i + 0 ≡ i = omega arith in rw e (omega arith)
factorial-add i (suc m) =
    let e : i + suc m ≡ suc (i + m) = omega arith in
    rw e (omega (arith, factorial-add i m, factorial-le-suc (i + m)))

factorial-20 : factorial 20 < word
unfolding factorial
factorial-20 = omega arith

-- A puzzle of up to 20 cells needs no factorial that a word does not hold.
factorial-lt-word : (i : ℕ) → i ≤ 20 → factorial i < word
factorial-lt-word i h =
    let e : i + (20 - i) ≡ 20 = omega arith in
    omega (arith, factorial-20, rw e at (factorial-add i (20 - i)))

fact_ary-factorial : (i : ℕ) → i ≤ 20 → fact_ary i ≡ factorial i
unfolding fact_ary
fact_ary-factorial zero h = unfold factorial in refl
fact_ary-factorial (suc i) h =
    let e : factorial (suc i) ≡ factorial i * suc i = unfold factorial in refl in
    let lt = factorial-lt-word (suc i) h in
    rw (fact_ary-factorial i (omega arith), ← e) (omega (arith, lt))

-- A round adds the digit of its cell, without overflow.
round :
    (u f h i g : ℕ)
    → u ≤ i
    → f * suc i ≡ g
    → 0 < f
    → h + g ≤ word
    → ((h + u * f) % word ≡ h + u * f) × (h + u * f + f ≤ word)
round u f h i g le e pos room = (omega (arith, fits, pos), fits)
  where
    fits : h + u * f + f ≤ word
    fits = grind arith

hash_loop-rank :
    (n : ℕ) (tiles : List ℕ) (i : ℕ) (s : ℕ → Bool) (bits h : ℕ)
    → IsRest n tiles i s
    → i ≤ 20
    → n ≤ 20
    → ((x : ℕ) → bit bits x ≡ s x)
    → h + factorial i ≤ word
    → hash_loop tiles i bits h ≡ h + rank tiles i s
unfolding hash_loop rank
hash_loop-rank n tiles zero s bits h r small few same room = omega arith
hash_loop-rank n tiles (suc i) s bits h r small few same room =
    let k = get_or tiles i 0 in
    let seen : ones (low_bits bits k) ≡ tally_below k s =
      ones-low_bits bits k ∙ tally_below-congr k (bit bits) s (λ x l. same x) in
    let le = unseen-le n tiles i s r in
    let lt = r.below i (omega arith) in
    let digit : (k + word - ones (low_bits bits k)) % word ≡ unseen k s =
      omega (arith, seen, tally_below-unseen k s, le, small) in
    let step : factorial i * suc i ≡ factorial (suc i) = unfold factorial in refl in
    let (fits, later) = round (unseen k s) (factorial i) h i _ le step (factorial_pos i) room in
    let rest =
      hash_loop-rank n tiles i (put s k true) (or_bit bits k) (h + unseen k s * factorial i)
        (IsRest-put n tiles i s r) (omega arith) few
        (λ x. bit-or_bit bits k x ∙ ground (arith, same x)) later in
    rw (digit, fact_ary-factorial i (omega arith), fits) (omega (arith, rest))

compute_hash-rank :
    (n : ℕ) (tiles : List ℕ)
    → IsPermutation n tiles
    → n ≤ 20
    → compute_hash tiles ≡ rank tiles n (λ x. false)
unfolding compute_hash
compute_hash-rank n tiles p small = rw p.cells (
    omega (
      arith,
      hash_loop-rank n tiles n (λ x. false) 0 0 (IsPermutation-IsRest n tiles p) small small
          bit-zero (omega (arith, factorial-lt-word n small)),
    ))

pub cells-eq :
    (a b : List ℕ)
    → length a ≡ length b
    → ((j : ℕ) → j < length a → get_or a j 0 ≡ get_or b j 0)
    → a ≡ b
unfolding get_or
cells-eq [] [] e h = refl
cells-eq [] (y ∷ b) e h = absurd (omega (arith, e))
cells-eq (x ∷ a) [] e h = absurd (omega (arith, e))
cells-eq (x ∷ a) (y ∷ b) e h =
    ground
      (arith, h 0 (omega arith), cells-eq a b (omega (arith, e)) (λ j l. h (suc j) (omega arith)))

-- On the configurations of a puzzle of at most 20 cells, no sum of `compute_hash` overflows: the
-- hash is below the factorial of the number of cells, and two configurations have one hash exactly
-- if they are one configuration.
pub compute_hash_inj :
    (n : ℕ) (a b : List ℕ)
    → n ≤ 20
    → IsPermutation n a
    → IsPermutation n b
    → (compute_hash a < factorial n) × ((compute_hash a ≡ compute_hash b) ↔ (a ≡ b))
compute_hash_inj n a b small p q =
    let ra = IsPermutation-IsRest n a p in
    let rb = IsPermutation-IsRest n b q in
    let ha = compute_hash-rank n a p small in
    (
      rw ha (rank-lt n a n (λ x. false) ra),
      (
        λ e. cells-eq a b (p.cells ∙ sym q.cells) (λ j l.
            rank_inj n a b n (λ x. false) ra rb (sym ha ∙ e ∙ compute_hash-rank n b q small) j
              (omega (arith, p.cells))),
        ap compute_hash,
      ),
    )
