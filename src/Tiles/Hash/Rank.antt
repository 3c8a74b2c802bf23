-- ===== src/Tiles/Hash/Rank.antt =====
-- The rank of a permutation: what `compute_hash` of src/tiles/tiles_state.cc adds up, without
-- machine words.
use pbnf.Base.{
  ℕ, zero, suc, ◌+◌, ◌-◌, ◌*◌, ◌≤◌, ◌<◌, ◌≡◌, refl, ap, Bool, true, false, not, List, arith, get_or,
  put, tally_below, tally_below-put, to_nat,
}
use native.Mathlib.Decide.{dec_lt, ℕ_discrete}

-- How many numbers below `k` are not in the set.
abbrev pub unseen : ℕ → (ℕ → Bool) → ℕ
unseen k s = tally_below k (λ x. not (s x))

pub unseen-suc : (k : ℕ) (s : ℕ → Bool) → unseen (suc k) s ≡ unseen k s + to_nat (not (s k))
unfolding tally_below
unseen-suc k s = refl

unseen-add : (k m : ℕ) (s : ℕ → Bool) → unseen k s ≤ unseen (k + m) s
unseen-add k zero s = let e : k + 0 ≡ k = omega arith in rw e (omega arith)
unseen-add k (suc m) s =
    let e : k + suc m ≡ suc (k + m) = omega arith in
    rw e (omega (arith, unseen-add k m s, unseen-suc (k + m) s))

pub unseen_mono : (k m : ℕ) (s : ℕ → Bool) → k ≤ m → unseen k s ≤ unseen m s
unseen_mono k m s h = let e : k + (m - k) ≡ m = omega arith in rw e at (unseen-add k (m - k) s)

pub tally_below-unseen : (k : ℕ) (s : ℕ → Bool) → tally_below k s + unseen k s ≡ k
unfolding tally_below
tally_below-unseen zero s = refl
tally_below-unseen (suc k) s = ground (arith, tally_below-unseen k s)

-- Two numbers outside the set that have as many such numbers below them are one number.
pub unseen_inj :
    (k m : ℕ) (s : ℕ → Bool) → s k ≡ false → s m ≡ false → unseen k s ≡ unseen m s → k ≡ m
unseen_inj k m s p q e = elim (dec_lt k m) [
  | yes less ↦ absurd (ground (arith, unseen_mono (suc k) m s (omega arith), unseen-suc k s, p, e))
  | no ge ↦ elim (dec_lt m k) [
    | yes more ↦
        absurd (ground (arith, unseen_mono (suc m) k s (omega arith), unseen-suc m s, q, e))
    | no le ↦ omega arith
  ]
]

unfoldable pub factorial : ℕ → ℕ
factorial zero = 1
factorial (suc i) = factorial i * suc i

pub factorial_pos : (i : ℕ) → 0 < factorial i
unfolding factorial
factorial_pos zero = omega arith
factorial_pos (suc i) = grind (arith, factorial_pos i)

-- What the cells below `i` add, where `s` holds the contents of the others.
unfoldable pub rank : List ℕ → ℕ → (ℕ → Bool) → ℕ
rank tiles zero s = 0
rank tiles (suc i) s =
    let k = get_or tiles i 0 in unseen k s * factorial i + rank tiles i (put s k true)

-- The cells below `i` hold different numbers below `n` that are not in `s`, and all such numbers.
pub record IsRest (n : ℕ) (tiles : List ℕ) (i : ℕ) (s : ℕ → Bool) : Type 0 where
  pub below : (j : ℕ) → j < i → get_or tiles j 0 < n
  pub fresh : (j : ℕ) → j < i → s (get_or tiles j 0) ≡ false
  pub distinct : (j k : ℕ) → j < i → k < i → get_or tiles j 0 ≡ get_or tiles k 0 → j ≡ k
  pub count : unseen n s ≡ i

module _ (n : ℕ) (tiles : List ℕ) (i : ℕ) (s : ℕ → Bool) (r : IsRest n tiles (suc i) s) where
  abbrev top : ℕ
  top = get_or tiles i 0

  -- The digit of a cell is at most its index.
  pub unseen-le : unseen (get_or tiles i 0) s ≤ i
  unseen-le = ground (
    arith,
    r.fresh i,
    r.count,
    unseen-suc top s,
    unseen_mono (suc top) n s (r.below i (omega arith)),
  )

  pub IsRest-put : IsRest n tiles i (put s (get_or tiles i 0) true)
  IsRest-put = record {
    below = λ j h. r.below j (omega arith);
    fresh = λ j h. ground (arith, r.fresh j, r.distinct i j (omega arith) (omega arith));
    distinct = λ j k h l e. r.distinct j k (omega arith) (omega arith) e;
    count =
        let change =
          tally_below-put n (λ x. not (s x)) (λ x. not (put s top true x)) top
            (r.below i (omega arith)) (λ j l ne. ground (arith, ne)) in
        ground (arith, change, r.count, r.fresh i);
  }

pub rank-lt :
    (n : ℕ) (tiles : List ℕ) (i : ℕ) (s : ℕ → Bool)
    → IsRest n tiles i s
    → rank tiles i s < factorial i
unfolding rank factorial
rank-lt n tiles zero s r = omega arith
rank-lt n tiles (suc i) s r = grind (
  arith,
  unseen-le n tiles i s r,
  rank-lt n tiles i (put s (get_or tiles i 0) true) (IsRest-put n tiles i s r),
)

digits_inj : (a b x y f : ℕ) → x < f → y < f → a * f + x ≡ b * f + y → (a ≡ b) × (x ≡ y)
digits_inj a b x y f p q e = (same, omega (arith, ap (λ (t : ℕ). t * f) same))
  where
    same : a ≡ b
    same = grind arith

-- Lists of equal rank are equal, cell by cell.
pub rank_inj :
    (n : ℕ) (a b : List ℕ) (i : ℕ) (s : ℕ → Bool)
    → IsRest n a i s
    → IsRest n b i s
    → rank a i s ≡ rank b i s
    → (j : ℕ) → j < i
    → get_or a j 0 ≡ get_or b j 0
unfolding rank
rank_inj n a b zero s p q e j lt = absurd (omega arith)
rank_inj n a b (suc i) s p q e j lt =
    let ra = IsRest-put n a i s p in
    let rb = IsRest-put n b i s q in
    let parts =
      digits_inj (unseen (get_or a i 0) s) (unseen (get_or b i 0) s) _ _ (factorial i)
        (rank-lt n a i (put s (get_or a i 0) true) ra)
        (rank-lt n b i (put s (get_or b i 0) true) rb) e in
    let top : get_or a i 0 ≡ get_or b i 0 =
      unseen_inj (get_or a i 0) (get_or b i 0) s (p.fresh i (omega arith)) (q.fresh i (omega arith))
        parts.0 in
    elim (ℕ_discrete j i) [
      | yes last ↦ rw last top
      | no earlier ↦
          rank_inj n a b i (put s (get_or b i 0) true) (rw top at ra) rb (rw top at parts.1) j
            (omega arith)
    ]
