-- ===== src/Tiles/Manhattan/Change.antt =====
-- src/tiles/tiles.cc: how the distances of all tiles change when one tile moves.
use pbnf.Base.{
  ℕ, zero, suc, ◌+◌, ◌%◌, ◌^◌, ◌≤◌, ◌<◌, ◌≡◌, ◌≢◌, List, [], ◌∷◌, arith, ◌==◌, if◌then◌else◌,
  length, set, get_or, length-set, get_or-set,
}
use pbnf.Tiles.Domain.{Tiles, child}
use pbnf.Tiles.Manhattan.{u32, u64, lookup_dist, full_loop, int_diff}

-- What a cell adds to the distance.
abbrev pub weigh : Tiles → ℕ → ℕ → ℕ
weigh d x i = if x == 0 then 0 else lookup_dist d x i

-- The distance of the cells from `i` on, as a number.
unfoldable pub dist_sum : Tiles → List ℕ → ℕ → ℕ
dist_sum d [] i = 0
dist_sum d (x ∷ tiles) i = weigh d x i + dist_sum d tiles (suc i)

pub dist_sum-set :
    (d : Tiles) (tiles : List ℕ) (i k v : ℕ)
    → k < length tiles
    → dist_sum d (set tiles k v) i + weigh d (get_or tiles k 0) (i + k)
      ≡ dist_sum d tiles i + weigh d v (i + k)
unfolding dist_sum get_or
dist_sum-set d [] i k v h = absurd (omega arith)
dist_sum-set d (x ∷ tiles) i zero v h = let e : i + 0 ≡ i = omega arith in rw e (omega arith)
dist_sum-set d (x ∷ tiles) i (suc k) v h =
    let e : i + suc k ≡ suc i + k = omega arith in
    rw e (omega (arith, dist_sum-set d tiles (suc i) k v (omega arith)))

pub weigh-le-dist_sum :
    (d : Tiles) (tiles : List ℕ) (i k : ℕ)
    → k < length tiles
    → weigh d (get_or tiles k 0) (i + k) ≤ dist_sum d tiles i
unfolding dist_sum get_or
weigh-le-dist_sum d [] i k h = absurd (omega arith)
weigh-le-dist_sum d (x ∷ tiles) i zero h = let e : i + 0 ≡ i = omega arith in rw e (omega arith)
weigh-le-dist_sum d (x ∷ tiles) i (suc k) h =
    let e : i + suc k ≡ suc i + k = omega arith in
    rw e (omega (arith, weigh-le-dist_sum d tiles (suc i) k (omega arith)))

pub full_loop-dist_sum :
    (d : Tiles) (tiles : List ℕ) (i dist : ℕ)
    → dist + dist_sum d tiles i < u32
    → full_loop d tiles i dist ≡ dist + dist_sum d tiles i
unfolding full_loop dist_sum
full_loop-dist_sum d [] i dist h = omega arith
full_loop-dist_sum d (x ∷ tiles) i dist h =
    let next : (if x == 0 then dist else (dist + lookup_dist d x i) % u32) ≡ dist + weigh d x i =
      ground (arith, h) in
    rw next
      (omega (arith, full_loop-dist_sum d tiles (suc i) (dist + weigh d x i) (omega (arith, h))))

-- The moved tile alone changes what it adds.
pub dist_sum-child :
    (d : Tiles) (tiles : List ℕ) (o n : ℕ)
    → o < length tiles
    → n < length tiles
    → o ≢ n
    → get_or tiles o 0 ≡ 0
    → dist_sum d (child tiles o n) 0 + weigh d (get_or tiles n 0) n
      ≡ dist_sum d tiles 0 + weigh d (get_or tiles n 0) o
unfolding child
dist_sum-child d tiles o n lo ln ne blank =
    let v = get_or tiles n 0 in
    let moved = set tiles o v in
    let eo : 0 + o ≡ o = omega arith in
    let en : 0 + n ≡ n = omega arith in
    let first = dist_sum-set d tiles 0 o v lo in
    let second = dist_sum-set d moved 0 n 0 (omega (arith, length-set tiles o v)) in
    let same : get_or moved n 0 ≡ v = ground (arith, get_or-set tiles o n v 0 lo, ne) in
    ground (arith, rw eo at first, rw (en, same) at second, blank)

-- A difference of ints is added to an `fp_type`.
pub int_diff-add :
    (s a b : ℕ) → a < 2 ^ 31 → b ≤ s → s < 2 ^ 31 → (s + int_diff a b) % u64 + b ≡ s + a
unfolding int_diff
int_diff-add s a b h k l = ground arith
