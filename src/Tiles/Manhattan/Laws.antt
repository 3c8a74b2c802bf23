-- ===== src/Tiles/Manhattan/Laws.antt =====
-- src/tiles/tiles.cc: the incremental distance is the full one, and it is consistent.
use pbnf.Base.{
  ℕ, ◌+◌, ◌*◌, ◌/◌, ◌%◌, ◌^◌, ◌≤◌, ◌<◌, ◌≡◌, ◌≢◌, ◌∙◌, inl, inr, List, arith, get_or, some,
}
use native.Mathlib.Nat.{mul-le-mul_right}
use pbnf.Tiles.Cells.{IsStep, IsStep_symm}
use pbnf.Tiles.Domain.{Tiles, TilesState, size, child}
use pbnf.Tiles.Hash.Laws.{IsPermutation}
use pbnf.Tiles.Manhattan.{
  u32, abs_diff, goal_pos, entry, lookup_dist, compute_full, compute_incr, compute,
}
use pbnf.Tiles.Manhattan.Table.{lookup_dist-entry}
use pbnf.Tiles.Manhattan.Change.{
  dist_sum, weigh-le-dist_sum, full_loop-dist_sum, dist_sum-child, int_diff-add,
}

module _ (d : Tiles) where
  -- A parent and the cell to which its blank moves; the distances of the parent and of the child
  -- are below the range of an int.
  pub record IsMove (p : TilesState) (n : ℕ) : Type 0 where
    pub cells : IsPermutation (size d) p.tiles
    pub blank_inside : p.blank < size d
    pub inside : n < size d
    pub moved : p.blank ≢ n
    pub blank_at : get_or p.tiles p.blank 0 ≡ 0
    pub room : dist_sum d p.tiles 0 < 2 ^ 31
    pub child_room : dist_sum d (child p.tiles p.blank n) 0 < 2 ^ 31

  compute_full-dist_sum :
      (tiles : List ℕ) → dist_sum d tiles 0 < u32 → compute_full d tiles ≡ dist_sum d tiles 0
  unfolding compute_full
  compute_full-dist_sum tiles h = omega (arith, full_loop-dist_sum d tiles 0 0 (omega (arith, h)))

  module _ (p : TilesState) (n : ℕ) (m : IsMove p n) where
    abbrev tile : ℕ
    tile = get_or p.tiles n 0

    tile_pos : 0 < tile
    tile_pos =
        ground (arith, m.blank_at, m.moved, m.cells.distinct p.blank n m.blank_inside m.inside)

    change :
        dist_sum d (child p.tiles p.blank n) 0 + lookup_dist d tile n
        ≡ dist_sum d p.tiles 0 + lookup_dist d tile p.blank
    change =
        let sums =
          dist_sum-child d p.tiles p.blank n (omega (arith, m.cells.cells, m.blank_inside))
            (omega (arith, m.cells.cells, m.inside)) m.moved m.blank_at in
        ground (arith, sums, tile_pos)

    old-le : lookup_dist d tile n ≤ dist_sum d p.tiles 0
    old-le =
        let e : 0 + n ≡ n = omega arith in
        let le = weigh-le-dist_sum d p.tiles 0 n (omega (arith, m.cells.cells, m.inside)) in
        ground (arith, rw e at le, tile_pos)

    -- Where the parent's h is its full Manhattan distance, the incremental distance of a child is
    -- the full distance of the child, also where it is less and the difference of ints is
    -- negative.
    pub compute_incr-compute_full :
        p.h ≡ compute_full d p.tiles
        → compute d (some p) (child p.tiles p.blank n) n ≡ compute_full d (child p.tiles p.blank n)
    unfolding compute compute_incr
    compute_incr-compute_full h =
        let full = compute_full-dist_sum p.tiles (omega (arith, m.room)) in
        let next = compute_full-dist_sum (child p.tiles p.blank n) (omega (arith, m.child_room)) in
        let up : lookup_dist d tile p.blank < 2 ^ 31 =
          omega (arith, change, old-le, m.child_room) in
        let sum =
          int_diff-add (dist_sum d p.tiles 0) (lookup_dist d tile p.blank) (lookup_dist d tile n) up
            old-le m.room in
        rw (h, full, next) (omega (arith, sum, change))

-- The distance of a cell from the goal cell of a tile, in moves.
abbrev pub moves : Tiles → ℕ → ℕ → ℕ
moves d tile pos =
    let at = goal_pos d.goal tile 0 in
    abs_diff (at % d.width) (pos % d.width) + abs_diff (at / d.width) (pos / d.width)

moves-step : (d : Tiles) (tile a b : ℕ) → IsStep d.width a b → moves d tile a ≤ moves d tile b + 1
moves-step d tile a b (inl (same, inl e)) = ground (arith, same, e)
moves-step d tile a b (inl (same, inr e)) = ground (arith, same, e)
moves-step d tile a b (inr (same, inl e)) = ground (arith, same, e)
moves-step d tile a b (inr (same, inr e)) = ground (arith, same, e)

lookup_dist-moves :
    (d : Tiles) (tile pos : ℕ)
    → 0 < tile
    → tile < size d
    → pos < size d
    → moves d tile pos * d.cost tile < u32
    → lookup_dist d tile pos ≡ moves d tile pos * d.cost tile
lookup_dist-moves d tile pos h lt inside fits =
    lookup_dist-entry d tile pos h lt inside ∙ (unfold entry in omega (arith, fits))

scaled : (a b c : ℕ) → a ≤ b + 1 → a * c ≤ b * c + c
scaled a b c h = omega (arith, mul-le-mul_right c h)

module _ (d : Tiles) (p : TilesState) (n : ℕ) (m : IsMove d p n) where
  -- A move to a neighbouring cell changes the Manhattan distance by at most what the move costs,
  -- where no entry of the table overflows: the heuristic is consistent, and f never falls along
  -- a path.
  pub compute_consistent :
      IsStep d.width p.blank n
      → ((pos : ℕ)
          → pos < size d
          → moves d (get_or p.tiles n 0) pos * d.cost (get_or p.tiles n 0) < u32)
      → p.h ≡ compute_full d p.tiles
      → (p.h ≤ d.cost (get_or p.tiles n 0) + compute d (some p) (child p.tiles p.blank n) n)
        × (compute d (some p) (child p.tiles p.blank n) n ≤ p.h + d.cost (get_or p.tiles n 0))
  compute_consistent step fits h =
      let tile = get_or p.tiles n 0 in
      let pos = tile_pos d p n m in
      let lt = m.cells.below n m.inside in
      let old = lookup_dist-moves d tile n pos lt m.inside (fits n m.inside) in
      let new =
        lookup_dist-moves d tile p.blank pos lt m.blank_inside (fits p.blank m.blank_inside) in
      let up = scaled _ _ (d.cost tile) (moves-step d tile p.blank n step) in
      let down =
        scaled _ _ (d.cost tile)
          (moves-step d tile n p.blank (IsStep_symm d.width p.blank n step)) in
      let full = compute_full-dist_sum d p.tiles (omega (arith, m.room)) in
      let next = compute_full-dist_sum d (child p.tiles p.blank n) (omega (arith, m.child_room)) in
      let incr = compute_incr-compute_full d p n m h in
      let sums = change d p n m in
      rw (incr, next, h, full)
        (omega (arith, sums, old, new, up, down), omega (arith, sums, old, new, up, down))
