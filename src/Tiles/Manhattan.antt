-- ===== src/Tiles/Manhattan.antt =====
-- src/tiles/tiles.cc: `ManhattanDist`, its table and the two ways to compute it.
pub mod Table
pub mod Change
pub mod Laws
use pbnf.Base.{
  ℕ, zero, suc, ◌+◌, ◌-◌, ◌*◌, ◌/◌, ◌%◌, ◌^◌, List, [], ◌∷◌, ◌++◌, Option, none, some, ltb, ◌==◌,
  if◌then◌else◌, length, replicate, get_or,
}
use pbnf.Tiles.Domain.{Tiles, TilesState, size}

-- `unsigned int` and `fp_type`
abbrev pub u32 : ℕ
u32 = 2 ^ 32

abbrev pub u64 : ℕ
u64 = 2 ^ 64

-- `abs(a - b)`
abbrev pub abs_diff : ℕ → ℕ → ℕ
abs_diff a b = if ltb a b then b - a else a - b

-- The loop that looks for a tile in the goal, from the cell `pos` on.
unfoldable pub goal_pos : List ℕ → ℕ → ℕ → ℕ
goal_pos [] tile pos = pos
goal_pos (x ∷ goal) tile pos = if x == tile then pos else goal_pos goal tile (suc pos)

-- The distance of a cell from the goal cell of a tile, times the cost of the tile, as it stands
-- in the table of unsigned ints.
unfoldable pub entry : Tiles → ℕ → ℕ → ℕ
entry d tile pos =
    let at = goal_pos d.goal tile 0 in
    (abs_diff (at % d.width) (pos % d.width) + abs_diff (at / d.width) (pos / d.width))
    * d.cost tile
    % u32

-- `n` entries of a tile, from the cell `pos` on
unfoldable pub entries : Tiles → ℕ → ℕ → ℕ → List ℕ
entries d tile pos zero = []
entries d tile pos (suc n) = entry d tile pos ∷ entries d tile (suc pos) n

-- The entries of `n` tiles, from `tile` on; those of the blank stay zero.
unfoldable pub rows : Tiles → ℕ → ℕ → List ℕ
rows d tile zero = []
rows d tile (suc n) =
    (if tile == 0 then replicate (size d) 0 else entries d tile 0 (size d)) ++ rows d (suc tile) n

-- `init`
unfoldable pub table : Tiles → List ℕ
table d = rows d 0 (size d)

-- `lookup_dist`
unfoldable pub lookup_dist : Tiles → ℕ → ℕ → ℕ
lookup_dist d num pos = get_or (table d) (num * size d + pos) 0

-- The loop of `compute_full`, from the cell `i` on.
unfoldable pub full_loop : Tiles → List ℕ → ℕ → ℕ → ℕ
full_loop d [] i dist = dist
full_loop d (x ∷ tiles) i dist =
    full_loop d tiles (suc i) (if x == 0 then dist else (dist + lookup_dist d x i) % u32)

unfoldable pub compute_full : Tiles → List ℕ → ℕ
compute_full d tiles = full_loop d tiles 0 0

-- The difference of two ints, as it is added to an `fp_type`: a negative one is sign-extended.
unfoldable pub int_diff : ℕ → ℕ → ℕ
int_diff a b = let x = (a + u32 - b) % u32 in if ltb x (2 ^ 31) then x else x + u64 - u32

unfoldable pub compute_incr : Tiles → ℕ → TilesState → ℕ
compute_incr d new_b p =
    let tile = get_or p.tiles new_b 0 in
    (p.h + int_diff (lookup_dist d tile p.blank) (lookup_dist d tile new_b)) % u64

-- `compute`, of a state with the given cells and blank
unfoldable pub compute : Tiles → Option TilesState → List ℕ → ℕ → ℕ
compute d none tiles new_b = compute_full d tiles
compute d (some p) tiles new_b = compute_incr d new_b p
