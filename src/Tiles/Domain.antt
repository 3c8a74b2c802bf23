-- ===== src/Tiles/Domain.antt =====
-- src/tiles/tiles.h and src/tiles/tiles_state.h: a puzzle and a configuration of it.
use pbnf.Base.{
  ℕ, ◌*◌, Bool, true, false, List, [], ◌∷◌, ◌==◌, if◌then◌else◌, set, get_or, length, length-set,
  ◌≡◌, ◌∙◌,
}

-- `cost` is the cost of a move of each tile as a fixed point value, `FIXED_OF_DOUBLE(cost(tile))`,
-- and `goal` the cells of the goal.
pub record Tiles : Type 0 where
  pub width : ℕ
  pub height : ℕ
  pub goal : List ℕ
  pub cost : ℕ → ℕ

abbrev pub size : Tiles → ℕ
size d = d.width * d.height

-- A configuration with what the search keeps of it; `c` is the cost of the move into it.
pub record TilesState : Type 0 where
  pub tiles : List ℕ
  pub blank : ℕ
  pub c : ℕ
  pub g : ℕ
  pub h : ℕ
  pub hash_val : ℕ

-- The cells of a child with the blank at `n`, when that of its parent was at `o`.
unfoldable pub child : List ℕ → ℕ → ℕ → List ℕ
child tiles o n = set (set tiles o (get_or tiles n 0)) n 0

pub length-child : (tiles : List ℕ) (o n : ℕ) → length (child tiles o n) ≡ length tiles
unfolding child
length-child tiles o n =
    length-set (set tiles o (get_or tiles n 0)) n 0 ∙ length-set tiles o (get_or tiles n 0)

-- `equals`, cell by cell
unfoldable pub equals : List ℕ → List ℕ → Bool
equals [] other = true
equals (x ∷ tiles) [] = false
equals (x ∷ tiles) (y ∷ other) = if x == y then equals tiles other else false

unfoldable pub is_goal : Tiles → List ℕ → Bool
unfolding equals
is_goal d tiles = equals tiles d.goal
