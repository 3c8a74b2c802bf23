-- ===== src/Grid/World.antt =====
-- src/grid/grid_world.cc and src/grid/grid_state.cc: a world, a state and its children.
pub mod Laws
use pbnf.Base.{
  ℕ, ◌+◌, ◌-◌, ◌*◌, ◌%◌, ◌^◌, Bool, true, false, not, ◌&&◌, List, [], ◌∷◌, ◌++◌, ltb, if◌then◌else◌,
  get_or,
}

abbrev pub u64 : ℕ
u64 = 2 ^ 64

-- `fp_one` and `fp_sqrt2`
abbrev pub fp_one : ℕ
fp_one = 10000

abbrev pub fp_sqrt2 : ℕ
fp_sqrt2 = 14142

-- `unit` for `UNIT_COST` and not `LIFE_COST`, `four` for `FOUR_WAY_MOVES`; a cell outside
-- `obstacles` has none.
pub record GridWorld : Type 0 where
  pub width : ℕ
  pub height : ℕ
  pub obstacles : List Bool
  pub unit : Bool
  pub four : Bool
  pub start_x : ℕ
  pub start_y : ℕ
  pub goal_x : ℕ
  pub goal_y : ℕ

pub record GridState : Type 0 where
  pub x : ℕ
  pub y : ℕ
  pub c : ℕ
  pub g : ℕ

unfoldable pub is_obstacle : GridWorld → ℕ → ℕ → Bool
is_obstacle w x y = get_or w.obstacles (w.width * y + x) false

-- `vector::push_back` of a child at (x, y), if the test holds and nothing stands there.
unfoldable pub child : GridWorld → GridState → ℕ → Bool → ℕ → ℕ → List GridState
unfolding is_obstacle
child w s cost test x y =
    if test && not (is_obstacle w x y)
    then record { x = x; y = y; c = cost; g = (s.g + cost) % u64 } ∷ []
    else []

unfoldable pub expand4 : GridWorld → GridState → List GridState
unfolding child
expand4 w s =
    let x = s.x in
    let y = s.y in
    let cost = if w.unit then fp_one else y * fp_one % u64 in
    child w s cost (ltb 0 x) (x - 1) y
    ++ child w s cost (ltb x (w.width - 1)) (x + 1) y
    ++ child w s cost (ltb 0 y) x (y - 1)
    ++ child w s cost (ltb y (w.height - 1)) x (y + 1)

unfoldable pub expand8 : GridWorld → GridState → List GridState
unfolding child expand4
expand8 w s =
    let x = s.x in
    let y = s.y in
    let cost = if w.unit then fp_sqrt2 else y * fp_sqrt2 % u64 in
    expand4 w s
    ++ child w s cost (ltb 0 x && ltb 0 y) (x - 1) (y - 1)
    ++ child w s cost (ltb x (w.width - 1) && ltb 0 y) (x + 1) (y - 1)
    ++ child w s cost (ltb x (w.width - 1) && ltb y (w.height - 1)) (x + 1) (y + 1)
    ++ child w s cost (ltb 0 x && ltb y (w.height - 1)) (x - 1) (y + 1)

unfoldable pub expand : GridWorld → GridState → List GridState
unfolding expand4 expand8
expand w s = if w.four then expand4 w s else expand8 w s
