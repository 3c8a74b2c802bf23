-- ===== src/Grid/Projections.antt =====
-- src/grid/grid_world.cc: what the graph of the nblocks and the search need of the projections.
use pbnf.Base.{
  ℕ, ◌+◌, ◌-◌, ◌*◌, ◌/◌, ◌≤◌, ◌<◌, ◌≡◌, ◌⊎◌, ap, refl, sym, ◌∙◌, inl, inr, true, arith, ltb, mem,
  Bool-cases,
}
use mathlib.Core.Logic.{◌↔◌}
use native.Mathlib.Nat.{div-lt_iff_lt-mul, mul-le-mul_right}
use pbnf.NblockGraph.Scope.{IsProjection}
use pbnf.Grid.World.{GridWorld, GridState, expand}
use pbnf.Grid.World.Laws.{All, All-map, IsMove, expand-IsMove}
use pbnf.Grid.RowModProject
use pbnf.Grid.RowModProject.Laws.{row_mod-IsProjection, row_step}
use pbnf.Grid.CoarseProject
use pbnf.Grid.CoarseProject.{Coarse, new}
use pbnf.Grid.CoarseProject.Laws.{
  coarse-IsProjection, id-parts, div-step, touching, mem-get_neighbors, lt-cell,
}

-- For every number of rows and every coarse grid over a world, the successors and the predecessors
-- that the two projections give are those of one relation between the blocks below
-- `get_num_nblocks`.
pub grid_projections_correct :
    (w : GridWorld) (mod_val c r : ℕ)
    → IsProjection (RowModProject.projection mod_val)
      × IsProjection (CoarseProject.projection (new w c r))
grid_projections_correct w mod_val c r =
    (row_mod-IsProjection mod_val, coarse-IsProjection (new w c r))

-- The world is divided into blocks of one size.
pub record IsEven (w : GridWorld) (p : Coarse) : Type 0 where
  pub cols : p.cols * p.cols_div ≡ w.width
  pub rows : p.rows * p.rows_div ≡ w.height
  pub moves : p.four ≡ w.four

-- A child is in the block of its parent or in a successor, under each of the projections.
pub record IsReached (mod_val : ℕ) (p : Coarse) (s r : GridState) : Type 0 where
  pub row :
      (RowModProject.project mod_val r ≡ RowModProject.project mod_val s)
      ⊎ (mem
            (RowModProject.project mod_val r)
            (RowModProject.get_successors mod_val (RowModProject.project mod_val s))
          ≡ true)
  pub coarse :
      (CoarseProject.project p r ≡ CoarseProject.project p s)
      ⊎ (mem
            (CoarseProject.project p r)
            (CoarseProject.get_successors p (CoarseProject.project p s))
          ≡ true)
  pub in_range : CoarseProject.project p r < CoarseProject.get_num_nblocks p

div-below : (n k m x : ℕ) → n * k ≡ m → x < m → (0 < k) × (x / k < n)
div-below n k m x e lt =
    let pos : 0 < k = elim (Bool-cases (ltb 0 k)) [
      | inl more ↦ ground (arith, more)
      | inr empty ↦
          let z : k ≡ 0 = ground (arith, empty) in
          let f = rw z at e in absurd (omega (arith, f, lt))
    ] in
    (pos, (div-lt_iff_lt-mul {k = k} {x = x} {y = n} pos).1 (rw e lt))

module _ (w : GridWorld) (mod_val : ℕ) (p : Coarse) (pos : 0 < mod_val) (even : IsEven w p)
    (s : GridState) (lx : s.x < w.width) (ly : s.y < w.height) where
  move-IsReached : (r : GridState) → IsMove w s r → IsReached mod_val p s r
  unfolding RowModProject.project RowModProject.get_successors CoarseProject.project
      CoarseProject.get_id CoarseProject.get_successors CoarseProject.get_num_nblocks
  move-IsReached r m =
      let (kx, sx) = div-below p.cols p.cols_div w.width s.x even.cols lx in
      let (ky, sy) = div-below p.rows p.rows_div w.height s.y even.rows ly in
      let rx = (div-below p.cols p.cols_div w.width r.x even.cols m.x_in).1 in
      let ry = (div-below p.rows p.rows_div w.height r.y even.rows m.y_in).1 in
      let narrow : 0 < p.cols = omega (arith, rx) in
      let at = id-parts p.cols (s.x / p.cols_div) (s.y / p.rows_div) sx in
      let to = id-parts p.cols (r.x / p.cols_div) (r.y / p.rows_div) rx in
      record {
        row = row_step mod_val s.y r.y pos m.y_step;
        coarse =
            elim (touching p (s.x / p.cols_div) (s.y / p.rows_div) (r.x / p.cols_div)
              (r.y / p.rows_div) sx sy rx ry (div-step p.cols_div s.x r.x kx m.x_step)
              (div-step p.rows_div s.y r.y ky m.y_step) turn) [
                | inl both ↦ inl (rw (both.0, both.1) refl)
                | inr near ↦ inr (mem-get_neighbors p _ _ narrow ∙ rw (at.0, at.1, to.0, to.1) near)
              ];
        in_range = lt-cell p _ narrow (rw to.1 ry);
      }
    where
      turn :
          p.four ≡ true
          → (r.x / p.cols_div ≡ s.x / p.cols_div) ⊎ (r.y / p.rows_div ≡ s.y / p.rows_div)
      turn four = elim m.turn [
        | inl over ↦ absurd (ground (arith, m.way (sym even.moves ∙ four), over))
        | inr (inl same) ↦ inl (ap (λ z. z / p.cols_div) same)
        | inr (inr same) ↦ inr (ap (λ z. z / p.rows_div) same)
      ]

-- Where the coarse grid divides the world evenly, each child that `expand` gives of a state in the
-- world is in the block of that state or in a successor of it, under `RowModProject` with a
-- positive number of rows and under `CoarseProject`, and its coarse block is one of the graph.
pub grid_children_correct :
    (w : GridWorld) (mod_val : ℕ) (p : Coarse) (s : GridState)
    → 0 < mod_val
    → IsEven w p
    → s.x < w.width
    → s.y < w.height
    → All (IsReached mod_val p s) (expand w s)
grid_children_correct w mod_val p s pos even lx ly =
    All-map (IsMove w s) (IsReached mod_val p s) (expand w s)
      (move-IsReached w mod_val p pos even s lx ly) (expand-IsMove w s lx ly)

-- The state in the last column and the last row.
abbrev pub corner : GridWorld → GridState
corner w = record { x = w.width - 1; y = w.height - 1; c = 0; g = 0 }

div-above : (n k x : ℕ) → 0 < k → n * k ≤ x → n ≤ x / k
div-above n k x pos h = elim (Bool-cases (ltb (x / k) n)) [
  | inl less ↦
      let lt = (div-lt_iff_lt-mul {k = k} {x = x} {y = n} pos).0 (ground (arith, less)) in
      absurd (omega (arith, lt, h))
  | inr more ↦ ground (arith, more)
]

module _ (n m : ℕ) (pos : 0 < n) (le : n ≤ m) where
  size_pos : 0 < m / n
  size_pos = div-above 1 n m pos (omega (arith, le))

  size-le : n * (m / n) ≤ m
  size-le = grind arith

  last-ge : n ≤ (m - 1) / (m / n) + 1
  last-ge =
      let k = m / n in
      let h = div-above (n - 1) k (m - 1) size_pos (grind (arith, size-le, size_pos, pos)) in
      omega (arith, h)

  last-over : n * (m / n) < m → n ≤ (m - 1) / (m / n)
  last-over h = div-above n (m / n) (m - 1) size_pos (omega (arith, h))

row_past : (n k x y : ℕ) → n ≤ x → k ≤ y + 1 → k * n ≤ y * n + x
row_past n k x y h le =
    let e : (y + 1) * n ≡ y * n + n = grind arith in omega (arith, e, h, mul-le-mul_right n le)

corner_iff :
    (n m k l : ℕ)
    → 0 < n
    → 0 < k
    → n ≤ m
    → k ≤ l
    → ((l - 1) / (l / k) * n + (m - 1) / (m / n) < k * n) ↔ ((n * (m / n) ≡ m) × (k * (l / k) ≡ l))
corner_iff n m k l pn pk ln lk = (
  λ h. (
    elim (Bool-cases (ltb (n * (m / n)) m)) [
      | inr even ↦ ground (arith, even, size-le n m pn ln)
      | inl short ↦
          let x = last-over n m pn ln (ground (arith, short)) in
          absurd (omega (arith, h, row_past n k _ _ x (last-ge k l pk lk)))
    ],
    elim (Bool-cases (ltb (k * (l / k)) l)) [
      | inr even ↦ ground (arith, even, size-le k l pk lk)
      | inl short ↦
          let y = last-over k l pk lk (ground (arith, short)) in absurd (grind (arith, y, h))
    ],
  ),
  λ (e, f).
      let x = (div-below n (m / n) m (m - 1) e (omega (arith, pn, ln))).1 in
      let y = (div-below k (l / k) l (l - 1) f (omega (arith, pk, lk))).1 in grind (arith, x, y),
)

-- In a world with at least as many columns and rows as the coarse grid has: the block of the state
-- in the last column and row is one of the graph exactly if the coarse grid divides the world
-- evenly. Where it does not, the block is outside the graph, although `CoarseProject` has added a
-- column or a row for the remainder.
pub coarse_corner_iff :
    (w : GridWorld) (c r : ℕ)
    → 0 < (new w c r).cols
    → 0 < (new w c r).rows
    → (new w c r).cols ≤ w.width
    → (new w c r).rows ≤ w.height
    → (CoarseProject.project (new w c r) (corner w) < CoarseProject.get_num_nblocks (new w c r)) ↔ (
        ((new w c r).cols * (new w c r).cols_div ≡ w.width)
        × ((new w c r).rows * (new w c r).rows_div ≡ w.height))
unfolding CoarseProject.project CoarseProject.get_id CoarseProject.get_num_nblocks new
coarse_corner_iff w c r pc pr lc lr =
    corner_iff (new w c r).cols w.width (new w c r).rows w.height pc pr lc lr
