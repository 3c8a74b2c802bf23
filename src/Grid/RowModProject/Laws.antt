-- ===== src/Grid/RowModProject/Laws.antt =====
-- src/grid/grid_world.cc: `RowModProject` gives the graph that src/projection.h asks for.
use pbnf.Base.{
  ℕ, ◌+◌, ◌-◌, ◌%◌, ◌<◌, ◌≡◌, ◌⊎◌, ap, sym, inl, inr, refl, true, List, [], ◌∷◌, arith, ltb, ◌==◌,
  if◌then◌else◌, mem, Bool-cases,
}
use pbnf.NblockGraph.Scope.{IsProjection}
use pbnf.Tiles.Cells.{right_parts}
use pbnf.Grid.RowModProject.{
  get_num_nblocks, get_neighbors, get_successors, get_predecessors, projection,
}

-- Without the remainders.
around : ℕ → ℕ → List ℕ
around m b = (if ltb 0 b then b - 1 else m - 1) ∷ (if b + 1 == m then 0 else b + 1) ∷ []

get_neighbors-around : (m b : ℕ) → b < m → get_neighbors m b ≡ around m b
unfolding get_neighbors around
get_neighbors-around m b lt =
    let low : (b - 1) % m ≡ b - 1 = grind arith in
    let high : (b + 1) % m ≡ (if b + 1 == m then 0 else b + 1) = elim (Bool-cases (b + 1 == m)) [
      | inl e ↦ let f : b + 1 ≡ m = ground (arith, e) in rw (e, f) (grind arith)
      | inr ne ↦ let less : b + 1 < m = ground (arith, ne, lt) in rw ne (grind arith)
    ] in
    rw (low, high) refl

pub row_mod-IsProjection : (m : ℕ) → IsProjection (projection m)
unfolding projection get_num_nblocks get_successors get_predecessors around
row_mod-IsProjection m = record {
  inverse = λ a b. ground (arith, get_neighbors-around m a, get_neighbors-around m b);
  range = λ a b h. ground (arith, h, get_neighbors-around m b);
}

wraps : (m y : ℕ) → 0 < m → (y + 1) % m ≡ (if y % m + 1 == m then 0 else y % m + 1)
wraps m y pos = elim (Bool-cases (y % m + 1 == m)) [
  | inl e ↦ let f : y % m + 1 ≡ m = ground (arith, e) in rw e (grind (arith, f))
  | inr ne ↦
      let low : y % m < m = grind arith in
      let less : y % m + 1 < m = ground (arith, ne, low) in rw ne (right_parts m y pos less).1
]

-- The row of a child is in the block of its parent or next to it.
pub row_step :
    (m x y : ℕ)
    → 0 < m
    → ((y ≡ x) ⊎ ((y + 1 ≡ x) ⊎ (y ≡ x + 1)))
    → (y % m ≡ x % m) ⊎ (mem (y % m) (get_neighbors m (x % m)) ≡ true)
unfolding around
row_step m x y pos (inl e) = inl (ap (λ r. r % m) e)
row_step m x y pos (inr (inl e)) =
    let low : y % m < m = grind arith in
    let lx : x % m < m = grind arith in
    let at = wraps m y pos in
    let here : x % m ≡ (if y % m + 1 == m then 0 else y % m + 1) = rw e at at in
    inr (rw (get_neighbors-around m (x % m) lx) (ground (arith, here, low, pos)))
row_step m x y pos (inr (inr e)) =
    let low : x % m < m = grind arith in
    let at = wraps m x pos in
    let here : y % m ≡ (if x % m + 1 == m then 0 else x % m + 1) = rw (sym e) at at in
    inr (rw (get_neighbors-around m (x % m) low) (ground (arith, here, low, pos)))
