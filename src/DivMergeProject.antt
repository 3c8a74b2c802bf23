-- ===== src/DivMergeProject.antt =====
-- src/div_merge_project.cc: a projection that merges `div` blocks of another one into a block.
mod Tests
pub mod Laws
use pbnf.Base.{ℕ, zero, suc, ◌+◌, ◌*◌, ◌/◌, List, [], ◌∷◌, ◌==◌, if◌then◌else◌}
use pbnf.NblockGraph.Scope.{Projection, set_insert}

-- `project`, where `block` is what the projection below gives.
unfoldable pub project : ℕ → ℕ → ℕ
project div block = block / div

unfoldable pub get_num_nblocks : ℕ → Projection → ℕ
get_num_nblocks div p = p.num_nblocks / div

-- The inner loop: the set with the merged blocks of the list, but for `b`.
unfoldable pub collect : ℕ → ℕ → List ℕ → List ℕ → List ℕ
unfolding set_insert
collect div b [] set = set
collect div b (nblk ∷ l) set =
    let merged = nblk / div in collect div b l (if merged == b then set else set_insert merged set)

-- The outer loop: `count` blocks from b * div + i on.
unfoldable pub merge : (ℕ → List ℕ) → ℕ → ℕ → ℕ → ℕ → List ℕ → List ℕ
unfolding collect
merge next div b zero i set = set
merge next div b (suc count) i set =
    merge next div b count (suc i) (collect div b (next (b * div + i)) set)

unfoldable pub get_successors : ℕ → Projection → ℕ → List ℕ
unfolding merge
get_successors div p b = merge p.get_successors div b div 0 []

unfoldable pub get_predecessors : ℕ → Projection → ℕ → List ℕ
unfolding merge
get_predecessors div p b = merge p.get_predecessors div b div 0 []

-- What the graph takes of it.
unfoldable pub projection : ℕ → Projection → Projection
projection div p = record {
  num_nblocks = get_num_nblocks div p;
  get_successors = get_successors div p;
  get_predecessors = get_predecessors div p;
}
