-- ===== src/NblockMap.antt =====
-- src/util/nblock_map.h: the map from ids to blocks, which are created when they are asked for.
pub mod Laws
mod Tests
use pbnf.Base.{ℕ, ◌+◌, List, [], ◌∷◌, ◌++◌, Option, none, some, put}

-- `observed` holds the ids of the blocks that the observer has seen.
pub record NblockMap (NB : Type 0) : Type 0 where
  pub blocks : ℕ → Option NB
  pub num_nblocks : ℕ
  pub num_created : ℕ
  pub observed : List ℕ

module _ {NB : Type 0} where
  -- The constructor, for a projection with `n` blocks.
  pub new : ℕ → NblockMap NB
  new n = record { blocks = λ x. none; num_nblocks = n; num_created = 0; observed = [] }

  pub find : NblockMap NB → ℕ → Option NB
  find m id = m.blocks id

  pub get_num_created : NblockMap NB → ℕ
  get_num_created m = m.num_created

  -- The compare-and-swap of `get` with the block `b` and what follows it, where `old` stands in
  -- the cell: a thread that comes too late deletes its block.
  pub swap : NblockMap NB → ℕ → NB → Option NB → NB × NblockMap NB
  swap m id b none = (
    b,
    record m {
      blocks = put m.blocks id (some b);
      observed = m.observed ++ id ∷ [];
      num_created = m.num_created + 1;
    },
  )
  swap m id b (some a) = (a, m)

  -- A thread that has found the cell empty, when it comes to the compare-and-swap.
  pub create : (ℕ → NB) → NblockMap NB → ℕ → NB × NblockMap NB
  create make m id = swap m id (make id) (find m id)

  -- `get` without another thread in between; `make` is the constructor of the blocks.
  pub get : (ℕ → NB) → NblockMap NB → ℕ → NB × NblockMap NB
  get make m id = elim (find m id) [ none ↦ create make m id | some b ↦ (b, m) ]
