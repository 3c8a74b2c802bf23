-- ===== src/NblockMap/Laws.antt =====
-- src/util/nblock_map.h: blocks are created once, and counted.
use pbnf.Base.{
  ℕ, ◌<◌, ◌≡◌, ◌≢◌, refl, [], ◌∷◌, length, Option, none, some, arith, is_some, put, tally_below,
  tally_below-put, length-append,
}
use pbnf.NblockMap.{NblockMap, find, swap, create, get}

module _ {NB : Type 0} where
  -- The count is that of the blocks that exist, and the observer has seen as many.
  pub record IsCounted (m : NblockMap NB) : Type 0 where
    pub created : m.num_created ≡ tally_below m.num_nblocks (λ x. is_some (m.blocks x))
    pub observed : length m.observed ≡ m.num_created

  -- What a thread gets for a block, and what becomes of the map.
  pub record Got (make : ℕ → NB) (m : NblockMap NB) (id : ℕ) (r : NB × NblockMap NB) : Type 0 where
    pub counted : IsCounted r.1
    pub stored : find r.1 id ≡ some r.0
    pub old : (b : NB) → find m id ≡ some b → r.0 ≡ b
    pub fresh : find m id ≡ none → r.0 ≡ make id
    pub others : (x : ℕ) → id ≢ x → find r.1 x ≡ find m x

  swap-Got :
      (make : ℕ → NB) (m : NblockMap NB) (id : ℕ) (o : Option NB)
      → find m id ≡ o
      → id < m.num_nblocks
      → IsCounted m
      → Got make m id (swap m id (make id) o)
  unfolding swap find
  swap-Got make m id none e lt c = record {
    counted = record {
      created =
          let count =
            tally_below-put m.num_nblocks (λ x. is_some (m.blocks x))
              (λ x. is_some (put m.blocks id (some (make id)) x)) id lt
              (λ j l ne. ground (arith, ne)) in
          ground (arith, count, c.created, e);
      observed = ground (arith, c.observed, length-append m.observed (id ∷ []));
    };
    stored = ground arith;
    old = λ b h. cc;
    fresh = λ h. refl;
    others = λ x ne. ground (arith, ne);
  }
  swap-Got make m id (some a) e lt c = record {
    counted = c;
    stored = e;
    old = λ b h. ground (arith, e, h);
    fresh = λ h. cc;
    others = λ x ne. refl;
  }

  -- A thread that comes to the compare-and-swap of `get`, whether or not another thread has come
  -- first, goes on with the block that stands in the map: the old one if there is one, else the
  -- one it has made. The other blocks stay, and the counts are right again.
  pub create_correct :
      (make : ℕ → NB) (m : NblockMap NB) (id : ℕ)
      → id < m.num_nblocks
      → IsCounted m
      → Got make m id (create make m id)
  unfolding create
  create_correct make m id lt c = swap-Got make m id (find m id) refl lt c

  -- `get` gives the block of the map and creates it exactly if there is none; the other blocks
  -- stay, and the counts are right again.
  pub get_correct :
      (make : ℕ → NB) (m : NblockMap NB) (id : ℕ)
      → id < m.num_nblocks
      → IsCounted m
      → Got make m id (get make m id)
  unfolding get
  get_correct make m id lt c = by_cell (find m id) refl
    where
      by_cell :
          (o : Option NB)
          → find m id ≡ o
          → Got make m id (elim o [ none ↦ create make m id | some b ↦ (b, m) ])
      by_cell none e = create_correct make m id lt c
      by_cell (some b) e = unfold swap in swap-Got make m id (some b) e lt c
