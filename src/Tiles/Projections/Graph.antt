-- ===== src/Tiles/Projections/Graph.antt =====
-- src/tiles/tiles.cc: a `get_neighbors` that goes by a symmetric relation between the cells of the
-- kept tiles gives the graph that src/projection.h asks for.
use pbnf.Base.{ℕ, ◌<◌, ◌≡◌, sym, true, List, [], arith, get_or, mem}
use native.Mathlib.Decide.{dec_lt}
use pbnf.NblockGraph.Scope.{Projection, IsProjection}
use pbnf.Tiles.Numbering.{Numbering}
use pbnf.Tiles.Projections.{IsCells, IsNumbering}

-- The neighbours of a block are the numbers of the related cells.
pub record IsGraph (n k : ℕ) (st : Numbering) (near : List ℕ → List ℕ)
    (To : List ℕ → List ℕ → Type 0) : Type 0 where
  pub none : near [] ≡ []
  pub from :
      (t : List ℕ) (a : ℕ)
      → IsCells n k t
      → mem a (near t) ≡ true
      → (u : List ℕ) × To t u × (a ≡ st.proj u)
  pub to : (t u : List ℕ) → IsCells n k t → To t u → mem (st.proj u) (near t) ≡ true
  pub cells : (t u : List ℕ) → IsCells n k t → To t u → IsCells n k u
  pub symm : (t u : List ℕ) → IsCells n k t → To t u → To u t

module _ (n k : ℕ) (st : Numbering) (near : List ℕ → List ℕ) (To : List ℕ → List ℕ → Type 0)
    (v : IsNumbering n k st) (g : IsGraph n k st near To) where
  abbrev at_block : ℕ → List ℕ
  at_block b = get_or st.unproj b []

  -- A neighbour is the block of related cells.
  edge :
      (a b : ℕ)
      → mem a (near (at_block b)) ≡ true
      → (a < st.id) × (b < st.id) × To (at_block b) (at_block a)
  edge a b h = elim (dec_lt b st.id) [
    | no high ↦ let e = v.past b (omega (arith, high)) in let f = rw (e, g.none) at h in absurd (cc)
    | yes lt ↦
        let c = (v.tuple b lt).0 in
        let (u, m, e) = g.from (at_block b) a c h in
        let (less, back) = v.number u (g.cells (at_block b) u c m) in
        (rw e less, lt, rw (e, back) m)
  ]

  edge_symm : (a b : ℕ) → mem a (near (at_block b)) ≡ true → mem b (near (at_block a)) ≡ true
  edge_symm a b h =
      let (la, lb, m) = edge a b h in
      let (c, e) = v.tuple b lb in
      rw e at (
        g.to (at_block a) (at_block b) (g.cells (at_block b) (at_block a) c m)
          (g.symm (at_block b) (at_block a) c m))

  -- The projection that goes by these neighbours.
  pub graph-IsProjection :
      (p : Projection)
      → p.num_nblocks ≡ st.id
      → ((b : ℕ) → p.get_successors b ≡ near (at_block b))
      → ((b : ℕ) → p.get_predecessors b ≡ near (at_block b))
      → IsProjection p
  graph-IsProjection p count succ pred = record {
    inverse = λ a b. rw (pred b, succ a) (ground (arith, edge_symm a b, edge_symm b a));
    range = λ a b h. let (la, lb, m) = edge a b (rw (sym (pred b)) h) in (rw count la, rw count lb);
  }
