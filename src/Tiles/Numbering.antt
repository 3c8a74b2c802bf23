-- ===== src/Tiles/Numbering.antt =====
-- src/tiles/tiles.cc: the tables `proj` and `unproj` that the projections of the puzzle fill, and
-- the loop with which `project` finds the tiles it keeps.
pub mod Laws
pub mod Count
use pbnf.Base.{
  ℕ, zero, suc, ◌+◌, ◌-◌, ◌*◌, ◌≡◌, Bool, true, false, not, ◌&&◌, List, [], ◌∷◌, ◌==◌,
  if◌then◌else◌, get_or, set, mem, replicate,
}
use pbnf.Tiles.Domain.{equals}

-- `id` is the next number, `proj` the table from the cells of the kept tiles, in their order, and
-- `unproj` the table back.
pub record Numbering : Type 0 where
  pub id : ℕ
  pub proj : List ℕ → ℕ
  pub unproj : List (List ℕ)

-- A new vector has zeros, `unproj` has `nnblocks` entries.
unfoldable pub empty : ℕ → Numbering
empty nnblocks = record { id = 0; proj = λ t. 0; unproj = replicate nnblocks [] }

-- The tables with the next number given to the cells.
unfoldable pub enter : List ℕ → Numbering → Numbering
unfolding equals
enter t st = record {
  id = st.id + 1;
  proj = λ u. if equals t u then st.id else st.proj u;
  unproj = set st.unproj st.id t;
}

-- `for (i = first; i < first + count; i += 1)`
unfoldable pub loop : ℕ → ℕ → (ℕ → Numbering → Numbering) → Numbering → Numbering
loop zero first body st = st
loop (suc count) first body st = loop count (suc first) body (body first st)

-- The names of the kept tiles and where they are: the `if` chain over the tile `x` of cell `i`.
unfoldable pub note : List ℕ → ℕ → ℕ → List ℕ → List ℕ
note [] x i ps = ps
note (name ∷ names) x i [] = []
note (name ∷ names) x i (p ∷ ps) =
    let rest = p ∷ note names x i ps in if x == name then i ∷ ps else rest

-- The loop of `project` over the cells.
unfoldable pub locate : List ℕ → List ℕ → ℕ → List ℕ → List ℕ
unfolding note
locate names [] i ps = ps
locate names (x ∷ tiles) i ps = locate names tiles (suc i) (note names x i ps)
