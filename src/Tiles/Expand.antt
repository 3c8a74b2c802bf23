-- ===== src/Tiles/Expand.antt =====
-- src/tiles/tiles.cc and src/tiles/tiles_state.cc: the children of a configuration.
pub mod Laws
use pbnf.Base.{
  ℕ, ◌+◌, ◌-◌, ◌/◌, ◌%◌, Bool, true, not, ◌&&◌, List, [], ◌∷◌, ◌++◌, Option, none, some, ltb, ◌==◌,
  if◌then◌else◌, get_or,
}
use pbnf.Tiles.Domain.{Tiles, TilesState, child}
use pbnf.Tiles.Hash.{compute_hash}
use pbnf.Tiles.Manhattan.{u64, compute}

-- The constructor; `guided` tells whether the domain has a heuristic.
unfoldable pub new_state : Tiles → Bool → Option TilesState → ℕ → ℕ → List ℕ → ℕ → TilesState
new_state d guided parent c g t b = record {
  tiles = t;
  blank = b;
  c = c;
  g = g;
  h = if guided then compute d parent t b else 0;
  hash_val = compute_hash t;
}

unfoldable pub initial_state : Tiles → Bool → List ℕ → ℕ → TilesState
initial_state d guided initial initial_blank = new_state d guided none 0 0 initial initial_blank

-- `!gp || gp->get_blank() != b`
abbrev pub allowed : Option TilesState → ℕ → Bool
allowed none b = true
allowed (some p) b = not (p.blank == b)

-- The child whose blank is at `n`.
unfoldable pub slide : Tiles → Bool → TilesState → ℕ → TilesState
slide d guided s n =
    let cost = d.cost (get_or s.tiles n 0) in
    new_state d guided (some s) cost ((s.g + cost) % u64) (child s.tiles s.blank n) n

-- `expand`, where `gp` is the parent of `s`.
unfoldable pub expand : Tiles → Bool → TilesState → Option TilesState → List TilesState
expand d guided s gp =
    let blank = s.blank in
    let col = blank % d.width in
    let row = blank / d.width in
    (if ltb 0 col && allowed gp (blank - 1) then slide d guided s (blank - 1) ∷ [] else [])
    ++ (if ltb col (d.width - 1) && allowed gp (blank + 1)
        then slide d guided s (blank + 1) ∷ []
        else [])
    ++ (if ltb 0 row && allowed gp (blank - d.width)
        then slide d guided s (blank - d.width) ∷ []
        else [])
    ++ (if ltb row (d.height - 1) && allowed gp (blank + d.width)
        then slide d guided s (blank + d.width) ∷ []
        else [])
