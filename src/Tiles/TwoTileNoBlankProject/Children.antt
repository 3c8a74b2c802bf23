-- ===== src/Tiles/TwoTileNoBlankProject/Children.antt =====
-- src/tiles/tiles.cc: under `TwoTileNoBlankProject` a child is in the block of its parent or in a
-- neighbour of it.
use pbnf.Base.{
  ℕ, ◌<◌, ◌≡◌, ◌≢◌, ◌⊎◌, ap, refl, sym, ◌∙◌, inl, inr, true, false, List, [], ◌∷◌, arith, ◌==◌,
  length, get_or, mem, Bool-cases, Distinct,
}
use native.Mathlib.Decide.{ℕ_discrete}
use pbnf.Tiles.Cells.{IsStep, IsStep_symm, IsStep-ne}
use pbnf.Tiles.Domain.{Tiles, size, child, length-child}
use pbnf.Tiles.Hash.Laws.{IsPermutation}
use pbnf.Tiles.Expand.Laws.{get_or-child, child-IsPermutation}
use pbnf.Tiles.Numbering.{Numbering, locate}
use pbnf.Tiles.Numbering.Count.{Inside}
use pbnf.Tiles.Locate.{At, At-absent, locate_unique, locate_correct}
use pbnf.Tiles.Projections.{IsCells, IsNumbering}
use pbnf.Tiles.Projections.Swap.{swap_in}
use pbnf.Tiles.Projections.Children.{At-IsCells, At-child}
use pbnf.Tiles.TwoTileNoBlankProject.{Names, swap_ab, swap_bc, sort, neighbors}
use pbnf.Tiles.TwoTileNoBlankProject.Hops.{first, second, third, with_second, with_third}
use pbnf.Tiles.TwoTileNoBlankProject.Laws.{ToBlock, Hop-neighbors}

-- Three different tiles of the board.
pub record IsNames (n : ℕ) (t : Names) : Type 0 where
  pub ab : t.a ≢ t.b
  pub ac : t.a ≢ t.c
  pub bc : t.b ≢ t.c
  pub a_lt : t.a < n
  pub b_lt : t.b < n
  pub c_lt : t.c < n

pub record IsSorted (n : ℕ) (t : Names) : Type 0 where
  pub low : t.a < t.b
  pub high : t.b < t.c
  pub inside : t.c < n

-- The bubble sort sorts.
pub sort-IsSorted : (n : ℕ) (t : Names) → IsNames n t → IsSorted n (sort t)
unfolding sort swap_ab swap_bc
sort-IsSorted n t v = record {
  low = ground (arith, v.ab, v.ac, v.bc);
  high = ground (arith, v.ab, v.ac, v.bc);
  inside = ground (arith, v.a_lt, v.b_lt, v.c_lt);
}

module _ (d : Tiles) (t : Names) (st : Numbering) (numbered : IsNumbering (size d) 3 st)
    (sorted : IsSorted (size d) t) where
  abbrev names : List ℕ
  names = t.a ∷ t.b ∷ t.c ∷ []

  abbrev cells : List ℕ → List ℕ
  cells tiles = locate names tiles 0 (0 ∷ 0 ∷ 0 ∷ [])

  once : Distinct names
  once = (ground (arith, sorted.low, sorted.high), (ground (arith, sorted.high), (refl, tt)))

  below : Inside (size d) names
  unfolding Inside
  below = (
    omega (arith, sorted.low, sorted.high, sorted.inside),
    (omega (arith, sorted.high, sorted.inside), (sorted.inside, tt)),
  )

  -- The cells of the tiles in a child are those in its parent, or one hop away.
  module _ (tiles : List ℕ) (o b : ℕ) (v : IsPermutation (size d) tiles) (lo : o < size d)
      (lb : b < size d) (blank_at : get_or tiles o 0 ≡ 0) (step : IsStep d.width o b) where
    ne : o ≢ b
    ne = IsStep-ne d.width o b step

    is_cells : (qs : List ℕ) → At (child tiles o b) names qs → cells (child tiles o b) ≡ qs
    is_cells qs a =
        locate_unique (size d) (child tiles o b)
          (child-IsPermutation (size d) tiles o b v lo lb ne blank_at) names (0 ∷ 0 ∷ 0 ∷ []) qs
          once below refl a

    hop_no_blank :
        (p q r : ℕ)
        → t.a ≢ 0
        → At tiles names (p ∷ q ∷ r ∷ [])
        → (cells (child tiles o b) ≡ p ∷ q ∷ r ∷ [])
          ⊎ ToBlock d t st (p ∷ q ∷ r ∷ []) (cells (child tiles o b))
    unfolding swap_in
    hop_no_blank p q r nz a =
        let zero_out : mem 0 names ≡ false = ground (arith, nz, sorted.low, sorted.high) in
        let out : mem o (p ∷ q ∷ r ∷ []) ≡ false =
          At-absent (size d) tiles v names (p ∷ q ∷ r ∷ []) o lo a (rw blank_at zero_out) in
        let after = is_cells (swap_in (p ∷ q ∷ r ∷ []) b o) (
          At-child (size d) tiles o b v lo lb blank_at names (p ∷ q ∷ r ∷ []) once zero_out ne a) in
        let back = IsStep_symm d.width o b step in
        elim (Bool-cases (p == b)) [
          | inl here ↦
              let e : p ≡ b = ground (arith, here) in
              inr (
                rw (rw here at after)
                  (first p q r o lo (rw e back) (ground (arith, out)) (ground (arith, out))))
          | inr not_a ↦ elim (Bool-cases (q == b)) [
            | inl here ↦
                let e : q ≡ b = ground (arith, here) in
                inr (
                  rw (rw (not_a, here) at after)
                    (second p q r o lo (rw e back) (ground (arith, out)) (ground (arith, out))))
            | inr not_b ↦ elim (Bool-cases (r == b)) [
              | inl here ↦
                  let e : r ≡ b = ground (arith, here) in
                  inr (
                    rw (rw (not_a, not_b, here) at after)
                      (third p q r o lo (rw e back) (ground (arith, out)) (ground (arith, out))))
              | inr not_c ↦ inl (rw (not_a, not_b, not_c) at after)
            ]
          ]
        ]

    hop_blank :
        (p q r : ℕ)
        → t.a ≡ 0
        → At tiles names (p ∷ q ∷ r ∷ [])
        → ToBlock d t st (p ∷ q ∷ r ∷ []) (cells (child tiles o b))
    unfolding swap_in At
    hop_blank p q r z a =
        let same : p ≡ o =
          v.distinct p o (omega (arith, a.0, v.cells)) lo (a.1 ∙ z ∙ sym blank_at) in
        let rest = t.b ∷ t.c ∷ [] in
        let zero_out : mem 0 rest ≡ false = ground (arith, sorted.low, sorted.high) in
        let moved =
          At-child (size d) tiles o b v lo lb blank_at rest (q ∷ r ∷ []) once.1 zero_out ne a.2 in
        let blank_in : b < length (child tiles o b) =
          omega (arith, length-child tiles o b, v.cells, lb) in
        let blank_now : get_or (child tiles o b) b 0 ≡ t.a =
          get_or-child tiles o b b (omega (arith, v.cells, lo)) (omega (arith, v.cells, lb))
          ∙ ground (arith, z) in
        let after = is_cells (b ∷ swap_in (q ∷ r ∷ []) b o) (blank_in, blank_now, moved) in
        let zero : (t.a == 0) ≡ true = ground (arith, z) in
        rw same (elim (Bool-cases (q == b)) [
          | inl here ↦
              let e : q ≡ b = ground (arith, here) in
              let now : cells (child tiles o b) ≡ q ∷ o ∷ r ∷ [] =
                rw here at after ∙ ap (λ x. x ∷ o ∷ r ∷ []) (sym e) in
              rw now (with_second o q r zero (rw e step))
          | inr not_b ↦ elim (Bool-cases (r == b)) [
            | inl here ↦
                let e : r ≡ b = ground (arith, here) in
                let now : cells (child tiles o b) ≡ r ∷ q ∷ o ∷ [] =
                  rw (not_b, here) at after ∙ ap (λ x. x ∷ q ∷ o ∷ []) (sym e) in
                rw now (with_third o q r zero (rw e step))
            | inr not_c ↦
                rw (rw (not_b, not_c) at after)
                  (first o q r b lb step (ground (arith, not_b)) (ground (arith, not_c)))
          ]
        ])

    abbrev block : List ℕ → ℕ
    block u = st.proj (cells u)

    -- The block of a child.
    pub no_blank-child :
        (block (child tiles o b) ≡ block tiles)
        ⊎ (mem (block (child tiles o b)) (neighbors d t st (get_or st.unproj (block tiles) []))
            ≡ true)
    unfolding At
    no_blank-child =
        go (cells tiles) refl
          (locate_correct (size d) tiles v names (0 ∷ 0 ∷ 0 ∷ []) once below refl)
      where
        hop :
            IsCells (size d) 3 (cells tiles)
            → ToBlock d t st (cells tiles) (cells (child tiles o b))
            → mem (block (child tiles o b)) (neighbors d t st (get_or st.unproj (block tiles) []))
              ≡ true
        hop c h =
            rw (numbered.number (cells tiles) c).1
              (Hop-neighbors d t st (cells tiles) (cells (child tiles o b)) c h)

        go :
            (ps : List ℕ)
            → cells tiles ≡ ps
            → At tiles names ps
            → (block (child tiles o b) ≡ block tiles)
              ⊎ (mem
                    (block (child tiles o b))
                    (neighbors d t st (get_or st.unproj (block tiles) []))
                  ≡ true)
        go [] e a = elim a [ ]
        go (p ∷ []) e a = elim a.2 [ ]
        go (p ∷ q ∷ []) e a = elim a.2.2 [ ]
        go (p ∷ q ∷ r ∷ x ∷ ps) e a = elim a.2.2.2 [ ]
        go (p ∷ q ∷ r ∷ []) e a =
            let c : IsCells (size d) 3 (cells tiles) =
              rw e (At-IsCells (size d) tiles names (p ∷ q ∷ r ∷ []) v once a) in
            elim (ℕ_discrete t.a 0) [
              | yes z ↦ inr (hop c (rw e (hop_blank p q r z a)))
              | no nz ↦ elim (hop_no_blank p q r nz a) [
                | inl same ↦ inl (ap st.proj (same ∙ sym e))
                | inr h ↦ inr (hop c (rw e h))
              ]
            ]
