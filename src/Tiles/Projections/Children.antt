-- ===== src/Tiles/Projections/Children.antt =====
-- src/tiles/tiles.cc: a child of a configuration is projected to the block itself or to a
-- neighbour of it.
use pbnf.Base.{
  ℕ, suc, ◌<◌, ◌≡◌, ◌≢◌, ap, refl, sym, ◌∙◌, inl, inr, true, false, List, [], ◌∷◌, arith, ◌==◌,
  if◌then◌else◌, length, get_or, mem, Bool-cases, Distinct,
}
use pbnf.Tiles.Cells.{IsStep, IsStep-ne}
use pbnf.Tiles.Domain.{Tiles, size, child, length-child}
use pbnf.Tiles.Hash.Laws.{IsPermutation}
use pbnf.Tiles.Expand.Laws.{get_or-child, child-IsPermutation}
use pbnf.Tiles.Numbering.{Numbering, locate}
use pbnf.Tiles.Numbering.Count.{Inside}
use pbnf.Tiles.Locate.{
  At, At-length, At-absent, At-Inside, At-Distinct, locate_unique, locate_correct,
}
use pbnf.Tiles.Projections.{IsCells, IsNumbering}
use pbnf.Tiles.Projections.Swap.{swap_in}
use pbnf.Tiles.Projections.Laws.{Moved-nearby, nearby}

pub At-IsCells :
    (n : ℕ) (tiles names ps : List ℕ)
    → IsPermutation n tiles
    → Distinct names
    → At tiles names ps
    → IsCells n (length names) ps
At-IsCells n tiles names ps v d a = record {
  count = At-length tiles names ps a;
  inside = At-Inside n tiles v names ps a;
  distinct = At-Distinct n tiles v names ps d a;
}

module _ (n : ℕ) (tiles : List ℕ) (o b : ℕ) (v : IsPermutation n tiles) (lo : o < n) (lb : b < n)
    (blank_at : get_or tiles o 0 ≡ 0) where
  moved_at :
      (j : ℕ)
      → get_or (child tiles o b) j 0
        ≡ (if b == j then 0 else if o == j then get_or tiles b 0 else get_or tiles j 0)
  moved_at j = get_or-child tiles o b j (omega (arith, v.cells, lo)) (omega (arith, v.cells, lb))

  -- Tiles elsewhere stay.
  pub At-stay :
      (names ps : List ℕ)
      → At tiles names ps
      → mem o ps ≡ false
      → mem b ps ≡ false
      → At (child tiles o b) names ps
  unfolding At
  At-stay [] [] a out far = tt
  At-stay [] (p ∷ ps) a out far = elim a [ ]
  At-stay (name ∷ names) [] a out far = elim a [ ]
  At-stay (name ∷ names) (p ∷ ps) a out far = (
    omega (arith, length-child tiles o b, a.0),
    moved_at p ∙ ground (arith, out, far, a.1),
    At-stay names ps a.2 (ground (arith, out)) (ground (arith, far)),
  )

  -- The kept tiles after the move.
  pub At-child :
      (names ps : List ℕ)
      → Distinct names
      → mem 0 names ≡ false
      → o ≢ b
      → At tiles names ps
      → At (child tiles o b) names (swap_in ps b o)
  unfolding At swap_in
  At-child [] [] d z ne a = tt
  At-child [] (p ∷ ps) d z ne a = elim a [ ]
  At-child (name ∷ names) [] d z ne a = elim a [ ]
  At-child (name ∷ names) (p ∷ ps) d z ne a =
      let away : mem o ps ≡ false =
        At-absent n tiles v names ps o lo a.2 (ground (arith, blank_at, z)) in
      elim (Bool-cases (p == b)) [
        | inl same ↦
            let e : p ≡ b = ground (arith, same) in
            let gone : mem b ps ≡ false =
              At-absent n tiles v names ps b lb a.2
                (let f : get_or tiles b 0 ≡ name = rw e at a.1 in rw f d.0) in
            rw same (
              omega (arith, length-child tiles o b, v.cells, lo),
              moved_at o ∙ ground (arith, ne, rw e at a.1),
              At-stay names ps a.2 away gone,
            )
        | inr other ↦
            let apart : p ≢ o = λ e. absurd (
              let f : get_or tiles o 0 ≡ name = rw e at a.1 in
              ground (arith, sym f ∙ blank_at, z)) in
            rw other (
              omega (arith, length-child tiles o b, a.0),
              moved_at p ∙ ground (arith, other, apart, a.1),
              At-child names ps d.1 (ground (arith, z)) ne a.2,
            )
      ]

-- The projections that keep the blank and the tiles `names`.
module _ (d : Tiles) (st : Numbering) (names zeros : List ℕ)
    (numbered : IsNumbering (size d) (suc (length names)) st) (once : Distinct (0 ∷ names))
    (inside : Inside (size d) (0 ∷ names)) (start : length names ≡ length zeros) where
  abbrev block : List ℕ → ℕ
  block tiles = st.proj (locate (0 ∷ names) tiles 0 (0 ∷ zeros))

  pub block-child :
      (tiles : List ℕ) (o b : ℕ)
      → IsPermutation (size d) tiles
      → o < size d
      → b < size d
      → get_or tiles o 0 ≡ 0
      → IsStep d.width o b
      → mem (block (child tiles o b)) (nearby d st (get_or st.unproj (block tiles) [])) ≡ true
  unfolding At Inside
  block-child tiles o b v lo lb blank_at step =
      let ne = IsStep-ne d.width o b step in
      let ps = locate names tiles 0 zeros in
      let a = locate_correct (size d) tiles v names zeros once.1 inside.1 start in
      let lp : o < length tiles = omega (arith, v.cells, lo) in
      let was =
        locate_unique (size d) tiles v (0 ∷ names) (0 ∷ zeros) (o ∷ ps) once inside (ap suc start)
          (lp, blank_at, a) in
      let w = child-IsPermutation (size d) tiles o b v lo lb ne blank_at in
      let into : b < length (child tiles o b) = omega (arith, w.cells, lb) in
      let zero_at = get_or-child tiles o b b lp (omega (arith, v.cells, lb)) ∙ ground arith in
      let is =
        locate_unique (size d) (child tiles o b) w (0 ∷ names) (0 ∷ zeros) (b ∷ swap_in ps b o) once
          inside (ap suc start)
          (
            into,
            zero_at,
            At-child (size d) tiles o b v lo lb blank_at names ps once.1 once.0 ne a,
          ) in
      let c = At-IsCells (size d) tiles (0 ∷ names) (o ∷ ps) v once (lp, blank_at, a) in
      let (lt, back) = numbered.number (o ∷ ps) c in
      let here : block tiles ≡ st.proj (o ∷ ps) = ap st.proj was in
      let there : block (child tiles o b) ≡ st.proj (b ∷ swap_in ps b o) = ap st.proj is in
      rw (here, there, back)
        (Moved-nearby d (length names) st numbered (o ∷ ps) (b ∷ swap_in ps b o) record {
          o = o;
          n = b;
          ps = ps;
          was = refl;
          is = refl;
          step = step;
          low = lo;
          inside = lb;
        })
