-- ===== src/Tiles/TwoTileNoBlankProject/Laws.antt =====
-- src/tiles/tiles.cc: `init` and `get_neighbors` of `TwoTileNoBlankProject`.
use pbnf.Base.{
  ℕ, ◌<◌, ◌≡◌, refl, sym, ◌∙◌, inl, inr, true, ◌&&◌, List, [], ◌∷◌, ◌++◌, arith, ltb, ◌==◌,
  if◌then◌else◌, mem, Bool-cases,
}
use mathlib.Core.Path.{fun_ext}
use pbnf.NblockGraph.Scope.{IsProjection}
use pbnf.Tiles.Cells.{IsStep}
use pbnf.Tiles.Domain.{Tiles, size}
use pbnf.Tiles.Numbering.{Numbering}
use pbnf.Tiles.Numbering.Laws.{enter_fresh, fresh, nest}
use pbnf.Tiles.Numbering.Count.{Inside, falling}
use pbnf.Tiles.Projections.{IsCells, IsNumbering, fill, fill-IsNumbering}
use pbnf.Tiles.Projections.Graph.{IsGraph, graph-IsProjection}
use pbnf.Tiles.TwoTileNoBlankProject.{
  Names, sort, nnblocks, setup_proj, init, move_a, move_b, move_c, four, neighbors, get_neighbors,
  get_successors, get_predecessors, get_num_nblocks, projection,
}
use pbnf.Tiles.TwoTileNoBlankProject.Hops.{
  Hop, first, second, third, with_second, with_third, Hop_symm, Hop-IsCells, mem-append, mem-four,
  four-mem,
}

mem-three :
    (x : ℕ) (a b c : List ℕ)
    → mem x (a ++ b ++ c) ≡ (if mem x a then true else if mem x b then true else mem x c)
mem-three x a b c = ground (arith, mem-append x (a ++ b) c, mem-append x a b)

setup : setup_proj ≡ (λ i j k. enter_fresh (i ∷ j ∷ k ∷ []))
unfolding setup_proj enter_fresh fresh
setup = fun_ext (λ i. fun_ext (λ j. fun_ext (λ k. fun_ext (λ st. ground arith))))

nnblocks-falling : (n : ℕ) → nnblocks n ≡ falling n 3
unfolding nnblocks falling
nnblocks-falling n = grind arith

pub init-IsNumbering : (n : ℕ) → IsNumbering n 3 (init n)
init-IsNumbering n = rw (same) (fill-IsNumbering n 3)
  where
    same : init n ≡ fill n 3
    same = unfold init in unfold fill in unfold nest in rw (setup, nnblocks-falling n) refl

module _ (d : Tiles) (t : Names) (st : Numbering) where
  abbrev pub ToBlock : List ℕ → List ℕ → Type 0
  ToBlock = Hop d.width (size d) (t.a == 0)

  Target : List ℕ → ℕ → Type 0
  Target cells x = (u : List ℕ) × ToBlock cells u × (x ≡ st.proj u)

  move_a-Hop :
      (a b c i x : ℕ)
      → i < size d
      → IsStep d.width a i
      → mem x (move_a t st a b c i) ≡ true
      → Target (a ∷ b ∷ c ∷ []) x
  unfolding move_a Target
  move_a-Hop a b c i x lt s h = elim (Bool-cases (t.a == 0 && i == b)) [
    | inl swaps ↦
        let e : i ≡ b = ground (arith, swaps) in
        (
          b ∷ a ∷ c ∷ [],
          with_second a b c (ground (arith, swaps)) (rw e at s),
          rw (sym e) (ground (arith, h, swaps)),
        )
    | inr stays ↦ elim (Bool-cases (t.a == 0 && i == c)) [
      | inl swaps ↦
          let e : i ≡ c = ground (arith, swaps) in
          (
            c ∷ b ∷ a ∷ [],
            with_third a b c (ground (arith, swaps)) (rw e at s),
            rw (sym e) (ground (arith, h, swaps, stays)),
          )
      | inr alone ↦ (
        i ∷ b ∷ c ∷ [],
        first a b c i lt s (ground (arith, h, stays, alone)) (ground (arith, h, stays, alone)),
        ground (arith, h, stays, alone),
      )
    ]
  ]

  move_b-Hop :
      (a b c i x : ℕ)
      → i < size d
      → IsStep d.width b i
      → mem x (move_b st a b c i) ≡ true
      → Target (a ∷ b ∷ c ∷ []) x
  unfolding move_b Target
  move_b-Hop a b c i x lt s h = (
    a ∷ i ∷ c ∷ [],
    second a b c i lt s (ground (arith, h)) (ground (arith, h)),
    ground (arith, h),
  )

  move_c-Hop :
      (a b c i x : ℕ)
      → i < size d
      → IsStep d.width c i
      → mem x (move_c st a b c i) ≡ true
      → Target (a ∷ b ∷ c ∷ []) x
  unfolding move_c Target
  move_c-Hop a b c i x lt s h = (
    a ∷ b ∷ i ∷ [],
    third a b c i lt s (ground (arith, h)) (ground (arith, h)),
    ground (arith, h),
  )

  wide : (p : ℕ) → p < size d → 0 < d.width
  wide p lt = elim (Bool-cases (ltb 0 d.width)) [
    | inl more ↦ ground (arith, more)
    | inr empty ↦ let e : d.width ≡ 0 = ground (arith, empty) in absurd (omega (arith, rw e at lt))
  ]

  neighbors-Hop :
      (cells : List ℕ) (x : ℕ)
      → IsCells (size d) 3 cells
      → mem x (neighbors d t st cells) ≡ true
      → Target cells x
  unfolding neighbors Inside
  neighbors-Hop (a ∷ b ∷ c ∷ []) x v h =
      let w = wide a v.inside.0 in
      let split =
        mem-three x (four d a (move_a t st a b c)) (four d b (move_b st a b c))
          (four d c (move_c st a b c)) in
      elim (Bool-cases (mem x (four d a (move_a t st a b c)))) [
        | inl here ↦
            let (i, lt, s, at) = mem-four d x a (move_a t st a b c) w v.inside.0 here in
            move_a-Hop a b c i x lt s at
        | inr later ↦ elim (Bool-cases (mem x (four d b (move_b st a b c)))) [
          | inl here ↦
              let (i, lt, s, at) = mem-four d x b (move_b st a b c) w v.inside.1.0 here in
              move_b-Hop a b c i x lt s at
          | inr last ↦
              let (i, lt, s, at) =
                mem-four d x c (move_c st a b c) w v.inside.1.1.0
                  (ground (arith, split, h, later, last)) in
              move_c-Hop a b c i x lt s at
        ]
      ]
  neighbors-Hop _ x v h = cc

  module _ (a b c x : ℕ) where
    by_a :
        mem x (four d a (move_a t st a b c)) ≡ true
        → mem x (neighbors d t st (a ∷ b ∷ c ∷ [])) ≡ true
    unfolding neighbors
    by_a h =
        mem-three x (four d a (move_a t st a b c)) (four d b (move_b st a b c))
          (four d c (move_c st a b c))
        ∙ ground (arith, h)

    by_b :
        mem x (four d b (move_b st a b c)) ≡ true → mem x (neighbors d t st (a ∷ b ∷ c ∷ [])) ≡ true
    unfolding neighbors
    by_b h =
        mem-three x (four d a (move_a t st a b c)) (four d b (move_b st a b c))
          (four d c (move_c st a b c))
        ∙ ground (arith, h)

    by_c :
        mem x (four d c (move_c st a b c)) ≡ true → mem x (neighbors d t st (a ∷ b ∷ c ∷ [])) ≡ true
    unfolding neighbors
    by_c h =
        mem-three x (four d a (move_a t st a b c)) (four d b (move_b st a b c))
          (four d c (move_c st a b c))
        ∙ ground (arith, h)

  pub Hop-neighbors :
      (cells u : List ℕ)
      → IsCells (size d) 3 cells
      → ToBlock cells u
      → mem (st.proj u) (neighbors d t st cells) ≡ true
  unfolding Inside move_a move_b move_c
  Hop-neighbors cells u v (first a b c i lt s p q) = by_a a b c _ (
      four-mem d _ a i (move_a t st a b c) (wide a v.inside.0) v.inside.0 lt s
        (ground (arith, p, q)))
  Hop-neighbors cells u v (second a b c i lt s p q) = by_b a b c _ (
      four-mem d _ b i (move_b st a b c) (wide a v.inside.0) v.inside.1.0 lt s
        (ground (arith, p, q)))
  Hop-neighbors cells u v (third a b c i lt s p q) = by_c a b c _ (
      four-mem d _ c i (move_c st a b c) (wide a v.inside.0) v.inside.1.1.0 lt s
        (ground (arith, p, q)))
  Hop-neighbors cells u v (with_second a b c z s) = by_a a b c _ (
      four-mem d _ a b (move_a t st a b c) (wide a v.inside.0) v.inside.0 v.inside.1.0 s
        (ground (arith, z)))
  Hop-neighbors cells u v (with_third a b c z s) = by_a a b c _ (
      four-mem d _ a c (move_a t st a b c) (wide a v.inside.0) v.inside.0 v.inside.1.1.0 s
        (ground (arith, z, v.distinct.1.0)))

  pub neighbors-IsGraph : IsGraph (size d) 3 st (neighbors d t st) ToBlock
  unfolding neighbors Target
  neighbors-IsGraph = record {
    none = refl;
    from = neighbors-Hop;
    to = Hop-neighbors;
    cells = Hop-IsCells d.width (size d) (t.a == 0);
    symm = Hop_symm d.width (size d) (t.a == 0);
  }

pub no_blank-IsProjection : (d : Tiles) (t : Names) → IsProjection (projection d t)
unfolding projection get_num_nblocks get_successors get_predecessors get_neighbors
no_blank-IsProjection d t =
    let v = init-IsNumbering (size d) in
    graph-IsProjection (size d) 3 (init (size d)) _ _ v
      (neighbors-IsGraph d (sort t) (init (size d))) (projection d t)
      (nnblocks-falling (size d) ∙ sym v.all) (λ b. refl) (λ b. refl)
