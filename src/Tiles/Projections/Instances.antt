-- ===== src/Tiles/Projections/Instances.antt =====
-- src/tiles/tiles.cc: the constructors of `OneTileProject`, `TwoTileProject` and
-- `ThreeTileProject` number the tuples, and the neighbours are those of the moves of the blank.
use pbnf.Base.{ℕ, ◌+◌, ◌-◌, ◌≡◌, refl, sym, ◌∙◌, List, [], ◌∷◌, arith, length, get_or}
use mathlib.Core.Path.{fun_ext}
use pbnf.NblockGraph.Scope.{IsProjection}
use pbnf.Tiles.Domain.{Tiles, size}
use pbnf.Tiles.Numbering.{Numbering}
use pbnf.Tiles.Numbering.Laws.{enter_fresh, fresh, nest}
use pbnf.Tiles.Numbering.Count.{falling}
use pbnf.Tiles.Projections.{IsNumbering, fill, fill-IsNumbering}
use pbnf.Tiles.Projections.Swap.{swap_in}
use pbnf.Tiles.Projections.Laws.{nearby, nearby-cons, get-nearby, nearby-IsGraph}
use pbnf.Tiles.Projections.Graph.{graph-IsProjection}
use pbnf.Tiles.OneTileProject
use pbnf.Tiles.TwoTileProject
use pbnf.Tiles.ThreeTileProject

one_setup : OneTileProject.setup_proj ≡ (λ i j. enter_fresh (i ∷ j ∷ []))
unfolding OneTileProject.setup_proj enter_fresh fresh
one_setup = fun_ext (λ i. fun_ext (λ j. fun_ext (λ st. ground arith)))

one_nnblocks : (n : ℕ) → OneTileProject.nnblocks n ≡ falling n 2
unfolding OneTileProject.nnblocks falling
one_nnblocks n = grind arith

pub one_init : (n : ℕ) → OneTileProject.init n ≡ fill n 2
unfolding OneTileProject.init fill nest
one_init n = rw (one_setup, one_nnblocks n) refl

one_neighbor :
    (st : Numbering) (o p i : ℕ)
    → OneTileProject.neighbor st o p i ≡ st.proj (i ∷ swap_in (p ∷ []) i o)
unfolding OneTileProject.neighbor swap_in
one_neighbor st o p i = ground arith

one_nearby :
    (d : Tiles) (st : Numbering) (t : List ℕ)
    → length t ≡ 2
    → OneTileProject.neighbors d st t ≡ nearby d st t
unfolding OneTileProject.neighbors
one_nearby d st (o ∷ p ∷ []) l = sym (
    nearby-cons d st o (p ∷ [])
    ∙ rw
        (
          sym (one_neighbor st o p (o - 1)),
          sym (one_neighbor st o p (o + 1)),
          sym (one_neighbor st o p (o - d.width)),
          sym (one_neighbor st o p (o + d.width)),
        )
        refl)
one_nearby d st [] l = absurd (omega (arith, l))
one_nearby d st (o ∷ []) l = absurd (omega (arith, l))
one_nearby d st (o ∷ p ∷ x ∷ t) l = absurd (omega (arith, l))

pub one_tables : (n : ℕ) → IsNumbering n 2 (OneTileProject.init n)
one_tables n = rw (one_init n) (fill-IsNumbering n 2)

pub one_neighbors :
    (d : Tiles) (b : ℕ)
    → OneTileProject.get_neighbors d (OneTileProject.init (size d)) b
      ≡ nearby d (OneTileProject.init (size d)) (get_or (OneTileProject.init (size d)).unproj b [])
unfolding OneTileProject.get_neighbors OneTileProject.neighbors
one_neighbors d b =
    let st = OneTileProject.init (size d) in
    get-nearby d 1 st (OneTileProject.neighbors d st) (one_tables (size d)) refl (one_nearby d st) b

pub one_IsProjection : (d : Tiles) → IsProjection (OneTileProject.projection d)
unfolding OneTileProject.projection OneTileProject.get_num_nblocks OneTileProject.get_successors
    OneTileProject.get_predecessors
one_IsProjection d =
    let v = one_tables (size d) in
    graph-IsProjection (size d) 2 (OneTileProject.init (size d)) _ _ v
      (nearby-IsGraph d 1 (OneTileProject.init (size d)) v) (OneTileProject.projection d)
      (one_nnblocks (size d) ∙ sym v.all) (λ b. one_neighbors d b) (λ b. one_neighbors d b)

two_setup : TwoTileProject.setup_proj ≡ (λ i j k. enter_fresh (i ∷ j ∷ k ∷ []))
unfolding TwoTileProject.setup_proj enter_fresh fresh
two_setup = fun_ext (λ i. fun_ext (λ j. fun_ext (λ k. fun_ext (λ st. ground arith))))

two_nnblocks : (n : ℕ) → TwoTileProject.nnblocks n ≡ falling n 3
unfolding TwoTileProject.nnblocks falling
two_nnblocks n = grind arith

pub two_init : (n : ℕ) → TwoTileProject.init n ≡ fill n 3
unfolding TwoTileProject.init fill nest
two_init n = rw (two_setup, two_nnblocks n) refl

two_neighbor :
    (st : Numbering) (o p q i : ℕ)
    → TwoTileProject.neighbor st o p q i ≡ st.proj (i ∷ swap_in (p ∷ q ∷ []) i o)
unfolding TwoTileProject.neighbor swap_in
two_neighbor st o p q i = ground arith

two_nearby :
    (d : Tiles) (st : Numbering) (t : List ℕ)
    → length t ≡ 3
    → TwoTileProject.neighbors d st t ≡ nearby d st t
unfolding TwoTileProject.neighbors
two_nearby d st (o ∷ p ∷ q ∷ []) l = sym (
    nearby-cons d st o (p ∷ q ∷ [])
    ∙ rw
        (
          sym (two_neighbor st o p q (o - 1)),
          sym (two_neighbor st o p q (o + 1)),
          sym (two_neighbor st o p q (o - d.width)),
          sym (two_neighbor st o p q (o + d.width)),
        )
        refl)
two_nearby d st [] l = absurd (omega (arith, l))
two_nearby d st (o ∷ []) l = absurd (omega (arith, l))
two_nearby d st (o ∷ p ∷ []) l = absurd (omega (arith, l))
two_nearby d st (o ∷ p ∷ q ∷ x ∷ t) l = absurd (omega (arith, l))

pub two_tables : (n : ℕ) → IsNumbering n 3 (TwoTileProject.init n)
two_tables n = rw (two_init n) (fill-IsNumbering n 3)

pub two_neighbors :
    (d : Tiles) (b : ℕ)
    → TwoTileProject.get_neighbors d (TwoTileProject.init (size d)) b
      ≡ nearby d (TwoTileProject.init (size d)) (get_or (TwoTileProject.init (size d)).unproj b [])
unfolding TwoTileProject.get_neighbors TwoTileProject.neighbors
two_neighbors d b =
    let st = TwoTileProject.init (size d) in
    get-nearby d 2 st (TwoTileProject.neighbors d st) (two_tables (size d)) refl (two_nearby d st) b

pub two_IsProjection : (d : Tiles) → IsProjection (TwoTileProject.projection d)
unfolding TwoTileProject.projection TwoTileProject.get_num_nblocks TwoTileProject.get_successors
    TwoTileProject.get_predecessors
two_IsProjection d =
    let v = two_tables (size d) in
    graph-IsProjection (size d) 3 (TwoTileProject.init (size d)) _ _ v
      (nearby-IsGraph d 2 (TwoTileProject.init (size d)) v) (TwoTileProject.projection d)
      (two_nnblocks (size d) ∙ sym v.all) (λ b. two_neighbors d b) (λ b. two_neighbors d b)

three_setup : ThreeTileProject.setup_proj ≡ (λ i j k l. enter_fresh (i ∷ j ∷ k ∷ l ∷ []))
unfolding ThreeTileProject.setup_proj enter_fresh fresh
three_setup =
    fun_ext (λ i. fun_ext (λ j. fun_ext (λ k. fun_ext (λ l. fun_ext (λ st. ground arith)))))

three_nnblocks : (n : ℕ) → ThreeTileProject.nnblocks n ≡ falling n 4
unfolding ThreeTileProject.nnblocks falling
three_nnblocks n = grind arith

pub three_init : (n : ℕ) → ThreeTileProject.init n ≡ fill n 4
unfolding ThreeTileProject.init fill nest
three_init n = rw (three_setup, three_nnblocks n) refl

three_neighbor :
    (st : Numbering) (o p q r i : ℕ)
    → ThreeTileProject.get_neighbor st o p q r i ≡ st.proj (i ∷ swap_in (p ∷ q ∷ r ∷ []) i o)
unfolding ThreeTileProject.get_neighbor swap_in
three_neighbor st o p q r i = ground arith

three_nearby :
    (d : Tiles) (st : Numbering) (t : List ℕ)
    → length t ≡ 4
    → ThreeTileProject.neighbors d st t ≡ nearby d st t
unfolding ThreeTileProject.neighbors
three_nearby d st (o ∷ p ∷ q ∷ r ∷ []) l = sym (
    nearby-cons d st o (p ∷ q ∷ r ∷ [])
    ∙ rw
        (
          sym (three_neighbor st o p q r (o - 1)),
          sym (three_neighbor st o p q r (o + 1)),
          sym (three_neighbor st o p q r (o - d.width)),
          sym (three_neighbor st o p q r (o + d.width)),
        )
        refl)
three_nearby d st [] l = absurd (omega (arith, l))
three_nearby d st (o ∷ []) l = absurd (omega (arith, l))
three_nearby d st (o ∷ p ∷ []) l = absurd (omega (arith, l))
three_nearby d st (o ∷ p ∷ q ∷ []) l = absurd (omega (arith, l))
three_nearby d st (o ∷ p ∷ q ∷ r ∷ x ∷ t) l = absurd (omega (arith, l))

pub three_tables : (n : ℕ) → IsNumbering n 4 (ThreeTileProject.init n)
three_tables n = rw (three_init n) (fill-IsNumbering n 4)

pub three_neighbors :
    (d : Tiles) (b : ℕ)
    → ThreeTileProject.get_neighbors d (ThreeTileProject.init (size d)) b
      ≡ nearby d
          (ThreeTileProject.init (size d))
          (get_or (ThreeTileProject.init (size d)).unproj b [])
unfolding ThreeTileProject.get_neighbors ThreeTileProject.neighbors
three_neighbors d b =
    let st = ThreeTileProject.init (size d) in
    get-nearby d 3 st (ThreeTileProject.neighbors d st) (three_tables (size d)) refl
      (three_nearby d st) b

pub three_IsProjection : (d : Tiles) → IsProjection (ThreeTileProject.projection d)
unfolding ThreeTileProject.projection ThreeTileProject.get_num_nblocks
    ThreeTileProject.get_successors ThreeTileProject.get_predecessors
three_IsProjection d =
    let v = three_tables (size d) in
    graph-IsProjection (size d) 4 (ThreeTileProject.init (size d)) _ _ v
      (nearby-IsGraph d 3 (ThreeTileProject.init (size d)) v) (ThreeTileProject.projection d)
      (three_nnblocks (size d) ∙ sym v.all) (λ b. three_neighbors d b) (λ b. three_neighbors d b)
