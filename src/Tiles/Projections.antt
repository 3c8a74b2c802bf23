-- ===== src/Tiles/Projections.antt =====
-- src/tiles/tiles.cc: the projections that keep the blank, for any number of kept tiles: the loops
-- number the tuples, and the neighbours of a block are where the blank can move.
pub mod Swap
pub mod Laws
pub mod Graph
pub mod Instances
pub mod Children
pub mod Correct
use pbnf.Base.{
  ℕ, zero, suc, ◌+◌, ◌-◌, ◌*◌, ◌/◌, ◌%◌, ◌≤◌, ◌<◌, ◌≡◌, ◌≢◌, ap, refl, sym, ◌∙◌, inl, inr, Bool,
  true, false, not, ◌&&◌, ◌||◌, List, [], ◌∷◌, ◌++◌, arith, ltb, ◌==◌, if◌then◌else◌, length,
  length-replicate, get_or, mem, Bool-cases, Distinct,
}
use pbnf.NblockGraph.Scope.{Projection, IsProjection}
use pbnf.Tiles.Cells.{around}
use pbnf.Tiles.Domain.{Tiles, TilesState, size}
use pbnf.Tiles.Numbering.{Numbering, empty, enter, loop, locate}
use pbnf.Tiles.Numbering.Laws.{
  Numbered, nest, nest-run, enter_fresh, enter_all, Member-length, number_of, tuple_of,
  id-enter_all, length-enter_all, fresh, tuples, kept,
}
use pbnf.Tiles.Numbering.Count.{
  Inside, falling, kept-tuples, Uniform-tuples, Once-tuples, Inside-Member, Member-Inside,
}
use pbnf.Tiles.Locate.{fresh-Distinct, Distinct-fresh}

-- The tuples that stand for a block.
pub record IsCells (n k : ℕ) (t : List ℕ) : Type 0 where
  pub count : length t ≡ k
  pub inside : Inside n t
  pub distinct : Distinct t

-- The tables are those of a numbering of the tuples, both ways.
pub record IsNumbering (n k : ℕ) (st : Numbering) : Type 0 where
  pub all : st.id ≡ falling n k
  pub number :
      (t : List ℕ) → IsCells n k t → (st.proj t < st.id) × (get_or st.unproj (st.proj t) [] ≡ t)
  pub tuple :
      (b : ℕ)
      → b < st.id
      → IsCells n k (get_or st.unproj b []) × (st.proj (get_or st.unproj b []) ≡ b)
  pub past : (b : ℕ) → st.id ≤ b → get_or st.unproj b [] ≡ []

-- The constructor, for any number of loops.
unfoldable pub fill : ℕ → ℕ → Numbering
fill n k = nest n k enter_fresh (empty (falling n k))

fill-enter_all : (n k : ℕ) → fill n k ≡ enter_all (tuples n k) (empty (falling n k))
unfolding fill
fill-enter_all n k = nest-run n k enter_fresh (empty (falling n k))

get_or-past : (l : List (List ℕ)) (b : ℕ) → length l ≤ b → get_or l b [] ≡ []
unfolding get_or
get_or-past [] b le = refl
get_or-past (t ∷ l) zero le = absurd (omega (arith, le))
get_or-past (t ∷ l) (suc b) le = get_or-past l b (omega (arith, le))

module _ (n k : ℕ) where
  abbrev start : Numbering
  start = empty (falling n k)

  room : start.id + kept (tuples n k) ≤ length start.unproj
  unfolding empty
  room = rw (kept-tuples n k, length-replicate {A = List ℕ} (falling n k) []) (omega arith)

  last : (enter_all (tuples n k) start).id ≡ falling n k
  unfolding empty
  last = id-enter_all (tuples n k) start ∙ rw (kept-tuples n k) (omega arith)

  number :
      (t : List ℕ)
      → IsCells n k t
      → Numbered (enter_all (tuples n k) start) 0 t ((enter_all (tuples n k) start).proj t)
  unfolding empty
  number t v =
      number_of k t (tuples n k) start (Uniform-tuples n k) (Once-tuples n k) room
        (Inside-Member n k t v.count v.inside) (Distinct-fresh t v.distinct)

  tuple :
      (b : ℕ)
      → b < falling n k
      → IsCells n k (get_or (enter_all (tuples n k) start).unproj b [])
        × ((enter_all (tuples n k) start).proj (get_or (enter_all (tuples n k) start).unproj b [])
            ≡ b)
  unfolding empty
  tuple b lt =
      let (t, m, new, v) =
        tuple_of k b (tuples n k) start (Uniform-tuples n k) (Once-tuples n k) room (omega arith)
          (rw (kept-tuples n k) (omega (arith, lt))) in
      rw v.back (
        record {
          count = Member-length k t (tuples n k) (Uniform-tuples n k) m;
          inside = Member-Inside n k t m;
          distinct = fresh-Distinct t new;
        },
        v.number,
      )

  past : (b : ℕ) → falling n k ≤ b → get_or (enter_all (tuples n k) start).unproj b [] ≡ []
  unfolding empty
  past b le =
      get_or-past (enter_all (tuples n k) start).unproj b (
        rw (length-enter_all (tuples n k) start, length-replicate {A = List ℕ} (falling n k) []) le)

  -- The constructor numbers the tuples of different cells from 0 up to `nnblocks`.
  pub fill-IsNumbering : IsNumbering n k (fill n k)
  fill-IsNumbering = rw (fill-enter_all n k) record {
    all = last;
    number = λ t v. let e = number t v in (e.high, e.back);
    tuple = λ b lt. tuple b (rw last at lt);
    past = λ b le. past b (rw last at le);
  }
