-- ===== src/Tiles/Projections/Laws.antt =====
-- src/tiles/tiles.cc: `get_neighbors` of the projections that keep the blank, for any number of
-- kept tiles.
use pbnf.Base.{
  ℕ, suc, ◌+◌, ◌-◌, ◌/◌, ◌%◌, ◌<◌, ◌≡◌, ap, refl, sym, ◌∙◌, inl, inr, Bool, true, false, List, [],
  ◌∷◌, ◌++◌, arith, ltb, ◌==◌, if◌then◌else◌, length, get_or, mem, Bool-cases,
}
use native.Mathlib.Decide.{dec_lt}
use pbnf.Tiles.Cells.{IsStep, IsStep_symm, IsStep-ne, around, mem-around_iff}
use pbnf.Tiles.Domain.{Tiles, size}
use pbnf.Tiles.Numbering.{Numbering}
use pbnf.Tiles.Numbering.Count.{Inside}
use pbnf.Tiles.Projections.{IsCells, IsNumbering}
use pbnf.Tiles.Projections.Graph.{IsGraph}
use pbnf.Tiles.Projections.Swap.{swap_in, swap_in-swap_in, IsCells-swap_in}

-- The blocks when the blank moves from `o` to one of the cells.
blocks : Numbering → List ℕ → ℕ → List ℕ → List ℕ
blocks st ps o [] = []
blocks st ps o (i ∷ l) = st.proj (i ∷ swap_in ps i o) ∷ blocks st ps o l

blocks-append :
    (st : Numbering) (ps : List ℕ) (o : ℕ) (a b : List ℕ)
    → blocks st ps o (a ++ b) ≡ blocks st ps o a ++ blocks st ps o b
unfolding blocks
blocks-append st ps o [] b = refl
blocks-append st ps o (x ∷ a) b =
    ap (λ l. st.proj (x ∷ swap_in ps x o) ∷ l) (blocks-append st ps o a b)

blocks-one :
    (st : Numbering) (ps : List ℕ) (o : ℕ) (c : Bool) (n : ℕ)
    → blocks st ps o (if c then n ∷ [] else [])
      ≡ (if c then st.proj (n ∷ swap_in ps n o) ∷ [] else [])
unfolding blocks
blocks-one st ps o true n = refl
blocks-one st ps o false n = refl

-- `get_neighbors` on the cells of a block.
pub nearby : Tiles → Numbering → List ℕ → List ℕ
nearby d st [] = []
nearby d st (o ∷ ps) = blocks st ps o (around d.width d.height o)

-- The neighbours in the order of the code: left, right, up and down.
pub nearby-cons :
    (d : Tiles) (st : Numbering) (o : ℕ) (ps : List ℕ)
    → nearby d st (o ∷ ps)
      ≡ (if ltb 0 (o % d.width) then st.proj ((o - 1) ∷ swap_in ps (o - 1) o) ∷ [] else [])
        ++ (if ltb (o % d.width) (d.width - 1)
            then st.proj ((o + 1) ∷ swap_in ps (o + 1) o) ∷ []
            else [])
        ++ (if ltb 0 (o / d.width)
            then st.proj ((o - d.width) ∷ swap_in ps (o - d.width) o) ∷ []
            else [])
        ++ (if ltb (o / d.width) (d.height - 1)
            then st.proj ((o + d.width) ∷ swap_in ps (o + d.width) o) ∷ []
            else [])
unfolding nearby around
nearby-cons d st o ps = simp (blocks-append, blocks-one)

mem-blocks :
    (st : Numbering) (ps : List ℕ) (o a : ℕ) (l : List ℕ)
    → mem a (blocks st ps o l) ≡ true
    → (i : ℕ) × (mem i l ≡ true) × (a ≡ st.proj (i ∷ swap_in ps i o))
unfolding blocks
mem-blocks st ps o a [] h = cc
mem-blocks st ps o a (x ∷ l) h = elim (Bool-cases (st.proj (x ∷ swap_in ps x o) == a)) [
  | inl same ↦ (x, ground arith, ground (arith, same))
  | inr other ↦
      let (i, m, e) = mem-blocks st ps o a l (ground (arith, h, other)) in (i, ground (arith, m), e)
]

blocks-mem :
    (st : Numbering) (ps : List ℕ) (o i : ℕ) (l : List ℕ)
    → mem i l ≡ true
    → mem (st.proj (i ∷ swap_in ps i o)) (blocks st ps o l) ≡ true
unfolding blocks
blocks-mem st ps o i [] h = cc
blocks-mem st ps o i (x ∷ l) h = elim (Bool-cases (x == i)) [
  | inl same ↦ let e : x ≡ i = ground (arith, same) in rw e (ground arith)
  | inr other ↦ ground (arith, other, blocks-mem st ps o i l (ground (arith, h, other)))
]

module _ (d : Tiles) (k : ℕ) (st : Numbering) (v : IsNumbering (size d) (suc k) st) where
  wide : (o : ℕ) → o < size d → 0 < d.width
  wide o lt = elim (Bool-cases (ltb 0 d.width)) [
    | inl more ↦ ground (arith, more)
    | inr empty ↦ let e : d.width ≡ 0 = ground (arith, empty) in absurd (omega (arith, rw e at lt))
  ]

  -- A move of the blank from `o` to `n`, with the kept tiles in `ps`, and back.
  pub record Moved (t u : List ℕ) : Type 0 where
    pub o : ℕ
    pub n : ℕ
    pub ps : List ℕ
    pub was : t ≡ o ∷ ps
    pub is : u ≡ n ∷ swap_in ps n o
    pub step : IsStep d.width o n
    pub low : o < size d
    pub inside : n < size d

  -- Where the blank can move, there is a neighbour.
  pub Moved-nearby : (t u : List ℕ) → Moved t u → mem (st.proj u) (nearby d st t) ≡ true
  unfolding nearby
  Moved-nearby t u m =
      rw (m.was, m.is)
        (blocks-mem st m.ps m.o m.n (around d.width d.height m.o)
          ((mem-around_iff d.width d.height m.o m.n (wide m.o m.low) m.low).1 (m.inside, m.step)))

  nearby-Moved :
      (t : List ℕ) (a : ℕ)
      → IsCells (size d) (suc k) t
      → mem a (nearby d st t) ≡ true
      → (u : List ℕ) × Moved t u × (a ≡ st.proj u)
  unfolding nearby Inside
  nearby-Moved [] a c h = cc
  nearby-Moved (o ∷ ps) a c h =
      let (i, m, e) = mem-blocks st ps o a (around d.width d.height o) h in
      let lt = c.inside.0 in
      let (less, step) = (mem-around_iff d.width d.height o i (wide o lt) lt).0 m in
      (
        i ∷ swap_in ps i o,
        record {
          o = o;
          n = i;
          ps = ps;
          was = refl;
          is = refl;
          step = step;
          low = lt;
          inside = less;
        },
        e,
      )

  Moved-IsCells :
      (t u : List ℕ) → IsCells (size d) (suc k) t → Moved t u → IsCells (size d) (suc k) u
  Moved-IsCells t u c m = rw m.is (
      IsCells-swap_in (size d) (suc k) m.ps m.n m.o (rw m.was at c) m.inside
        (IsStep-ne d.width m.o m.n m.step))

  Moved-symm : (t u : List ℕ) → IsCells (size d) (suc k) t → Moved t u → Moved u t
  Moved-symm t u c m = record {
    o = m.n;
    n = m.o;
    ps = swap_in m.ps m.n m.o;
    was = m.is;
    is =
        let v = rw m.was at c in
        m.was ∙ ap (λ l. m.o ∷ l) (sym (swap_in-swap_in m.ps m.n m.o v.distinct.0));
    step = IsStep_symm d.width m.o m.n m.step;
    low = m.inside;
    inside = m.low;
  }

  pub nearby-IsGraph : IsGraph (size d) (suc k) st (nearby d st) Moved
  unfolding nearby
  nearby-IsGraph = record {
    none = refl;
    from = nearby-Moved;
    to = λ t u c m. Moved-nearby t u m;
    cells = Moved-IsCells;
    symm = Moved-symm;
  }

-- A function that goes by these neighbours on the tuples, and has none for a number past the end.
pub get-nearby :
    (d : Tiles) (k : ℕ) (st : Numbering) (f : List ℕ → List ℕ)
    → IsNumbering (size d) (suc k) st
    → f [] ≡ []
    → ((t : List ℕ) → length t ≡ suc k → f t ≡ nearby d st t)
    → (b : ℕ) → f (get_or st.unproj b []) ≡ nearby d st (get_or st.unproj b [])
unfolding nearby
get-nearby d k st f v none same b = elim (dec_lt b st.id) [
  | yes lt ↦ same (get_or st.unproj b []) (v.tuple b lt).0.count
  | no high ↦ let e = v.past b (omega (arith, high)) in rw e none
]
