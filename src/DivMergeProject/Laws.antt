-- ===== src/DivMergeProject/Laws.antt =====
-- src/div_merge_project.cc: the merged blocks form a graph again, where none is left over.
use pbnf.Base.{
  ℕ, zero, suc, ◌+◌, ◌-◌, ◌*◌, ◌/◌, ◌%◌, ◌≤◌, ◌<◌, ◌≡◌, ◌≢◌, inl, inr, ap, refl, sym, ◌∙◌, Bool,
  true, false, not, ◌&&◌, ◌||◌, List, [], ◌∷◌, arith, ◌==◌, mem, Bool-cases,
}
use mathlib.Core.Logic.{◌↔◌}
use native.Mathlib.Nat.{div-lt_iff_lt-mul}
use native.Mathlib.Decide.{ℕ_discrete}
use pbnf.NblockGraph.Scope.{Projection, IsProjection, set_insert, mem-set_insert}
use pbnf.DivMergeProject.{
  project, get_num_nblocks, collect, merge, get_successors, get_predecessors, projection,
}

-- Some block of the list is merged into `x`.
hit : ℕ → ℕ → List ℕ → Bool
hit div x [] = false
hit div x (y ∷ l) = (y / div == x) || hit div x l

mem-collect :
    (div b x : ℕ) (l set : List ℕ)
    → mem x (collect div b l set) ≡ ((hit div x l && not (x == b)) || mem x set)
unfolding collect hit
mem-collect div b x [] set = refl
mem-collect div b x (y ∷ l) set = elim (Bool-cases (y / div == b)) [
  | inl self ↦ rw self (mem-collect div b x l set ∙ ground (arith, self))
  | inr other ↦ rw other (
      mem-collect div b x l (set_insert (y / div) set)
      ∙ ground (arith, other, mem-set_insert x (y / div) set))
]

some_hit : (ℕ → List ℕ) → ℕ → ℕ → ℕ → ℕ → ℕ → Bool
some_hit next div b x zero i = false
some_hit next div b x (suc count) i =
    hit div x (next (b * div + i)) || some_hit next div b x count (suc i)

mem-merge :
    (next : ℕ → List ℕ) (div b x count i : ℕ) (set : List ℕ)
    → mem x (merge next div b count i set)
      ≡ ((some_hit next div b x count i && not (x == b)) || mem x set)
unfolding merge some_hit
mem-merge next div b x zero i set = refl
mem-merge next div b x (suc count) i set =
    mem-merge next div b x count (suc i) (collect div b (next (b * div + i)) set)
    ∙ ground (arith, mem-collect div b x (next (b * div + i)) set)

hit-mem : (div x : ℕ) (l : List ℕ) → hit div x l ≡ true → (y : ℕ) × (mem y l ≡ true) × (y / div ≡ x)
unfolding hit
hit-mem div x [] h = cc
hit-mem div x (y ∷ l) h = elim (Bool-cases (y / div == x)) [
  | inl here ↦ (y, ground arith, ground (arith, here))
  | inr there ↦
      let (z, m, e) = hit-mem div x l (ground (arith, h, there)) in (z, ground (arith, m), e)
]

mem-hit : (div y : ℕ) (l : List ℕ) → mem y l ≡ true → hit div (y / div) l ≡ true
unfolding hit
mem-hit div y [] h = cc
mem-hit div y (z ∷ l) h = elim (Bool-cases (z == y)) [
  | inl same ↦ let e : z ≡ y = ground (arith, same) in rw e (ground arith)
  | inr other ↦ ground (arith, mem-hit div y l (ground (arith, h, other)))
]

some_hit-mem :
    (next : ℕ → List ℕ) (div b x count i : ℕ)
    → some_hit next div b x count i ≡ true
    → (j : ℕ) × (y : ℕ) × (j < i + count) × (mem y (next (b * div + j)) ≡ true) × (y / div ≡ x)
unfolding some_hit
some_hit-mem next div b x zero i h = cc
some_hit-mem next div b x (suc count) i h = elim (Bool-cases (hit div x (next (b * div + i)))) [
  | inl here ↦ let (y, m, e) = hit-mem div x (next (b * div + i)) here in (i, y, omega arith, m, e)
  | inr there ↦
      let (j, y, lt, m, e) = some_hit-mem next div b x count (suc i) (ground (arith, h, there)) in
      (j, y, omega (arith, lt), m, e)
]

mem-some_hit :
    (next : ℕ → List ℕ) (div b y j count i : ℕ)
    → i ≤ j
    → j < i + count
    → mem y (next (b * div + j)) ≡ true
    → some_hit next div b (y / div) count i ≡ true
unfolding some_hit
mem-some_hit next div b y j zero i ge lt m = absurd (omega (arith, ge, lt))
mem-some_hit next div b y j (suc count) i ge lt m = elim (ℕ_discrete i j) [
  | yes e ↦ rw e (ground (arith, mem-hit div y (next (b * div + j)) m))
  | no ne ↦ ground (
    arith,
    mem-some_hit next div b y j count (suc i) (omega (arith, ge, ne)) (omega (arith, lt)) m,
  )
]

module _ (f g : ℕ → List ℕ) (div : ℕ) (pos : 0 < div)
    (inverse : (a b : ℕ) → mem a (f b) ≡ mem b (g a)) where
  -- What makes a merged block a neighbour of another.
  merged :
      (x b : ℕ)
      → mem x (merge f div b div 0 []) ≡ true
      → (x ≢ b) × (j : ℕ) × (y : ℕ) × (j < div) × (mem y (f (b * div + j)) ≡ true) × (y / div ≡ x)
  merged x b h =
      let e = mem-merge f div b x div 0 [] in
      let (j, y, lt, m, at) = some_hit-mem f div b x div 0 (ground (arith, e, h)) in
      (ground (arith, e, h), j, y, omega (arith, lt), m, at)

  merge_symm :
      (x b : ℕ) → mem x (merge f div b div 0 []) ≡ true → mem b (merge g div x div 0 []) ≡ true
  merge_symm x b h =
      let (ne, j, y, lt, m, at) = merged x b h in
      let exact : y / div * div + y % div ≡ y = grind arith in
      let whole : x * div + y % div ≡ y = ap (λ z. z * div + y % div) (sym at) ∙ exact in
      let back : mem (b * div + j) (g (x * div + y % div)) ≡ true =
        rw whole (sym (inverse y (b * div + j)) ∙ m) in
      let low : y % div < div = grind arith in
      let quot : (b * div + j) / div ≡ b = grind arith in
      let found =
        mem-some_hit g div x (b * div + j) (y % div) div 0 (omega arith) (omega (arith, low))
          back in
      mem-merge g div x b div 0 [] ∙ ground (arith, ne, rw quot at found)

-- Where `div` is positive and divides the number of blocks of a projection, the projection that
-- merges `div` blocks into one has the successors and the predecessors of one relation between the
-- blocks below `get_num_nblocks`, if the projection below has.
pub div_merge-IsProjection :
    (div : ℕ) (p : Projection)
    → 0 < div
    → IsProjection p
    → p.num_nblocks / div * div ≡ p.num_nblocks
    → IsProjection (projection div p)
unfolding projection get_num_nblocks get_successors get_predecessors
div_merge-IsProjection div p pos ok even = record {
  inverse = λ a b. ground (
    arith,
    merge_symm p.get_predecessors p.get_successors div pos ok.inverse a b,
    merge_symm p.get_successors p.get_predecessors div pos (λ c e. sym (ok.inverse e c)) b a,
  );
  range = λ a b h.
      let (ne, j, y, lt, m, place) =
        merged p.get_predecessors p.get_successors div pos ok.inverse a b h in
      let (ly, lb) = ok.range y (b * div + j) m in
      let quot : (b * div + j) / div ≡ b = grind arith in
      (rw place at (below y ly), rw quot at (below (b * div + j) lb));
}
  where
    below : (z : ℕ) → z < p.num_nblocks → z / div < p.num_nblocks / div
    below z l = (div-lt_iff_lt-mul {k = div} {x = z} {y = p.num_nblocks / div} pos).1 (rw even l)

-- For a positive `div` and a projection that has blocks: the last block is merged into a block
-- below `get_num_nblocks` exactly if `div` divides the number of blocks.
pub last_merged_iff :
    (div : ℕ) (p : Projection)
    → 0 < div
    → 0 < p.num_nblocks
    → (project div (p.num_nblocks - 1) < get_num_nblocks div p)
      ↔ (p.num_nblocks / div * div ≡ p.num_nblocks)
unfolding project get_num_nblocks
last_merged_iff div p pos some =
    let iff = div-lt_iff_lt-mul {k = div} {x = p.num_nblocks - 1} {y = p.num_nblocks / div} pos in
    let le : p.num_nblocks / div * div ≤ p.num_nblocks = grind arith in
    (λ h. omega (arith, iff.0 h, le, some), λ e. iff.1 (omega (arith, e, some)))
