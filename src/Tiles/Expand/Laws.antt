-- ===== src/Tiles/Expand/Laws.antt =====
-- src/tiles/tiles.cc: the children are the configurations one move away, with their values right.
use pbnf.Base.{
  ℕ, ◌+◌, ◌*◌, ◌%◌, ◌^◌, ◌≤◌, ◌<◌, ◌≡◌, ◌≢◌, refl, ◌∙◌, inl, inr, Bool, true, false, ◌&&◌, List, [],
  ◌∷◌, ◌++◌, Option, arith, ltb, ◌==◌, if◌then◌else◌, length, set, get_or, length-set, get_or-set,
  mem, Bool-cases,
}
use mathlib.Core.Logic.{◌↔◌}
use pbnf.Tiles.Cells.{IsStep, around, mem-around_iff}
use pbnf.Tiles.Domain.{Tiles, TilesState, size, child, length-child}
use pbnf.Tiles.Hash.{compute_hash}
use pbnf.Tiles.Hash.Laws.{IsPermutation}
use pbnf.Tiles.Manhattan.{u64, lookup_dist, compute, compute_full}
use pbnf.Tiles.Expand.{new_state, initial_state, allowed, slide, expand}

pub get_or-child :
    (t : List ℕ) (o n j : ℕ)
    → o < length t
    → n < length t
    → get_or (child t o n) j 0
      ≡ (if n == j then 0 else if o == j then get_or t n 0 else get_or t j 0)
unfolding child
get_or-child t o n j lo ln =
    get_or-set (set t o (get_or t n 0)) n j 0 0 (omega (arith, length-set t o (get_or t n 0)))
    ∙ ground (arith, get_or-set t o j (get_or t n 0) 0 lo)

module _ (n : ℕ) (t : List ℕ) (o b : ℕ) (p : IsPermutation n t) (lo : o < n) (lb : b < n)
    (ne : o ≢ b) (zero_at : get_or t o 0 ≡ 0) where
  at :
      (j : ℕ)
      → get_or (child t o b) j 0
        ≡ (if b == j then 0 else if o == j then get_or t b 0 else get_or t j 0)
  at j = get_or-child t o b j (omega (arith, p.cells, lo)) (omega (arith, p.cells, lb))

  length_child : length (child t o b) ≡ n
  length_child = length-child t o b ∙ p.cells

  pub child-IsPermutation : IsPermutation n (child t o b)
  child-IsPermutation = record {
    cells = length_child;
    below = λ j h. ground (arith, at j, p.below j, p.below b);
    distinct = λ j k h l e. ground (
      arith,
      at j,
      at k,
      e,
      zero_at,
      p.distinct j k h l,
      p.distinct o b,
      p.distinct o j,
      p.distinct o k,
      p.distinct b j,
      p.distinct b k,
    );
  }

-- The cells add up to the range of an int: each distance is at most `m`.
pub record IsRoomy (d : Tiles) (m : ℕ) : Type 0 where
  pub each : (x i : ℕ) → lookup_dist d x i ≤ m
  pub total : size d * m < 2 ^ 31

-- A configuration that the search holds: its cells are a permutation with the blank where it is
-- said to be, its h is the full distance, and its hash is that of the cells.
pub record IsState (d : Tiles) (guided : Bool) (s : TilesState) : Type 0 where
  pub cells : IsPermutation (size d) s.tiles
  pub inside : s.blank < size d
  pub blank_at : get_or s.tiles s.blank 0 ≡ 0
  pub h : s.h ≡ (if guided then compute_full d s.tiles else 0)
  pub hash_val : s.hash_val ≡ compute_hash s.tiles

pub initial_state-IsState :
    (d : Tiles) (guided : Bool) (t : List ℕ) (b : ℕ)
    → IsPermutation (size d) t
    → b < size d
    → get_or t b 0 ≡ 0
    → IsState d guided (initial_state d guided t b)
unfolding initial_state new_state compute
initial_state-IsState d guided t b p lt at = record {
  cells = p;
  inside = lt;
  blank_at = at;
  h = refl;
  hash_val = refl;
}

-- A child of `s` with the blank at `n`, and what the move back to the blank of `s` leads to.
pub record IsChild (d : Tiles) (guided : Bool) (s : TilesState) (n : ℕ) (r : TilesState)
    : Type 0 where
  pub state : IsState d guided r
  pub blank : r.blank ≡ n
  pub cost : r.c ≡ d.cost (get_or s.tiles n 0)
  pub path : r.g ≡ (s.g + d.cost (get_or s.tiles n 0)) % u64
  pub back : child r.tiles n s.blank ≡ s.tiles

pub All : (TilesState → Type 0) → List TilesState → Type 0
All p [] = Unit
All p (r ∷ l) = p r × All p l

unfoldable pub blanks : List TilesState → List ℕ
blanks [] = []
blanks (r ∷ l) = r.blank ∷ blanks l

module _ (d : Tiles) (guided : Bool) (s : TilesState) (gp : Option TilesState) where
  -- The children of those of the cells that are allowed.
  kids : List ℕ → List TilesState
  kids [] = []
  kids (n ∷ l) = if allowed gp n then slide d guided s n ∷ kids l else kids l

  kids-append : (a b : List ℕ) → kids (a ++ b) ≡ kids a ++ kids b
  unfolding kids
  kids-append [] b = refl
  kids-append (x ∷ a) b = elim (Bool-cases (allowed gp x)) [
    | inl free ↦ rw (free, kids-append a b) refl
    | inr other ↦ rw (other, kids-append a b) refl
  ]

  kids-one :
      (c : Bool) (n : ℕ)
      → kids (if c then n ∷ [] else [])
        ≡ (if c && allowed gp n then slide d guided s n ∷ [] else [])
  unfolding kids
  kids-one true n = refl
  kids-one false n = refl

  expand-kids : expand d guided s gp ≡ kids (around d.width d.height s.blank)
  unfolding expand around
  expand-kids = simp (kids-append, kids-one)

  All-kids :
      (p : TilesState → Type 0) (l : List ℕ)
      → ((n : ℕ) → mem n l ≡ true → p (slide d guided s n))
      → All p (kids l)
  unfolding kids All
  All-kids p [] h = tt
  All-kids p (x ∷ l) h = elim (Bool-cases (allowed gp x)) [
    | inl free ↦ rw free (h x (ground arith), All-kids p l (λ n m. h n (ground (arith, m))))
    | inr other ↦ rw other (All-kids p l (λ n m. h n (ground (arith, m))))
  ]

module _ (d : Tiles) (guided : Bool) (s : TilesState) (gp : Option TilesState)
    (inside : s.blank < size d) where
  wide : 0 < d.width
  wide = elim (Bool-cases (ltb 0 d.width)) [
    | inl more ↦ ground (arith, more)
    | inr empty ↦
        let e : d.width ≡ 0 = ground (arith, empty) in absurd (omega (arith, rw e at inside))
  ]

  near :
      (n : ℕ)
      → (mem n (around d.width d.height s.blank) ≡ true) ↔ ((n < size d) × IsStep d.width s.blank n)
  near n = mem-around_iff d.width d.height s.blank n wide inside

  All-near :
      (p : TilesState → Type 0)
      → ((n : ℕ) → n < size d → IsStep d.width s.blank n → p (slide d guided s n))
      → All p (kids d guided s gp (around d.width d.height s.blank))
  All-near p h = All-kids d guided s gp p _ (λ n m. let (lt, step) = (near n).0 m in h n lt step)

  -- What holds of the children one step away holds of what `expand` gives.
  pub All-expand :
      (p : TilesState → Type 0)
      → ((n : ℕ) → n < size d → IsStep d.width s.blank n → p (slide d guided s n))
      → All p (expand d guided s gp)
  All-expand p h = rw (expand-kids d guided s gp) (All-near p h)

-- The result of `expand` consists of the configurations one move away other than the parent's.
pub record IsExpanded (d : Tiles) (guided : Bool) (s : TilesState) (gp : Option TilesState)
    (l : List TilesState) : Type 0 where
  pub children : All (λ r. IsChild d guided s r.blank r) l
  pub complete :
      (n : ℕ)
      → (mem n (blanks l) ≡ true)
        ↔ ((n < size d) × (IsStep d.width s.blank n × (allowed gp n ≡ true)))
