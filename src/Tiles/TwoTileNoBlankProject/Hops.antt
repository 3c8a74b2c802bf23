-- ===== src/Tiles/TwoTileNoBlankProject/Hops.antt =====
-- src/tiles/tiles.cc: the blocks that are neighbours under `TwoTileNoBlankProject`.
use pbnf.Base.{
  ℕ, ◌<◌, ◌≡◌, ◌≢◌, ap, refl, sym, ◌∙◌, inl, inr, Bool, true, false, List, [], ◌∷◌, ◌++◌, arith,
  ◌==◌, if◌then◌else◌, mem, Bool-cases,
}
use pbnf.Tiles.Cells.{IsStep, IsStep_symm, around, mem-around_iff}
use pbnf.Tiles.Domain.{Tiles, size}
use pbnf.Tiles.Numbering.Count.{Inside}
use pbnf.Tiles.Projections.{IsCells}
use pbnf.Tiles.TwoTileNoBlankProject.{four}

-- How the cells of the three tiles change: one of them moves to a cell that has none, or the
-- first, which is the blank, changes places with another.
pub data Hop (w n : ℕ) (blank : Bool) : List ℕ → List ℕ → Type 0 where
  first :
      (a b c i : ℕ)
      → i < n
      → IsStep w a i
      → i ≢ b
      → i ≢ c
      → Hop w n blank (a ∷ b ∷ c ∷ []) (i ∷ b ∷ c ∷ [])
  second :
      (a b c i : ℕ)
      → i < n
      → IsStep w b i
      → i ≢ a
      → i ≢ c
      → Hop w n blank (a ∷ b ∷ c ∷ []) (a ∷ i ∷ c ∷ [])
  third :
      (a b c i : ℕ)
      → i < n
      → IsStep w c i
      → i ≢ a
      → i ≢ b
      → Hop w n blank (a ∷ b ∷ c ∷ []) (a ∷ b ∷ i ∷ [])
  with_second :
      (a b c : ℕ) → blank ≡ true → IsStep w a b → Hop w n blank (a ∷ b ∷ c ∷ []) (b ∷ a ∷ c ∷ [])
  with_third :
      (a b c : ℕ) → blank ≡ true → IsStep w a c → Hop w n blank (a ∷ b ∷ c ∷ []) (c ∷ b ∷ a ∷ [])

module _ (w n : ℕ) (blank : Bool) where
  pub Hop_symm : (t u : List ℕ) → IsCells n 3 t → Hop w n blank t u → Hop w n blank u t
  unfolding Inside
  Hop_symm t u v (first a b c i lt s p q) =
      first i b c a v.inside.0 (IsStep_symm w a i s) (ground (arith, v.distinct.0))
        (ground (arith, v.distinct.0))
  Hop_symm t u v (second a b c i lt s p q) =
      second a i c b v.inside.1.0 (IsStep_symm w b i s) (ground (arith, v.distinct.0))
        (ground (arith, v.distinct.1.0))
  Hop_symm t u v (third a b c i lt s p q) =
      third a b i c v.inside.1.1.0 (IsStep_symm w c i s) (ground (arith, v.distinct.0))
        (ground (arith, v.distinct.1.0))
  Hop_symm t u v (with_second a b c z s) = with_second b a c z (IsStep_symm w a b s)
  Hop_symm t u v (with_third a b c z s) = with_third c b a z (IsStep_symm w a c s)

  pub Hop-IsCells : (t u : List ℕ) → IsCells n 3 t → Hop w n blank t u → IsCells n 3 u
  unfolding Inside
  Hop-IsCells t u v (first a b c i lt s p q) = record {
    count = refl;
    inside = (lt, v.inside.1);
    distinct = (ground (arith, p, q), v.distinct.1);
  }
  Hop-IsCells t u v (second a b c i lt s p q) = record {
    count = refl;
    inside = (v.inside.0, (lt, v.inside.1.1));
    distinct = (ground (arith, v.distinct.0, p), (ground (arith, q), v.distinct.1.1));
  }
  Hop-IsCells t u v (third a b c i lt s p q) = record {
    count = refl;
    inside = (v.inside.0, (v.inside.1.0, (lt, tt)));
    distinct = (ground (arith, v.distinct.0, p), (ground (arith, q), (refl, tt)));
  }
  Hop-IsCells t u v (with_second a b c z s) = record {
    count = refl;
    inside = (v.inside.1.0, (v.inside.0, v.inside.1.1));
    distinct =
        (ground (arith, v.distinct.0, v.distinct.1.0), (ground (arith, v.distinct.0), (refl, tt)));
  }
  Hop-IsCells t u v (with_third a b c z s) = record {
    count = refl;
    inside = (v.inside.1.1.0, (v.inside.1.0, (v.inside.0, tt)));
    distinct =
        (ground (arith, v.distinct.0, v.distinct.1.0), (ground (arith, v.distinct.0), (refl, tt)));
  }

flat : (ℕ → List ℕ) → List ℕ → List ℕ
flat move [] = []
flat move (i ∷ l) = move i ++ flat move l

append_assoc : (a b c : List ℕ) → (a ++ b) ++ c ≡ a ++ (b ++ c)
append_assoc [] b c = refl
append_assoc (x ∷ a) b c = ap (λ l. x ∷ l) (append_assoc a b c)

append-nil : (a : List ℕ) → a ++ [] ≡ a
append-nil [] = refl
append-nil (x ∷ a) = ap (λ l. x ∷ l) (append-nil a)

flat-append : (move : ℕ → List ℕ) (a b : List ℕ) → flat move (a ++ b) ≡ flat move a ++ flat move b
unfolding flat
flat-append move [] b = refl
flat-append move (x ∷ a) b =
    ap (λ l. move x ++ l) (flat-append move a b)
    ∙ sym (append_assoc (move x) (flat move a) (flat move b))

flat-one :
    (move : ℕ → List ℕ) (c : Bool) (n : ℕ)
    → flat move (if c then n ∷ [] else []) ≡ (if c then move n else [])
unfolding flat
flat-one move true n = append-nil (move n)
flat-one move false n = refl

four-flat :
    (d : Tiles) (p : ℕ) (move : ℕ → List ℕ) → four d p move ≡ flat move (around d.width d.height p)
unfolding four around
four-flat d p move = simp (flat-append, flat-one)

pub mem-append : (x : ℕ) (a b : List ℕ) → mem x (a ++ b) ≡ (if mem x a then true else mem x b)
mem-append x [] b = refl
mem-append x (y ∷ a) b = ground (arith, mem-append x a b)

mem-flat :
    (x : ℕ) (move : ℕ → List ℕ) (l : List ℕ)
    → mem x (flat move l) ≡ true
    → (i : ℕ) × (mem i l ≡ true) × (mem x (move i) ≡ true)
unfolding flat
mem-flat x move [] h = cc
mem-flat x move (i ∷ l) h = elim (Bool-cases (mem x (move i))) [
  | inl here ↦ (i, ground arith, here)
  | inr there ↦
      let e = mem-append x (move i) (flat move l) in
      let (j, m, at) = mem-flat x move l (ground (arith, e, h, there)) in (j, ground (arith, m), at)
]

flat-mem :
    (x : ℕ) (move : ℕ → List ℕ) (i : ℕ) (l : List ℕ)
    → mem i l ≡ true
    → mem x (move i) ≡ true
    → mem x (flat move l) ≡ true
unfolding flat
flat-mem x move i [] h at = cc
flat-mem x move i (j ∷ l) h at = mem-append x (move j) (flat move l) ∙ elim (Bool-cases (j == i)) [
  | inl same ↦ let e : j ≡ i = ground (arith, same) in rw (e, at) refl
  | inr other ↦ ground (arith, flat-mem x move i l (ground (arith, h, other)) at)
]

-- The branches for one tile go through the cells one step away.
pub mem-four :
    (d : Tiles) (x p : ℕ) (move : ℕ → List ℕ)
    → 0 < d.width
    → p < size d
    → mem x (four d p move) ≡ true
    → (i : ℕ) × (i < size d) × IsStep d.width p i × (mem x (move i) ≡ true)
mem-four d x p move wide lt h =
    let (i, m, at) =
      mem-flat x move (around d.width d.height p) (rw (sym (four-flat d p move)) h) in
    let (less, step) = (mem-around_iff d.width d.height p i wide lt).0 m in (i, less, step, at)

pub four-mem :
    (d : Tiles) (x p i : ℕ) (move : ℕ → List ℕ)
    → 0 < d.width
    → p < size d
    → i < size d
    → IsStep d.width p i
    → mem x (move i) ≡ true
    → mem x (four d p move) ≡ true
four-mem d x p i move wide lt less step at = rw (four-flat d p move) (
    flat-mem x move i (around d.width d.height p)
      ((mem-around_iff d.width d.height p i wide lt).1 (less, step)) at)
