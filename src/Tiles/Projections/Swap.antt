-- ===== src/Tiles/Projections/Swap.antt =====
-- src/tiles/tiles.cc: a move exchanges the blank with a kept tile or leaves the kept tiles.
use pbnf.Base.{
  ℕ, suc, ◌<◌, ◌≡◌, ◌≢◌, ap, refl, sym, ◌∙◌, inl, inr, true, false, List, [], ◌∷◌, arith, ◌==◌,
  if◌then◌else◌, length, mem, Bool-cases, Distinct,
}
use pbnf.Tiles.Numbering.Count.{Inside}
use pbnf.Tiles.Projections.{IsCells}

-- The cells of the kept tiles when the blank moves from `o` to `n`: the tile that is in `n`, if it
-- is a kept one, moves to `o`.
unfoldable pub swap_in : List ℕ → ℕ → ℕ → List ℕ
swap_in [] n o = []
swap_in (p ∷ ps) n o = let rest = p ∷ swap_in ps n o in if p == n then o ∷ ps else rest

pub length-swap_in : (ps : List ℕ) (n o : ℕ) → length (swap_in ps n o) ≡ length ps
unfolding swap_in
length-swap_in [] n o = refl
length-swap_in (p ∷ ps) n o = elim (Bool-cases (p == n)) [
  | inl same ↦ rw same refl
  | inr other ↦ rw other (ap suc (length-swap_in ps n o))
]

mem-swap_in :
    (ps : List ℕ) (n o x : ℕ) → mem x ps ≡ false → (o == x) ≡ false → mem x (swap_in ps n o) ≡ false
unfolding swap_in
mem-swap_in [] n o x h ne = refl
mem-swap_in (p ∷ ps) n o x h ne = elim (Bool-cases (p == n)) [
  | inl same ↦ rw same (ground (arith, h, ne))
  | inr other ↦ rw other (ground (arith, h, mem-swap_in ps n o x (ground (arith, h)) ne))
]

mem-swap_in_gone : (ps : List ℕ) (n o : ℕ) → Distinct ps → o ≢ n → mem n (swap_in ps n o) ≡ false
unfolding swap_in
mem-swap_in_gone [] n o d ne = refl
mem-swap_in_gone (p ∷ ps) n o d ne = elim (Bool-cases (p == n)) [
  | inl same ↦ let e : p ≡ n = ground (arith, same) in rw same (ground (arith, ne, rw e at d.0))
  | inr other ↦ rw other (ground (arith, other, mem-swap_in_gone ps n o d.1 ne))
]

Distinct-swap_in :
    (ps : List ℕ) (n o : ℕ) → Distinct ps → mem o ps ≡ false → Distinct (swap_in ps n o)
unfolding swap_in
Distinct-swap_in [] n o d out = tt
Distinct-swap_in (p ∷ ps) n o d out = elim (Bool-cases (p == n)) [
  | inl same ↦ rw same (ground (arith, out), d.1)
  | inr other ↦ rw other (
    mem-swap_in ps n o p d.0 (ground (arith, out)),
    Distinct-swap_in ps n o d.1 (ground (arith, out)),
  )
]

Inside-swap_in : (k : ℕ) (ps : List ℕ) (n o : ℕ) → Inside k ps → o < k → Inside k (swap_in ps n o)
unfolding swap_in Inside
Inside-swap_in k [] n o h lt = tt
Inside-swap_in k (p ∷ ps) n o h lt = elim (Bool-cases (p == n)) [
  | inl same ↦ rw same (lt, h.1)
  | inr other ↦ rw other (h.0, Inside-swap_in k ps n o h.1 lt)
]

pub swap_in-swap_in : (ps : List ℕ) (n o : ℕ) → mem o ps ≡ false → swap_in (swap_in ps n o) o n ≡ ps
unfolding swap_in
swap_in-swap_in [] n o out = refl
swap_in-swap_in (p ∷ ps) n o out = elim (Bool-cases (p == n)) [
  | inl same ↦
      let e : p ≡ n = ground (arith, same) in
      let here : (o == o) ≡ true = ground arith in rw (same, here) (ap (λ x. x ∷ ps) (sym e))
  | inr other ↦
      let apart : (p == o) ≡ false = ground (arith, out) in
      rw (other, apart) (ap (λ l. p ∷ l) (swap_in-swap_in ps n o (ground (arith, out))))
]

pub IsCells-swap_in :
    (k m : ℕ) (ps : List ℕ) (n o : ℕ)
    → IsCells k m (o ∷ ps)
    → n < k
    → o ≢ n
    → IsCells k m (n ∷ swap_in ps n o)
unfolding Inside
IsCells-swap_in k m ps n o v lt ne = record {
  count = ap suc (length-swap_in ps n o) ∙ v.count;
  inside = (lt, Inside-swap_in k ps n o v.inside.1 v.inside.0);
  distinct =
      (mem-swap_in_gone ps n o v.distinct.1 ne, Distinct-swap_in ps n o v.distinct.1 v.distinct.0);
}
