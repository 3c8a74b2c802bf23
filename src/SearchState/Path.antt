-- ===== src/SearchState/Path.antt =====
-- src/state.cc: `get_path` follows the parents of a state.
use pbnf.Base.{
  ℕ, zero, suc, ◌<◌, ◌≡◌, ap, ◌∙◌, List, [], ◌∷◌, Option, none, some, arith, Option-cases, inl, inr,
}
use pbnf.SearchState.{Store}

-- `path->push_back` of the state, before what its parent leads to.
unfoldable pub push : ℕ → Option (List ℕ) → Option (List ℕ)
push x none = none
push x (some l) = some (x ∷ l)

-- The loop, of at most `fuel` rounds; the copies on the path go by the states they are copies of.
unfoldable pub get_path : Store → ℕ → ℕ → Option (List ℕ)
unfolding push
get_path store zero p = none
get_path store (suc fuel) p = elim (store p).parent [
  | none ↦ some (p ∷ [])
  | some q ↦ push p (get_path store fuel q)
]

-- From the state `p` on, each state of the list is the parent of the one before, and the last has
-- none.
pub IsPath : Store → ℕ → List ℕ → Type 0
IsPath store p [] = (store p).parent ≡ none
IsPath store p (q ∷ l) = ((store p).parent ≡ some q) × IsPath store q l

enough :
    (store : Store) (fuel p : ℕ)
    → ((x q : ℕ) → (store x).parent ≡ some q → (store q).g < (store x).g)
    → (store p).g < fuel
    → (l : List ℕ) × (get_path store fuel p ≡ some (p ∷ l)) × IsPath store p l
unfolding get_path IsPath push
enough store zero p down lt = absurd (omega (arith, lt))
enough store (suc fuel) p down lt = elim (Option-cases (store p).parent) [
  | inl root ↦ (
    [],
    ap (λ o. elim o [ none ↦ some (p ∷ []) | some q ↦ push p (get_path store fuel q) ]) root,
    root,
  )
  | inr (q, e) ↦
      let (l, path, is) = enough store fuel q down (omega (arith, lt, down p q e)) in
      (
        q ∷ l,
        ap (λ o. elim o [ none ↦ some (p ∷ []) | some r ↦ push p (get_path store fuel r) ]) e
            ∙ ap (push p) path,
        (e, is),
      )
]

-- Where each parent has a smaller g than its child, as it has when all costs are positive: the loop
-- ends within g + 1 rounds, and gives the state and then each time the parent, up to a state that
-- has none.
pub get_path_correct :
    (store : Store) (p : ℕ)
    → ((x q : ℕ) → (store x).parent ≡ some q → (store q).g < (store x).g)
    → (l : List ℕ) × (get_path store (suc (store p).g) p ≡ some (p ∷ l)) × IsPath store p l
get_path_correct store p down = enough store (suc (store p).g) p down (omega arith)
