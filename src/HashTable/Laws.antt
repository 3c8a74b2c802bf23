-- ===== src/HashTable/Laws.antt =====
-- src/util/hash_table.h: the table as a map from hashes to elements.
use pbnf.Base.{
  ℕ, ◌%◌, ◌<◌, ◌≡◌, refl, ap, ◌∙◌, List, [], Option, some, arith, Bool-cases, inl, inr, ◌==◌,
  if◌then◌else◌, length, set, get_or, replicate, length-set, length-replicate, get_or-set,
  get_or-replicate,
}
use pbnf.HashTable.{do_add}
use pbnf.HashTable.Buckets.{
  Chain, chain_lookup, IsSorted, IsHome, IsSorted-chain_add, IsHome-chain_add,
  chain_lookup-chain_add,
}

module _ {E : Type 0} (hash : E → ℕ) where
  -- Each chain is in order, and holds only elements of its own bucket.
  pub record IsPlaced (size : ℕ) (cs : List (Chain E)) : Type 0 where
    pub width : length cs ≡ size
    pub sorted : (i : ℕ) → IsSorted hash (get_or cs i [])
    pub home : (i : ℕ) → IsHome hash (λ h. h % size ≡ i) (get_or cs i [])

  abbrev pub find : ℕ → List (Chain E) → ℕ → Option E
  find size cs h = chain_lookup hash h (get_or cs (h % size) [])

  pub IsPlaced-replicate : (size : ℕ) → IsPlaced size (replicate size [])
  IsPlaced-replicate size = record {
    width = length-replicate size [];
    sorted = λ i. rw (get_or-replicate {A = Chain E} size i []) tt;
    home = λ i. rw (get_or-replicate {A = Chain E} size i []) tt;
  }

  module _ (size : ℕ) (pos : 0 < size) (cs : List (Chain E)) (v : IsPlaced size cs) where
    pub slot-lt : (h : ℕ) → h % size < length cs
    slot-lt h = rw v.width (grind arith)

    -- One bucket is replaced.
    pub set-IsPlaced :
        (i : ℕ) (c : Chain E)
        → i < length cs
        → IsSorted hash c
        → IsHome hash (λ h. h % size ≡ i) c
        → IsPlaced size (set cs i c)
    set-IsPlaced i c lt o a = record {
      width = length-set cs i c ∙ v.width;
      sorted = λ j.
          rw (get_or-set cs i j c [] lt) (elim (Bool-cases (i == j)) [
            | inl same ↦ rw same o
            | inr other ↦ rw other (v.sorted j)
          ]);
      home = λ j. rw (get_or-set cs i j c [] lt) (elim (Bool-cases (i == j)) [
        | inl same ↦ let e : i ≡ j = ground (arith, same) in rw same (rw e at a)
        | inr other ↦ rw other (v.home j)
      ]);
    }

    pub do_add-IsPlaced : (s : E) → IsPlaced size (do_add hash size cs s)
    unfolding do_add
    do_add-IsPlaced s =
        set-IsPlaced (hash s % size) _ (slot-lt (hash s))
          (IsSorted-chain_add hash s _ (v.sorted (hash s % size)))
          (IsHome-chain_add hash (λ h. h % size ≡ hash s % size) s _ refl (v.home (hash s % size)))

    pub find-do_add :
        (s : E) (h : ℕ)
        → find size (do_add hash size cs s) h ≡ (if h == hash s then some s else find size cs h)
    unfolding do_add
    find-do_add s h =
        rw (get_or-set cs (hash s % size) (h % size) _ [] (slot-lt (hash s)))
          (elim (Bool-cases (hash s % size == h % size)) [
            | inl same ↦
                let e : hash s % size ≡ h % size = ground (arith, same) in
                rw same (
                  chain_lookup-chain_add hash h s (get_or cs (hash s % size) [])
                    (v.sorted (hash s % size))
                  ∙ rw e)
            | inr other ↦ rw other (elim (Bool-cases (h == hash s)) [
              | inl equal ↦
                  let e : h ≡ hash s = ground (arith, equal) in
                  absurd (ground (arith, other, ap (λ x. x % size) e))
              | inr different ↦ rw different
            ])
          ])
