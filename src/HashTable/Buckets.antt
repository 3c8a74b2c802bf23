-- ===== src/HashTable/Buckets.antt =====
-- src/util/hash_table.h: the class `Bucket`, a chain in the order of the hashes.
use pbnf.Base.{
  ℕ, ◌+◌, ◌≤◌, ◌<◌, ◌≡◌, refl, Bool, true, false, List, [], ◌∷◌, Option, none, some, arith, ltb,
  Bool-cases, inl, inr, ◌==◌, if◌then◌else◌, is_some,
}

-- A bucket with its `next`s. `size` counts the buckets behind it, as far as `add` keeps it up.
pub record Bucket (E : Type 0) : Type 0 where
  pub element : E
  pub size : ℕ

abbrev pub Chain : Type 0 → Type 0
Chain E = List (Bucket E)

module _ {E : Type 0} where
  -- `new Bucket(s, NULL)`
  abbrev pub one : E → Chain E
  one s = record { element = s; size = 0 } ∷ []

  unfoldable pub chain_data : Chain E → List E
  chain_data [] = []
  chain_data (b ∷ c) = b.element ∷ chain_data c

  module _ (hash : E → ℕ) where
    -- `do_add` on one bucket pointer: a new chain, or `Bucket::add`.
    unfoldable pub chain_add : E → Chain E → Chain E
    chain_add s [] = one s
    chain_add s (b ∷ []) =
        if ltb (hash s) (hash b.element)
        then record { element = s; size = b.size + 1 } ∷ b ∷ []
        else (if hash s == hash b.element then record b { element = s } ∷ [] else b ∷ one s)
    chain_add s (b ∷ d ∷ c) =
        let rest = record b { size = b.size + 1 } ∷ chain_add s (d ∷ c) in
        if ltb (hash s) (hash b.element)
        then record { element = s; size = b.size + 1 } ∷ b ∷ d ∷ c
        else (if hash s == hash b.element then record b { element = s } ∷ d ∷ c else rest)

    -- `Bucket::lookup`
    unfoldable pub chain_lookup : ℕ → Chain E → Option E
    chain_lookup h [] = none
    chain_lookup h (b ∷ c) =
        let rest = chain_lookup h c in
        if h == hash b.element
        then some b.element
        else (if ltb h (hash b.element) then none else rest)

    -- The search of `remove`, and whether it has found a bucket to unlink.
    unfoldable pub chain_remove : ℕ → Chain E → Bool × Chain E
    chain_remove h [] = (false, [])
    chain_remove h (b ∷ c) =
        let rest : Bool × Chain E = ((chain_remove h c).0, b ∷ (chain_remove h c).1) in
        if hash b.element == h then (true, c) else rest

    -- All hashes are above `k`.
    abbrev pub Above : ℕ → Chain E → Type 0
    Above k [] = Unit
    Above k (b ∷ c) = (k < hash b.element) × Above k c

    abbrev pub IsSorted : Chain E → Type 0
    IsSorted [] = Unit
    IsSorted (b ∷ c) = Above (hash b.element) c × IsSorted c

    -- All elements belong to bucket `i` of `size`.
    abbrev pub IsHome : (ℕ → Type 0) → Chain E → Type 0
    IsHome P [] = Unit
    IsHome P (b ∷ c) = P (hash b.element) × IsHome P c

    pub Above-mono : (j k : ℕ) (c : Chain E) → j ≤ k → Above k c → Above j c
    Above-mono j k [] h a = tt
    Above-mono j k (b ∷ c) h a = (omega arith, Above-mono j k c h a.1)

    Above-chain_add :
        (k : ℕ) (s : E) (c : Chain E) → k < hash s → Above k c → Above k (chain_add s c)
    unfolding chain_add
    Above-chain_add k s [] h a = (h, tt)
    Above-chain_add k s (b ∷ []) h a = ground (arith, h, a)
    Above-chain_add k s (b ∷ d ∷ c) h a = ground (arith, h, a, Above-chain_add k s (d ∷ c) h a.1)

    -- `add` keeps a chain in order.
    pub IsSorted-chain_add : (s : E) (c : Chain E) → IsSorted c → IsSorted (chain_add s c)
    unfolding chain_add
    IsSorted-chain_add s [] o = (tt, tt)
    IsSorted-chain_add s (b ∷ []) o = ground arith
    IsSorted-chain_add s (b ∷ d ∷ c) o = elim (Bool-cases (ltb (hash s) (hash b.element))) [
      | inl less ↦ rw less (
        (
          ground (arith, less),
          Above-mono (hash s) (hash b.element) (d ∷ c) (ground (arith, less)) o.0,
        ),
        o,
      )
      | inr more ↦ elim (Bool-cases (hash s == hash b.element)) [
        | inl same ↦
            let e : hash s ≤ hash b.element = ground (arith, same) in
            rw (more, same) (Above-mono (hash s) (hash b.element) (d ∷ c) e o.0, o.1)
        | inr other ↦
            rw (more, other)
              (
                Above-chain_add (hash b.element) s (d ∷ c) (ground (arith, more, other)) o.0,
                IsSorted-chain_add s (d ∷ c) o.1,
              )
      ]
    ]

    pub IsHome-chain_add :
        (P : ℕ → Type 0) (s : E) (c : Chain E) → P (hash s) → IsHome P c → IsHome P (chain_add s c)
    unfolding chain_add
    IsHome-chain_add P s [] h a = (h, tt)
    IsHome-chain_add P s (b ∷ []) h a = elim (Bool-cases (ltb (hash s) (hash b.element))) [
      | inl less ↦ rw less (h, a)
      | inr more ↦ elim (Bool-cases (hash s == hash b.element)) [
        | inl same ↦ rw (more, same) (h, tt)
        | inr other ↦ rw (more, other) (a.0, (h, tt))
      ]
    ]
    IsHome-chain_add P s (b ∷ d ∷ c) h a = elim (Bool-cases (ltb (hash s) (hash b.element))) [
      | inl less ↦ rw less (h, a)
      | inr more ↦ elim (Bool-cases (hash s == hash b.element)) [
        | inl same ↦ rw (more, same) (h, a.1)
        | inr other ↦ rw (more, other) (a.0, IsHome-chain_add P s (d ∷ c) h a.1)
      ]
    ]

    -- What is found under a hash has it.
    pub chain_lookup-hash : (h : ℕ) (c : Chain E) (x : E) → chain_lookup h c ≡ some x → hash x ≡ h
    unfolding chain_lookup
    chain_lookup-hash h [] x e = cc
    chain_lookup-hash h (b ∷ c) x e = elim (Bool-cases (h == hash b.element)) [
      | inl same ↦
          let f : some b.element ≡ some x = ground (arith, same, e) in
          let g : b.element ≡ x = cc in
          let k : hash b.element ≡ h = ground (arith, same) in rw g at k
      | inr other ↦ chain_lookup-hash h c x (ground (arith, other, e))
    ]

    pub chain_lookup-Above : (h : ℕ) (c : Chain E) → Above h c → chain_lookup h c ≡ none
    unfolding chain_lookup
    chain_lookup-Above h [] a = refl
    chain_lookup-Above h (b ∷ c) a = ground (arith, a)

    -- A lookup after an `add` to a chain in order.
    pub chain_lookup-chain_add :
        (h : ℕ) (s : E) (c : Chain E)
        → IsSorted c
        → chain_lookup h (chain_add s c) ≡ (if h == hash s then some s else chain_lookup h c)
    unfolding chain_lookup chain_add
    chain_lookup-chain_add h s [] o = ground arith
    chain_lookup-chain_add h s (b ∷ []) o = ground arith
    chain_lookup-chain_add h s (b ∷ d ∷ c) o =
        ground (arith, chain_lookup-chain_add h s (d ∷ c) o.1)

    Above-chain_remove : (k h : ℕ) (c : Chain E) → Above k c → Above k (chain_remove h c).1
    unfolding chain_remove
    Above-chain_remove k h [] a = tt
    Above-chain_remove k h (b ∷ c) a = ground (arith, a, Above-chain_remove k h c a.1)

    pub IsSorted-chain_remove : (h : ℕ) (c : Chain E) → IsSorted c → IsSorted (chain_remove h c).1
    unfolding chain_remove
    IsSorted-chain_remove h [] o = tt
    IsSorted-chain_remove h (b ∷ c) o =
        ground
          (arith, o, IsSorted-chain_remove h c o.1, Above-chain_remove (hash b.element) h c o.0)

    pub IsHome-chain_remove :
        (P : ℕ → Type 0) (h : ℕ) (c : Chain E) → IsHome P c → IsHome P (chain_remove h c).1
    unfolding chain_remove
    IsHome-chain_remove P h [] a = tt
    IsHome-chain_remove P h (b ∷ c) a = elim (Bool-cases (hash b.element == h)) [
      | inl here ↦ rw here a.1
      | inr there ↦ rw there (a.0, IsHome-chain_remove P h c a.1)
    ]

    -- A lookup after a removal from a chain in order.
    pub chain_lookup-chain_remove :
        (q h : ℕ) (c : Chain E)
        → IsSorted c
        → chain_lookup q (chain_remove h c).1 ≡ (if q == h then none else chain_lookup q c)
    unfolding chain_lookup chain_remove
    chain_lookup-chain_remove q h [] o = ground arith
    chain_lookup-chain_remove q h (b ∷ c) o = elim (Bool-cases (hash b.element == h)) [
      | inl here ↦
          rw here
            (ground (arith, here, chain_lookup-Above q c, Above-mono q (hash b.element) c, o.0))
      | inr there ↦ rw there (
          ground (
            arith,
            there,
            chain_lookup-chain_remove q h c o.1,
            o.0,
            chain_lookup-Above q c,
            Above-mono q (hash b.element) c,
          ))
    ]

    -- `remove` finds a bucket exactly if `lookup` does.
    pub chain_remove-found :
        (h : ℕ) (c : Chain E) → IsSorted c → (chain_remove h c).0 ≡ is_some (chain_lookup h c)
    unfolding chain_lookup chain_remove
    chain_remove-found h [] o = refl
    chain_remove-found h (b ∷ c) o = ground (
      arith,
      o,
      chain_remove-found h c o.1,
      chain_lookup-Above h c,
      Above-mono h (hash b.element) c,
    )

    pub chain_lookup-away :
        (P : ℕ → Type 0) (h : ℕ) (c : Chain E) → (P h → ⊥) → IsHome P c → chain_lookup h c ≡ none
    unfolding chain_lookup
    chain_lookup-away P h [] n a = refl
    chain_lookup-away P h (b ∷ c) n a = elim (Bool-cases (h == hash b.element)) [
      | inl same ↦ let e : hash b.element ≡ h = ground (arith, same) in absurd (n (rw e at a.0))
      | inr other ↦ ground (arith, other, chain_lookup-away P h c n a.1)
    ]
