-- ===== src/HashTable/Resize.antt =====
-- src/util/hash_table.h: `resize` keeps every element where `lookup` finds it.
use pbnf.Base.{
  ℕ, zero, suc, ◌*◌, ◌%◌, ◌^◌, ◌≤◌, ◌<◌, ◌≡◌, ◌≢◌, refl, ap, ◌∙◌, List, [], ◌∷◌, Option, none, some,
  arith, ltb, Bool-cases, inl, inr, ◌==◌, if◌then◌else◌, length, take, get_or, replicate,
  get_or-replicate,
}
use pbnf.HashTable.{do_add, add_data, rehash, resize}
use pbnf.HashTable.Buckets.{
  Chain, chain_data, chain_lookup, IsSorted, Above, chain_lookup-Above, chain_lookup-away,
  Above-mono,
}
use pbnf.HashTable.Laws.{IsPlaced, find, IsPlaced-replicate, do_add-IsPlaced, find-do_add}

abbrev or_else : {E : Type 0} → Option E → Option E → Option E
or_else none b = b
or_else (some a) b = some a

module _ {E : Type 0} (hash : E → ℕ) where
  module _ (size : ℕ) (pos : 0 < size) where
    add_data-IsPlaced :
        (c : Chain E) (cs : List (Chain E))
        → IsPlaced hash size cs
        → IsPlaced hash size (add_data hash size cs (chain_data c))
    unfolding add_data chain_data
    add_data-IsPlaced [] cs v = v
    add_data-IsPlaced (b ∷ c) cs v =
        add_data-IsPlaced c (do_add hash size cs b.element)
          (do_add-IsPlaced hash size pos cs v b.element)

    -- The elements of a chain in order go over the table.
    find-add_data :
        (c : Chain E) (cs : List (Chain E)) (h : ℕ)
        → IsPlaced hash size cs
        → IsSorted hash c
        → find hash size (add_data hash size cs (chain_data c)) h
          ≡ or_else (chain_lookup hash h c) (find hash size cs h)
    unfolding add_data chain_data chain_lookup
    find-add_data [] cs h v o = refl
    find-add_data (b ∷ c) cs h v o =
        find-add_data c (do_add hash size cs b.element) h
          (do_add-IsPlaced hash size pos cs v b.element) o.1
        ∙ step (chain_lookup-Above hash h c) (Above-mono hash h (hash b.element) c)
            (find-do_add hash size pos cs v b.element h)
      where
        step :
            {f : Option E}
            → (Above hash h c → chain_lookup hash h c ≡ none)
            → (h ≤ hash b.element → Above hash (hash b.element) c → Above hash h c)
            → f ≡ (if h == hash b.element then some b.element else find hash size cs h)
            → or_else (chain_lookup hash h c) f
              ≡ or_else
                  (if h == hash b.element
                    then some b.element
                    else (if ltb h (hash b.element) then none else chain_lookup hash h c))
                  (find hash size cs h)
        step away mono e = elim (Bool-cases (ltb (hash b.element) h)) [
          | inl past ↦ rw e (ground (arith, past))
          | inr up ↦
              rw (e, away (mono (ground (arith, up)) o.0))
                (ground (arith, up, away (mono (ground (arith, up)) o.0)))
        ]

    -- The last chain that has the hash decides.
    scan : ℕ → List (Chain E) → Option E → Option E
    scan h [] found = found
    scan h (c ∷ cs) found = scan h cs (or_else (chain_lookup hash h c) found)

    rehash-scan :
        (old fresh : List (Chain E))
        → IsPlaced hash size fresh
        → ((i : ℕ) → IsSorted hash (get_or old i []))
        → IsPlaced hash size (rehash hash size fresh old)
          × ((h : ℕ)
              → find hash size (rehash hash size fresh old) h ≡ scan h old (find hash size fresh h))
    unfolding rehash scan get_or
    rehash-scan [] fresh v o = (v, λ h. refl)
    rehash-scan (c ∷ cs) fresh v o =
        let next = add_data-IsPlaced c fresh v in
        let (placed, finds) =
          rehash-scan cs (add_data hash size fresh (chain_data c)) next (λ i. o (suc i)) in
        (placed, λ h. finds h ∙ ap (scan h cs) (find-add_data c fresh h v (o 0)))

    scan-away :
        (h : ℕ) (cs : List (Chain E)) (found : Option E)
        → ((j : ℕ) → chain_lookup hash h (get_or cs j []) ≡ none)
        → scan h cs found ≡ found
    unfolding scan get_or
    scan-away h [] found a = refl
    scan-away h (c ∷ cs) found a = rw (a 0) (scan-away h cs found (λ j. a (suc j)))

    scan-at :
        (h k : ℕ) (cs : List (Chain E)) (found : Option E)
        → ((j : ℕ) → j ≢ k → chain_lookup hash h (get_or cs j []) ≡ none)
        → scan h cs found ≡ or_else (chain_lookup hash h (get_or cs k [])) found
    unfolding scan get_or chain_lookup
    scan-at h k [] found a = refl
    scan-at h zero (c ∷ cs) found a =
        scan-away h cs (or_else (chain_lookup hash h c) found) (λ j. a (suc j) (omega arith))
    scan-at h (suc k) (c ∷ cs) found a =
        rw (a 0 (omega arith)) (scan-at h k cs found (λ j ne. a (suc j) (omega arith)))

  take-length : (cs : List (Chain E)) → take (length cs) cs ≡ cs
  take-length [] = refl
  take-length (c ∷ cs) = ap (◌∷◌ c) (take-length cs)

  -- `resize` makes a table of ten times the size, in which each hash has the element that it had,
  -- for every table whose size an `unsigned int` holds.
  pub resize_correct :
      (size : ℕ) (cs : List (Chain E))
      → 0 < size
      → size < 2 ^ 32
      → IsPlaced hash size cs
      → IsPlaced hash (size * 10) (resize hash size cs)
        × ((h : ℕ) → find hash (size * 10) (resize hash size cs) h ≡ find hash size cs h)
  unfolding resize
  resize_correct size cs pos small v =
      let whole : take (size % 2 ^ 32) cs ≡ cs = rw (fits, ← v.width) (take-length cs) in
      let fresh = IsPlaced-replicate hash (size * 10) in
      let (placed, finds) =
        rehash-scan (size * 10) (omega arith) cs (replicate (size * 10) []) fresh v.sorted in
      rw whole (
        placed,
        λ h.
            finds h
            ∙ scan-at (size * 10) (omega arith) h (h % size) cs _ (λ j ne.
              chain_lookup-away hash (λ x. x % size ≡ j) h (get_or cs j []) (λ e. ne (omega arith))
                (v.home j))
            ∙ last h,
      )
    where
      fits : size % 2 ^ 32 ≡ size
      fits = omega arith

      last :
          (h : ℕ)
          → or_else (find hash size cs h) (find hash (size * 10) (replicate (size * 10) []) h)
            ≡ find hash size cs h
      last h =
          rw (get_or-replicate {A = Chain E} (size * 10) (h % (size * 10)) [])
            (unfold chain_lookup in ground arith)
