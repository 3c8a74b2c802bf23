-- ===== src/InconsList/Laws.antt =====
-- src/incons_list.cc: the flags and the table agree.
use pbnf.Base.{ℕ, ◌<◌, ◌≡◌, true, some, arith, ◌==◌, if◌then◌else◌, ◌^◌, Bool-cases, inl, inr, put}
use pbnf.HashTable.{Table}
use pbnf.HashTable
use pbnf.HashTable.Map.{IsValid, lookup-add}
use pbnf.InconsList.{InconsList, set_incons, same, lookup, add}

module _ (hash : ℕ → ℕ) where
  -- Every state that is flagged is found under its hash.
  pub record IsFlagged (l : InconsList) : Type 0 where
    pub valid : IsValid hash l.tbl
    pub found : (x : ℕ) → (l.states x).incons ≡ true → lookup hash l (hash x) ≡ some x

  -- Where no other flagged state has the hash of `s`, `add` of `s` to a table of fewer than 2 ^ 32
  -- buckets succeeds; afterwards `s` is flagged, every other flag is as it was, and every flagged
  -- state is found.
  pub add-IsFlagged :
      (l : InconsList) (s : ℕ)
      → ((x : ℕ) → (l.states x).incons ≡ true → hash x ≡ hash s → x ≡ s)
      → IsFlagged l
      → l.tbl.size < 2 ^ 32
      → (r : InconsList) × (add hash l s ≡ some r)
        × IsFlagged r
        × ((x : ℕ) → (r.states x).incons ≡ (if s == x then true else (l.states x).incons))
  unfolding add same lookup set_incons
  add-IsFlagged l s unique v small = elim (Bool-cases (l.states s).incons) [
    | inl flagged ↦ (l, ground (arith, flagged, v.found s flagged), v, λ x. ground (arith, flagged))
    | inr fresh ↦
        let (valid, finds, size) = lookup-add hash l.tbl s v.valid small in
        (
          record {
            tbl = HashTable.add hash l.tbl s;
            states = put l.states s (set_incons (l.states s) true);
          },
          ground (arith, fresh),
          record {
            valid = valid;
            found = λ x h. ground (arith, h, unique x, finds (hash x), v.found x);
          },
          λ x. ground arith,
        )
  ]
