-- ===== src/PbnfSearch/Writes.antt =====
-- src/pbnf_search.cc: `search_nblock` writes into the lists of its block and the successors alone.
use pbnf.Base.{
  ℕ, zero, suc, ◌≡◌, refl, ◌∙◌, Bool, true, false, ◌||◌, List, [], ◌∷◌, Option, none, some, arith,
  leb, ltb, ◌==◌, if◌then◌else◌, put, mem, Bool-cases, inl, inr,
}
use pbnf.PriorityQueue.Cells.{AllCells}
use pbnf.SearchState.{Store, State, get_f, update}
use pbnf.OpenList.{OpenList}
use pbnf.OpenList
use pbnf.OpenList.Cells.{add_cells, Updated, see_update-Updated, Taken, take-Taken}
use pbnf.HashTable
use pbnf.HashTable.Map.{lookup-hash}
use pbnf.PbnfSearch.{
  World, Round, more, found, failed, Child, open_of, put_open, updated, improve, join, sort_in,
  visit, visit_all, search_nblock,
}

module _ (project : ℕ → ℕ) where
  abbrev own : ℕ → ℕ → Bool
  own b x = project x == b

  -- Every state in the queue of a block belongs to the block.
  abbrev pub IsOwn : World → Type 0
  IsOwn w = (b : ℕ) → AllCells (own b) (w.queues b)

  module _ (scope : List ℕ) where
    -- The lists of the blocks outside `scope` are as they were.
    pub record Same (w v : World) : Type 0 where
      pub queues : (x : ℕ) → mem x scope ≡ false → v.queues x ≡ w.queues x
      pub bests : (x : ℕ) → mem x scope ≡ false → v.bests x ≡ w.bests x
      pub closed : (x : ℕ) → mem x scope ≡ false → v.closed x ≡ w.closed x
      pub owned : IsOwn v

    abbrev pub IsKept : World → Round → Type 0
    IsKept w (more v) = Same w v
    IsKept w (found s v) = Same w v
    IsKept w failed = Unit

    Same-refl : (w : World) → IsOwn w → Same w w
    Same-refl w o = record {
      queues = λ x h. refl;
      bests = λ x h. refl;
      closed = λ x h. refl;
      owned = o;
    }

    Same-trans : (w v : World) (r : Round) → Same w v → IsKept v r → IsKept w r
    Same-trans w v (more u) s t = record {
      queues = λ x h. t.queues x h ∙ s.queues x h;
      bests = λ x h. t.bests x h ∙ s.bests x h;
      closed = λ x h. t.closed x h ∙ s.closed x h;
      owned = t.owned;
    }
    Same-trans w v (found c u) s t = record {
      queues = λ x h. t.queues x h ∙ s.queues x h;
      bests = λ x h. t.bests x h ∙ s.bests x h;
      closed = λ x h. t.closed x h ∙ s.closed x h;
      owned = t.owned;
    }
    Same-trans w v failed s t = tt

    choice-IsKept :
        (w : World) (b : Bool) (r u : Round)
        → IsKept w r
        → IsKept w u
        → IsKept w (if b then r else u)
    choice-IsKept w true r u s t = s
    choice-IsKept w false r u s t = t

    put_open-Same :
        (w : World) (b : ℕ) (o : OpenList)
        → mem b scope ≡ true
        → IsOwn w
        → AllCells (own b) o.pq
        → Same w (put_open w b o)
    put_open-Same w b o inside owned all = record {
      queues = λ x h. ground (arith, h, inside);
      bests = λ x h. ground (arith, h, inside);
      closed = λ x h. refl;
      owned = λ x. elim (Bool-cases (b == x)) [
        | inl same ↦ let e : b ≡ x = ground (arith, same) in rw same (rw e at all)
        | inr other ↦ rw other (owned x)
      ];
    }

    -- What the loops make of a round that keeps the other blocks.
    abbrev then_go : (World → Round) → Round → Round
    then_go go r = elim r [ more v ↦ go v | found s v ↦ found s v | failed ↦ failed ]

    then_go-IsKept :
        (w : World) (go : World → Round) (r : Round)
        → IsKept w r
        → ((v : World) → IsOwn v → IsKept v (go v))
        → IsKept w (then_go go r)
    then_go-IsKept w go (more v) s t = Same-trans w v (go v) s (t v s.owned)
    then_go-IsKept w go (found c v) s t = s
    then_go-IsKept w go failed s t = tt

    -- Every one of the children belongs into the scope.
    abbrev pub IsInside : List Child → Type 0
    IsInside [] = Unit
    IsInside (c ∷ cs) = (mem (project c.address) scope ≡ true) × IsInside cs

    module _ (weight : ℕ) (hash : ℕ → ℕ) (is_goal : ℕ → Bool) (expand : Store → ℕ → List Child)
        (bound : ℕ → ℕ) where
      updated-IsKept :
          (w : World) (b : ℕ) (o : Option OpenList)
          → mem b scope ≡ true
          → IsOwn w
          → Updated (own b) weight o
          → IsKept w (updated weight hash project is_goal expand bound w b o)
      unfolding updated
      updated-IsKept w b none inside owned all = tt
      updated-IsKept w b (some o) inside owned all = put_open-Same w b o inside owned all

      pub add-Same :
          (w : World) (b s : ℕ)
          → mem b scope ≡ true
          → IsOwn w
          → project s ≡ b
          → Same w (put_open w b (OpenList.add weight (open_of w b) s))
      add-Same w b s inside owned at =
          put_open-Same w b _ inside owned
            (add_cells (own b) weight (open_of w b) s (ground (arith, at)) (owned b))

      improve-IsKept :
          (w : World) (b dup : ℕ) (s : State)
          → mem b scope ≡ true
          → IsOwn w
          → project dup ≡ b
          → IsKept w (improve weight hash project is_goal expand bound w b dup s)
      unfolding improve
      improve-IsKept w b dup s inside owned at =
          let v : World = record w {
            states = put w.states dup (update (w.states dup) s.parent s.c s.g);
          } in
          let on : Same w v = record {
            queues = λ x h. refl;
            bests = λ x h. refl;
            closed = λ x h. refl;
            owned = owned;
          } in
          let wider = add-Same v b dup inside owned at in
          choice-IsKept w (ltb s.g (w.states dup).g) _ _
            (choice-IsKept w (w.states dup).opened _ _
              (Same-trans w v _ on (
                updated-IsKept v b (OpenList.see_update weight (open_of v b) dup) inside owned
                  (see_update-Updated (own b) weight (open_of v b) dup (owned b))))
              (Same-trans w v (more (put_open v b (OpenList.add weight (open_of v b) dup))) on
                wider))
            (Same-refl w owned)

      join-IsKept :
          (w : World) (b c : ℕ)
          → mem b scope ≡ true
          → IsOwn w
          → project c ≡ b
          → IsKept w (join weight hash project is_goal expand bound w b c)
      unfolding join
      join-IsKept w b c inside owned at =
          let v : World = record w {
            closed = put w.closed b (HashTable.add hash (w.closed b) c);
          } in
          let on : Same w v = record {
            queues = λ x h. refl;
            bests = λ x h. refl;
            closed = λ x h. ground (arith, h, inside);
            owned = owned;
          } in
          let wider = add-Same v b c inside owned at in
          choice-IsKept w (is_goal c) (found c v) _ on
            (Same-trans w v (more (put_open v b (OpenList.add weight (open_of v b) c))) on wider)

      sort_in-IsKept :
          (w : World) (b : ℕ) (c : Child) (o : Option ℕ)
          → mem b scope ≡ true
          → IsOwn w
          → project c.address ≡ b
          → ((x : ℕ) → o ≡ some x → project x ≡ b)
          → IsKept w (sort_in weight hash project is_goal expand bound w b c o)
      unfolding sort_in
      sort_in-IsKept w b c none inside owned at same = join-IsKept w b c.address inside owned at
      sort_in-IsKept w b c (some dup) inside owned at same =
          improve-IsKept w b dup c.state inside owned (same dup refl)

      module _ (same_block : (x y : ℕ) → hash x ≡ hash y → project x ≡ project y) where
        visit-IsKept :
            (w : World) (c : Child)
            → mem (project c.address) scope ≡ true
            → IsOwn w
            → IsKept w (visit weight hash project is_goal expand bound w c)
        unfolding visit
        visit-IsKept w c inside owned =
            let v : World = record w { states = put w.states c.address c.state } in
            let on : Same w v = record {
              queues = λ x h. refl;
              bests = λ x h. refl;
              closed = λ x h. refl;
              owned = owned;
            } in
            let b = project c.address in
            choice-IsKept w (leb (bound c.address) (get_f c.state)) (more w) _ (Same-refl w owned) (
              Same-trans w v _ on (
                sort_in-IsKept v b c _ inside owned refl (λ x e.
                  same_block x c.address (lookup-hash hash (w.closed b) (hash c.address) x e))))

        visit_all-IsKept :
            (cs : List Child) (w : World)
            → IsInside cs
            → IsOwn w
            → IsKept w (visit_all weight hash project is_goal expand bound cs w)
        unfolding visit_all
        visit_all-IsKept [] w inside owned = Same-refl w owned
        visit_all-IsKept (c ∷ cs) w inside owned =
            then_go-IsKept w (visit_all weight hash project is_goal expand bound cs) _
              (visit-IsKept w c inside.0 owned) (λ v o. visit_all-IsKept cs v inside.1 o)

        -- Where states of one hash are of one block, the children of the states of block `n`
        -- belong into blocks of `scope`, which holds `n`, and the queue of every block holds
        -- states of the block alone, any number of rounds of `search_nblock` of `n` leaves the
        -- queue, the best value and the closed list of every block outside `scope` as they were,
        -- and in every queue states of its block alone, whatever the bound reads as and
        -- `should_switch` returns, and whether or not it finds a goal.
        pub search_nblock-IsKept :
            (switch : ℕ → Bool) (k n : ℕ) (w : World)
            → mem n scope ≡ true
            → ((st : Store) (s : ℕ) → project s ≡ n → IsInside (expand st s))
            → IsOwn w
            → IsKept w (search_nblock weight hash project is_goal expand bound switch k n w)
        unfolding search_nblock
        search_nblock-IsKept switch zero n w here inside owned = Same-refl w owned
        search_nblock-IsKept switch (suc k) n w here inside owned =
            choice-IsKept w (OpenList.empty weight (open_of w n) || switch k) (more w) _
              (Same-refl w owned)
              (round (search_nblock weight hash project is_goal expand bound switch k n)
                (λ u o. search_nblock-IsKept switch k n u here inside o)
                (OpenList.take weight (open_of w n))
                (take-Taken (own n) weight (open_of w n) (owned n)))
          where
            round :
                (rest : World → Round)
                → ((u : World) → IsOwn u → IsKept u (rest u))
                → (r : Option (ℕ × OpenList)) → Taken (own n) weight r
                → IsKept w (elim r [
                  | none ↦ failed
                  | some (s, o) ↦
                      let v = put_open w n o in
                      if leb (bound s) (get_f (v.states s))
                      then rest v
                      else if is_goal s
                      then found s v
                      else then_go rest
                          (visit_all weight hash project is_goal expand bound (expand v.states s) v)
                ])
            round rest further none t = tt
            round rest further (some (s, o)) t =
                let v = put_open w n o in
                let on = put_open-Same w n o here owned t.1 in
                let children =
                  visit_all-IsKept (expand v.states s) v (inside v.states s (ground (arith, t.0)))
                    on.owned in
                choice-IsKept w (leb (bound s) (get_f (v.states s))) (rest v) _
                  (Same-trans w v (rest v) on (further v on.owned))
                  (choice-IsKept w (is_goal s) (found s v) _ on
                    (Same-trans w v _ on (then_go-IsKept v rest _ children further)))
