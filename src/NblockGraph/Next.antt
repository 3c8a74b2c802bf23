-- ===== src/NblockGraph/Next.antt =====
-- src/pbnf/nblock_graph.cc: `next_nblock` as a whole.
use pbnf.Base.{
  ℕ, ◌*◌, ◌<◌, ◌≡◌, refl, ◌∙◌, true, false, List, Option, none, some, arith, leb, Bool-cases, inl,
  inr, ◌==◌, mem, put, tally-pos, is_some, is_some-true, tally_below, tally_below-all,
}
use pbnf.PriorityQueue.{Pq, cell, fill}
use pbnf.PriorityQueue
use pbnf.PriorityQueue.Insert.{IsValid}
use pbnf.PriorityQueue.Remove.{Removed, Taken, take_front_correct}
use pbnf.PriorityQueue.Whole.{reset_correct, empty-true, empty-false, front-some}
use pbnf.NblockGraph.{
  Graph, Outcome, finished, waiting, aborted, assigned, block_before, best_value, best_val, is_free,
  release, set_done, prune_free_list, starve, take_block, resume, next, next_nblock,
}
use pbnf.NblockGraph.FreeList.{listed, IsFreeList-done, block_before-IsStrictOrder}
use pbnf.NblockGraph.Cold.{IsScope}
use pbnf.NblockGraph.Claim.{IsConsistent, release-Released, occupy-Occupied}

module _ (interferes : ℕ → List ℕ) (scope : IsScope interferes) (num_nblocks : ℕ)
    (inside : (a b : ℕ) → mem a (interferes b) ≡ true → a < num_nblocks) where
  abbrev pub IsGood : Graph → Type 0
  IsGood = IsConsistent interferes scope num_nblocks inside

  -- Other free lists of free blocks will do.
  IsGood-list :
      (g : Graph) (q : Pq)
      → IsGood g
      → IsValid (block_before g.opens) q
      → ((x : ℕ) → is_some (q.index x) ≡ true → is_free g x ≡ true)
      → IsGood (record g { free_list = q })
  unfolding is_free
  IsGood-list g q c v f = record {
    steady = record {
      list = record { valid = v; free = f };
      counts = c.steady.counts;
      heated = c.steady.heated;
      zeros = c.steady.zeros;
    };
    sigmas = c.sigmas;
    running = c.running;
  }

  prune-unlisted : (g : Graph) → IsGood g → (b : ℕ) → listed (prune_free_list g) b ≡ false
  unfolding prune_free_list
  prune-unlisted g c b =
      let (valid, size, gone) =
        reset_correct (block_before g.opens) g.free_list c.steady.list.valid in
      ground (arith, gone b)

  pub set_done-IsGood : (g : Graph) → IsGood g → IsGood (set_done g)
  unfolding set_done
  set_done-IsGood g c = record {
    steady = record {
      list = IsFreeList-done g c.steady.list true true;
      counts = c.steady.counts;
      heated = c.steady.heated;
      zeros = c.steady.zeros;
    };
    sigmas = c.sigmas;
    running = c.running;
  }

  prune-IsGood :
      (g : Graph) → IsGood g → IsGood (prune_free_list g) × (fill (prune_free_list g).free_list ≡ 0)
  unfolding prune_free_list
  prune-IsGood g c =
      let (valid, size, gone) =
        reset_correct (block_before g.opens) g.free_list c.steady.list.valid in
      (IsGood-list g _ c valid (λ x h. ground (arith, h, gone x)), size)

  free_parts : (g : Graph) (b : ℕ) → is_free g b ≡ true → (g.inuse b ≡ false) × (g.sigma b ≡ 0)
  unfolding is_free
  free_parts g b h = ground (arith, h)

  -- What a call of `next_nblock` comes to, from the graph `g` after the release.
  abbrev pub Comes : ℕ → Graph → Graph → Outcome → Type 0
  Comes limit g h finished =
      (h.done ≡ true)
      × (h.inuse ≡ g.inuse)
      × (g.done ≡ false → (x : ℕ) → x < num_nblocks → g.sigma x ≡ 0)
  Comes limit g h waiting = (h.done ≡ false) × (h.inuse ≡ g.inuse) × (fill h.free_list ≡ 0)
  Comes limit g h aborted = ⊥
  Comes limit g h (assigned b) =
      (listed g b ≡ true)
      × (best_value g b < limit)
      × ((x : ℕ) → listed g x ≡ true → block_before g.opens x b ≡ false)
      × ((x : ℕ) → h.inuse x ≡ put g.inuse b true x)
      × ((x : ℕ) → mem x (interferes b) ≡ true → h.inuse x ≡ false)

  module _ (g : Graph) where
    pub starve-quiet :
        (g.num_sigma_zero == num_nblocks) ≡ true
        → starve interferes num_nblocks g ≡ (set_done g, finished)
    unfolding starve
    starve-quiet q = rw q

    starve-over :
        (g.num_sigma_zero == num_nblocks) ≡ false
        → g.done ≡ true
        → starve interferes num_nblocks g ≡ (g, finished)
    unfolding starve
    starve-over q d = ground (arith, q, d)

    starve-on :
        (g.num_sigma_zero == num_nblocks) ≡ false
        → g.done ≡ false
        → starve interferes num_nblocks g ≡ (g, waiting)
    unfolding starve
    starve-on q d = ground (arith, q, d)

  starve-Comes :
      (limit : ℕ) (g : Graph)
      → IsGood g
      → fill g.free_list ≡ 0
      → (let r = starve interferes num_nblocks g in IsGood r.0 × Comes limit g r.0 r.1)
  starve-Comes limit g c size = elim (Bool-cases (g.num_sigma_zero == num_nblocks)) [
    | inl quiet ↦
        let all : tally_below num_nblocks (λ x. g.sigma x == 0) ≡ num_nblocks =
          ground (arith, quiet, c.steady.zeros) in
        let none_busy : (x : ℕ) → x < num_nblocks → g.sigma x ≡ 0 = λ x lt.
          let at = tally_below-all num_nblocks (λ x. g.sigma x == 0) all x lt in
          ground (arith, at) in
        rw (starve-quiet g quiet)
          (set_done-IsGood g c, unfold set_done in (refl, refl, λ on. none_busy))
    | inr other ↦ elim (Bool-cases g.done) [
      | inl over ↦ rw (starve-over g other over) (c, (over, refl, λ on. cc))
      | inr on ↦ rw (starve-on g other on) (c, (on, refl, size))
    ]
  ]

  -- The block at the front is taken.
  take-Comes :
      (limit : ℕ) (g : Graph)
      → IsGood g
      → 0 < fill g.free_list
      → best_value g (cell g.free_list.heap 0) < limit
      → (let r =
            take_block interferes g (PriorityQueue.take_front (block_before g.opens) g.free_list) in
          IsGood r.0 × Comes limit g r.0 r.1)
  unfolding take_block
  take-Comes limit g c pos better =
      let b = cell g.free_list.heap 0 in
      let l = c.steady.list in
      let (result, removed, least) = parts (
        take_front_correct (block_before g.opens) (block_before-IsStrictOrder g.opens) g.free_list
          l.valid pos) in
      let rest = (PriorityQueue.take_front (block_before g.opens) g.free_list).1 in
      let here : listed g b ≡ true = ground (arith, l.valid.indexed.cells 0 pos) in
      let good =
        IsGood-list g rest c removed.valid
          (λ x h. l.free x (ground (arith, h, removed.members x))) in
      let free = free_parts g b (l.free b here) in
      let absent : is_some (rest.index b) ≡ false = removed.members b ∙ ground arith in
      let o =
        occupy-Occupied interferes scope num_nblocks inside (record g { free_list = rest }) b good
          absent free.1 free.0 in
      rw result (
        o.consistent,
        (
          here,
          better,
          λ x h. let (k, at) = is_some-true (g.free_list.index x) h in least x k at,
          o.inuse,
          λ x h. ground (
            arith,
            h,
            o.inuse x,
            scope.irrefl b,
            free.1,
            c.sigmas b,
            tally-pos g.inuse x (interferes b),
          ),
        ),
      )
    where
      parts :
          {r : Option ℕ × Pq}
          → Taken (block_before g.opens) (block_before-IsStrictOrder g.opens) g.free_list r
          → (r.0 ≡ some (cell g.free_list.heap 0))
            × Removed (block_before g.opens) (block_before-IsStrictOrder g.opens) g.free_list 0 r.1
            × ((x k : ℕ)
                → g.free_list.index x ≡ some k
                → block_before g.opens x (cell g.free_list.heap 0) ≡ false)
      parts t = (t.result, t.removed, t.least)

  resume-done :
      (limit : ℕ) (g : Graph)
      → g.done ≡ true
      → resume interferes num_nblocks limit g ≡ (g, finished)
  unfolding resume
  resume-done limit g d = ground (arith, d)

  module _ (limit : ℕ) (g : Graph) (on : g.done ≡ false) where
    resume-wait :
        PriorityQueue.empty g.free_list ≡ true
        → resume interferes num_nblocks limit g ≡ (g, waiting)
    unfolding resume
    resume-wait e = ground (arith, on, e)

    resume-prune :
        PriorityQueue.empty g.free_list ≡ false
        → leb limit (best_val g (PriorityQueue.front g.free_list)) ≡ true
        → resume interferes num_nblocks limit g ≡ starve interferes num_nblocks (prune_free_list g)
    unfolding resume
    resume-prune e p = ground (arith, on, e, p)

    pub resume-take :
        PriorityQueue.empty g.free_list ≡ false
        → leb limit (best_val g (PriorityQueue.front g.free_list)) ≡ false
        → resume interferes num_nblocks limit g
          ≡ take_block interferes g (PriorityQueue.take_front (block_before g.opens) g.free_list)
    unfolding resume
    resume-take e p = ground (arith, on, e, p)

  -- A pruning leaves all but the free list as it is.
  Comes-prune :
      (limit : ℕ) (g : Graph)
      → g.done ≡ false
      → (r : Graph × Outcome) → (IsGood r.0 × Comes limit (prune_free_list g) r.0 r.1)
      → ((b : ℕ) → listed (prune_free_list g) b ≡ false)
      → IsGood r.0 × Comes limit g r.0 r.1
  unfolding prune_free_list
  Comes-prune limit g on (h, finished) c gone = c
  Comes-prune limit g on (h, waiting) c gone = c
  Comes-prune limit g on (h, aborted) c gone = c
  Comes-prune limit g on (h, assigned b) c gone = absurd (ground (arith, c.1.0, gone b))

  -- From the wait loop on, woken up or not.
  pub resume-Comes :
      (limit : ℕ) (g : Graph)
      → IsGood g
      → (let r = resume interferes num_nblocks limit g in IsGood r.0 × Comes limit g r.0 r.1)
  resume-Comes limit g c = elim (Bool-cases g.done) [
    | inl over ↦ rw (resume-done limit g over) (c, (over, refl, λ on. ground (arith, over, on)))
    | inr on ↦ elim (Bool-cases (PriorityQueue.empty g.free_list)) [
      | inl e ↦ rw (resume-wait limit g on e) (c, (on, refl, empty-true g.free_list e))
      | inr e ↦
          let pos = empty-false g.free_list e in
          let top = front-some g.free_list pos in
          elim (Bool-cases (leb limit (best_val g (PriorityQueue.front g.free_list)))) [
            | inl worse ↦
                let (good, size) = prune-IsGood g c in
                rw (resume-prune limit g on e worse) (
                  Comes-prune limit g on _ (starve-Comes limit (prune_free_list g) good size)
                    (prune-unlisted g c))
            | inr better ↦
                rw (resume-take limit g on e better)
                  (take-Comes limit g c pos (within g top better))
          ]
    ]
  ]
    where
      within :
          (g : Graph)
          → PriorityQueue.front g.free_list ≡ some (cell g.free_list.heap 0)
          → leb limit (best_val g (PriorityQueue.front g.free_list)) ≡ false
          → best_value g (cell g.free_list.heap 0) < limit
      within g top better = let at = rw top at better in unfold best_val in ground (arith, at)

  next-Comes :
      (limit : ℕ) (g : Graph)
      → IsGood g
      → (let r = next interferes num_nblocks limit g in IsGood r.0 × Comes limit g r.0 r.1)
  unfolding next
  next-Comes limit g c = elim (Bool-cases (PriorityQueue.empty g.free_list)) [
    | inl e ↦ rw e (starve-Comes limit g c (empty-true g.free_list e))
    | inr e ↦ rw e (resume-Comes limit g c)
  ]

  -- The graph after the release, if there is one.
  abbrev pub given_back : Option ℕ → Graph → Graph
  given_back none g = g
  given_back (some n) g = release interferes g n

  -- `next_nblock`, called with the lock by a thread that has no block or gives back the block
  -- that it has, keeps the graph consistent. If it returns a block, that block was in the free
  -- list, its value is below `bound * weight`, no other block of the list comes before it, it is
  -- marked as in use, and no block that it interferes with is in use. If it returns NULL, the
  -- search is over, and if it finds that out itself then no block has a sigma. If it waits, the
  -- search goes on and the free list is empty. It never aborts.
  pub next_nblock_correct :
      (bound weight : ℕ) (given : Option ℕ) (g : Graph)
      → IsGood g
      → ((n : ℕ) → given ≡ some n → g.inuse n ≡ true)
      → (let r = next_nblock interferes num_nblocks bound weight given g in
          IsGood r.0 × Comes (bound * weight) (given_back given g) r.0 r.1)
  unfolding next_nblock
  next_nblock_correct bound weight none g c u = next-Comes (bound * weight) g c
  next_nblock_correct bound weight (some n) g c u =
      let t = release-Released interferes scope num_nblocks inside g n c (u n refl) in
      next-Comes (bound * weight) (release interferes g n) t.consistent
