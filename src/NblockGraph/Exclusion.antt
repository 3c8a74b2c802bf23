-- ===== src/NblockGraph/Exclusion.antt =====
-- src/pbnf_search.cc: what holds of the search threads in every reachable state.
use pbnf.Base.{
  ℕ, ◌*◌, ◌<◌, ◌≡◌, ◌≢◌, refl, ap, ◌∙◌, true, false, ◌∷◌, Option, none, some, length, ◌-◌, ◌/◌,
  arith, mem, tally-pos, is_some,
}
use pbnf.PriorityQueue.{cell}
use pbnf.NblockGraph.{
  Graph, Open, Outcome, finished, waiting, aborted, assigned, block_before, is_free, set_done,
  release, next_nblock,
}
use pbnf.NblockGraph.FreeList.{IsFreeList, listed}
use pbnf.NblockGraph.Scope.{
  Projection, IsProjection, interferes, interferes-IsScope, interferes-lt, in_scope,
  in_scope-disjoint, mem-successors,
}
use pbnf.NblockGraph.Claim.{IsConsistent, release-Released}
use pbnf.NblockGraph.Next.{Comes, next_nblock_correct, resume-Comes, set_done-IsGood}
use pbnf.NblockGraph.Hot.{set_hot_correct, wont_release_correct}
use pbnf.NblockGraph.System.{
  Thread, starting, searching, asleep, stopped, System, held, turn, Step, ask, wake, want, keep,
  expand, quit, Reach, here, later,
}

module _ (p : Projection) (ok : IsProjection p) where
  abbrev pub IsGood : Graph → Type 0
  IsGood = IsConsistent (interferes p) (interferes-IsScope p ok) p.num_nblocks (interferes-lt p ok)

  -- The graph is consistent, a block that is being searched is in use, and no two threads search
  -- one block.
  pub record IsSound (s : System) : Type 0 where
    pub graph : IsGood s.graph
    pub used : (t n : ℕ) → s.threads t ≡ searching n → s.graph.inuse n ≡ true
    pub alone : (t u n : ℕ) → s.threads t ≡ searching n → s.threads u ≡ searching n → t ≡ u

  -- The order of the free list depends on the open lists of the listed blocks alone.
  IsFreeList-opens :
      (g : Graph) (opens : ℕ → Open)
      → IsFreeList g
      → ((x : ℕ) → listed g x ≡ true → opens x ≡ g.opens x)
      → IsFreeList (record g { opens = opens })
  unfolding block_before is_free
  IsFreeList-opens g opens l same = record {
    valid = record {
      heap = λ c pos lt.
          let at = λ (j : ℕ) (r : j < length g.free_list.heap).
            same (cell g.free_list.heap j) (ap is_some (l.valid.indexed.cells j r).1) in
          rw (at c lt, at ((c - 1) / 2) (omega arith)) (l.valid.heap c pos lt);
      indexed = l.valid.indexed;
      room = l.valid.room;
      positive = l.valid.positive;
    };
    free = λ x h. rw (same x h) (l.free x h);
  }

  -- A thread writes where no free block is.
  expand-IsGood :
      (g : Graph) (n : ℕ) (opens : ℕ → Open)
      → IsGood g
      → g.inuse n ≡ true
      → ((x : ℕ) → mem x (n ∷ p.get_successors n) ≡ false → opens x ≡ g.opens x)
      → IsGood (record g { opens = opens })
  unfolding is_free
  expand-IsGood g n opens c used same =
      let sc = interferes-IsScope p ok in
      record {
        steady = record {
          list = IsFreeList-opens g opens c.steady.list (λ x h. same x (
              ground (
                arith,
                used,
                c.steady.list.free x h,
                mem-successors p ok n x,
                sc.symm x n,
                c.sigmas x,
                tally-pos g.inuse n (interferes p x),
              )));
          counts = c.steady.counts;
          heated = c.steady.heated;
          zeros = c.steady.zeros;
        };
        sigmas = c.sigmas;
        running = c.running;
      }

  -- The threads but `t` search blocks that are in use in `g`.
  abbrev Others : System → ℕ → Graph → Type 0
  Others s t g = (u n : ℕ) → u ≢ t → s.threads u ≡ searching n → g.inuse n ≡ true

  listed-idle : (g : Graph) (b : ℕ) → IsFreeList g → listed g b ≡ true → g.inuse b ≡ false
  unfolding is_free
  listed-idle g b l h = ground (arith, l.free b h)

  -- A thread goes on from the outcome of its call.
  turn-IsSound :
      (limit : ℕ) (s : System) (t : ℕ) (g : Graph) (r : Graph × Outcome)
      → IsSound s
      → IsGood g
      → Others s t g
      → (IsGood r.0
          × Comes
              (interferes p)
              (interferes-IsScope p ok)
              p.num_nblocks
              (interferes-lt p ok)
              limit
              g
              r.0
              r.1)
      → IsSound (turn s t r)
  turn-IsSound limit s t g (h, finished) v c o (good, (over, same, quiet)) = record {
    graph = good;
    used = λ u n e. rw same (ground (arith, e, o u n));
    alone = λ u w n e f. ground (arith, e, f, v.alone u w n);
  }
  turn-IsSound limit s t g (h, waiting) v c o (good, (on, same, none_free)) = record {
    graph = good;
    used = λ u n e. rw same (ground (arith, e, o u n));
    alone = λ u w n e f. ground (arith, e, f, v.alone u w n);
  }
  turn-IsSound limit s t g (h, aborted) v c o (good, never) = absurd never
  turn-IsSound limit s t g (h, assigned b) v c o (good, (was, better, first, inuse, apart)) =
      let idle = listed-idle g b c.steady.list was in
      record {
        graph = good;
        used = λ u n e. ground (arith, e, o u n, inuse n);
        alone = λ u w n e f. ground (arith, e, f, v.alone u w n, idle, o u n, o w n);
      }

  held-searching : (t : Thread) (n : ℕ) → held t ≡ some n → t ≡ searching n
  held-searching starting n e = cc
  held-searching (searching m) n e = ground (arith, e)
  held-searching asleep n e = cc
  held-searching stopped n e = cc

  ask-IsSound :
      (s : System) (t bound weight : ℕ) (o : Option ℕ)
      → IsSound s
      → held (s.threads t) ≡ o
      → IsSound (turn s t (next_nblock (interferes p) p.num_nblocks bound weight o s.graph))
  ask-IsSound s t bound weight none v e =
      turn-IsSound (bound * weight) s t s.graph _ v v.graph (λ u n ne h. v.used u n h)
        (next_nblock_correct (interferes p) (interferes-IsScope p ok) p.num_nblocks
          (interferes-lt p ok) bound weight none s.graph v.graph (λ n h. cc))
  ask-IsSound s t bound weight (some n) v e =
      let mine = held-searching (s.threads t) n e in
      let used = v.used t n mine in
      let r =
        release-Released (interferes p) (interferes-IsScope p ok) p.num_nblocks (interferes-lt p ok)
          s.graph n v.graph used in
      turn-IsSound (bound * weight) s t (release (interferes p) s.graph n) _ v r.consistent
        (λ u m ne h. ground (arith, ne, h, mine, v.used u m h, r.inuse m, v.alone u t n))
        (next_nblock_correct (interferes p) (interferes-IsScope p ok) p.num_nblocks
          (interferes-lt p ok) bound weight (some n) s.graph v.graph
          (λ m h. ground (arith, h, used)))

  -- Every step of a thread keeps the system sound.
  pub Step-IsSound : {s u : System} → Step p s u → IsSound s → IsSound u
  Step-IsSound {s} (ask t bound weight {o} e awake on) v = ask-IsSound s t bound weight o v e
  Step-IsSound {s} (wake t limit e) v =
      turn-IsSound limit s t s.graph _ v v.graph (λ u n ne h. v.used u n h)
        (resume-Comes (interferes p) (interferes-IsScope p ok) p.num_nblocks (interferes-lt p ok)
          limit s.graph v.graph)
  Step-IsSound {s} (want t b val e) v =
      let (good, same, change) =
        set_hot_correct (interferes p) (interferes-IsScope p ok) p.num_nblocks (interferes-lt p ok)
          s.graph b val v.graph in
      record { graph = good; used = λ t n h. rw same.inuse (v.used t n h); alone = v.alone }
  Step-IsSound {s} (keep t {n} e) v =
      let (good, same, cooled, quiet, kept) =
        wont_release_correct (interferes p) (interferes-IsScope p ok) p.num_nblocks
          (interferes-lt p ok) s.graph n v.graph in
      record { graph = good; used = λ t n h. rw same.inuse (v.used t n h); alone = v.alone }
  Step-IsSound {s} (expand t {n} opens e same) v = record {
    graph = expand-IsGood s.graph n opens v.graph (v.used t n e) same;
    used = v.used;
    alone = v.alone;
  }
  Step-IsSound {s} (quit t e) v = record {
    graph =
        set_done-IsGood (interferes p) (interferes-IsScope p ok) p.num_nblocks (interferes-lt p ok)
          s.graph v.graph;
    used = λ t n h. unfold set_done in v.used t n h;
    alone = v.alone;
  }

  pub Reach-IsSound : {s u : System} → IsSound s → Reach p s u → IsSound u
  Reach-IsSound v here = v
  Reach-IsSound v (later r st) = Step-IsSound st (Reach-IsSound v r)

  -- In every state that the threads reach from a sound one, two different threads that search
  -- blocks search different blocks, which do not interfere, and no block is in both their
  -- duplicate detection scopes.
  pub mutual_exclusion :
      {s u : System}
      → IsSound s
      → Reach p s u
      → (t w n m : ℕ) → u.threads t ≡ searching n
      → u.threads w ≡ searching m
      → t ≢ w
      → (n ≢ m)
        × (mem m (interferes p n) ≡ false)
        × ((x : ℕ) → in_scope p ok n x ≡ true → in_scope p ok m x ≡ false)
  mutual_exclusion {u} v r t w n m e f ne =
      let z = Reach-IsSound v r in
      let un = z.used t n e in
      let um = z.used w m f in
      let sc = interferes-IsScope p ok in
      let different : n ≢ m = λ same. ne (z.alone t w n e (rw same f)) in
      let apart : mem m (interferes p n) ≡ false = ground (
        arith,
        un,
        um,
        z.graph.running n un,
        z.graph.sigmas n,
        tally-pos u.graph.inuse m (interferes p n),
      ) in
      (different, apart, λ x h. in_scope-disjoint p ok n m x different apart h)

  -- No block that interferes with another is in use where no block has a sigma.
  idle_all :
      (g : Graph) (n : ℕ)
      → IsGood g
      → ((x : ℕ) → x < p.num_nblocks → g.sigma x ≡ 0)
      → ((m : ℕ) × (mem m (interferes p n) ≡ true))
      → g.inuse n ≡ true
      → ⊥
  idle_all g n c quiet (m, h) used = ground (
    arith,
    quiet m (interferes-lt p ok m n h),
    c.sigmas m,
    (interferes-IsScope p ok).symm n m ∙ h,
    tally-pos g.inuse n (interferes p m),
    used,
  )

  -- When a call of `next_nblock` finds out that the search is over, no thread but the caller is
  -- searching a block that interferes with another.
  pub done_quiescent :
      (s : System) (t bound weight : ℕ)
      → IsSound s
      → (next_nblock (interferes p) p.num_nblocks bound weight (held (s.threads t)) s.graph).1
        ≡ finished
      → s.graph.done ≡ false
      → (u n : ℕ) → u ≢ t
      → ((m : ℕ) × (mem m (interferes p n) ≡ true))
      → s.threads u ≢ searching n
  done_quiescent s t bound weight v call on u n ne linked busy =
      quiet (held (s.threads t)) refl call
    where
      quiet :
          (o : Option ℕ)
          → held (s.threads t) ≡ o
          → (next_nblock (interferes p) p.num_nblocks bound weight o s.graph).1 ≡ finished
          → ⊥
      quiet none e over =
          let c =
            next_nblock_correct (interferes p) (interferes-IsScope p ok) p.num_nblocks
              (interferes-lt p ok) bound weight none s.graph v.graph (λ n h. cc) in
          idle_all s.graph n v.graph ((rw over at c.1).2 on) linked (v.used u n busy)
      quiet (some k) e over =
          let mine = held-searching (s.threads t) k e in
          let used = v.used t k mine in
          let r =
            release-Released (interferes p) (interferes-IsScope p ok) p.num_nblocks
              (interferes-lt p ok) s.graph k v.graph used in
          let c =
            next_nblock_correct (interferes p) (interferes-IsScope p ok) p.num_nblocks
              (interferes-lt p ok) bound weight (some k) s.graph v.graph
              (λ m h. ground (arith, h, used)) in
          idle_all (release (interferes p) s.graph k) n r.consistent
            ((rw over at c.1).2 (r.done ∙ on)) linked
            (ground (arith, ne, busy, mine, v.used u n busy, r.inuse n, v.alone u t n))
