-- ===== src/Lookups/Rounds.antt =====
-- What every round of the loops of interleaved lookups keeps, in
-- bench/prefetching_lookups_bench/libseff.c and libseff_effect_coro.c.
use libseff.Base.{
  ℕ, suc, ◌+◌, ◌<◌, ◌≤◌, ◌≡◌, refl, sym, ap, subst, ◌⊎◌, inl, inr, arith, true, false, List, [],
  ◌∷◌, length, All, sum_of,
}
use libseff.Base.Result.{Result, ok}
use libseff.Lookups.Queue.{capacity, CoroQueue}
use libseff.Lookups.Fifo.{contents, IsRing, dequeue-IsRing, dequeue-eq}
use libseff.Lookups.Multi.{Task, null_task, Outcome, Phase, Lookup, Progress, settle, round}
use libseff.Lookups.Counts.{
  open_sum, value, cost, one, Moves, Resumes, Starts, Holds, enqueue-Holds, open_sum-enqueue,
}

module _ (v : List ℕ) (n : ℕ) (Good : Task → Type 0) (resumed : Task → Result Outcome) (streams : ℕ)
    (few : streams ≤ capacity) (starts : Starts v n Good resumed) where
  -- `total` searches are due to find their key, of `count`.
  pub record Inv (total count : ℕ) (s : Lookup) : Type 0 where
    pub holds : Holds v n Good resumed streams s.pending s.limit s.queue
    pub found_eq : s.found_count + open_sum (value v) s.pending s.queue ≡ total
    pub all_eq : s.found_count + s.not_found_count + open_sum one s.pending s.queue ≡ count

  abbrev pub work : Lookup → ℕ
  work s = open_sum cost s.pending s.queue

  -- What a round changes besides: it goes on with the same task, or settles it.
  abbrev pub Turned : Lookup → Phase → Lookup → Type 0
  Turned s after s' =
      ((s'.phase ≡ s.phase) × (s'.limit ≡ s.limit) × (s'.pending ≡ s.pending) × (work s' < work s))
      ⊎ ((s'.phase ≡ after)
          × (s'.limit ≡ s.limit + 1)
          × (s'.pending ≡ s.pending)
          × (work s' + 5 ≤ work s))

  module _ (total count : ℕ) (resumes : Resumes v n Good resumed) (s : Lookup) (after : Phase)
      (inv : Inv total count s) where
    abbrev pub Rounds : Type 0
    Rounds =
        (s' : Lookup) × (round resumed s after ≡ ok (Progress.go s'))
        × Inv total count s'
        × Turned s after s'

    -- `queue` is what is left once `task` is taken.
    module _ (task : Task) (rest : List Task) (queue : CoroQueue Task)
        (whole : contents s.queue ≡ task ∷ rest) (left : contents queue ≡ rest)
        (size_eq : queue.size + 1 ≡ s.queue.size) (ring : IsRing queue) where
      taken : (f : Task → ℕ) → open_sum f s.pending s.queue ≡ open_sum f s.pending queue + f task
      taken f = omega (arith, ap (sum_of f) whole, ap (sum_of f) left)

      goods : Good task × All Good rest
      goods = subst (All Good) whole inv.holds.good

      left-Holds : Holds v n Good resumed streams s.pending (s.limit + 1) queue
      left-Holds = record {
        ring = ring;
        good = subst (All Good) (sym left) goods.1;
        in_range = inv.holds.in_range;
        streams_eq = omega (arith, inv.holds.streams_eq, size_eq);
      }

      left-Holds-suc : Holds v n Good resumed streams s.pending (suc s.limit) queue
      left-Holds-suc = record {
        ring = ring;
        good = left-Holds.good;
        in_range = inv.holds.in_range;
        streams_eq = omega (arith, left-Holds.streams_eq);
      }

      settle-Inv :
          (outcome : Outcome)
          → Moves v n Good resumed task outcome
          → Inv total count (settle s queue after outcome)
            × Turned s after (settle s queue after outcome)
      settle-Inv (Outcome.again task') m =
          let sums = λ (f : Task → ℕ).
            open_sum-enqueue v n Good resumed streams few starts f s.pending s.limit queue task'
              left-Holds-suc in
          (
            record {
              holds =
                  enqueue-Holds v n Good resumed streams few starts s.pending s.limit queue task'
                    left-Holds-suc m.0;
              found_eq = omega (arith, inv.found_eq, taken (value v), sums (value v), m.1);
              all_eq = omega (arith, inv.all_eq, taken one, sums one);
            },
            inl (refl, refl, refl, omega (arith, taken cost, sums cost, m.2)),
          )
      settle-Inv (Outcome.done true) m = (
        record {
          holds = left-Holds;
          found_eq = omega (arith, inv.found_eq, taken (value v), m);
          all_eq = omega (arith, inv.all_eq, taken one);
        },
        inr (refl, refl, refl, omega (arith, taken cost)),
      )
      settle-Inv (Outcome.done false) m = (
        record {
          holds = left-Holds;
          found_eq = omega (arith, inv.found_eq, taken (value v), m);
          all_eq = omega (arith, inv.all_eq, taken one);
        },
        inr (refl, refl, refl, omega (arith, taken cost)),
      )

    pub round-Rounds : (tasks : List Task) → contents s.queue ≡ tasks → 0 < length tasks → Rounds
    unfolding round
    round-Rounds [] e pos = absurd (omega arith)
    round-Rounds (task ∷ rest) e pos =
        let d = dequeue-eq null_task s.queue task rest inv.holds.ring e in
        let good = (subst (All Good) e inv.holds.good).0 in
        let (outcome, r, m) = resumes task good in
        let i =
          settle-Inv task rest _ e d.1 d.2 (dequeue-IsRing null_task s.queue inv.holds.ring) outcome
            m in
        (_, rw (d.0, r) refl, i.0, i.1)
