-- ===== src/Lookups/Adding.antt =====
-- How the loops of interleaved lookups of bench/prefetching_lookups_bench get to their end, and their
-- step that makes coroutines.
use libseff.Base.{
  ℕ, zero, suc, ◌+◌, ◌-◌, ◌<◌, ◌≤◌, ◌≡◌, refl, sym, ap, subst, ◌∙◌, ◌⊎◌, inl, inr, arith, some,
  List, [], ◌∷◌, sum_of, sum_of_one,
}
use libseff.Base.Result.{Result, ok}
use libseff.Lookups.Queue.{capacity}
use libseff.Lookups.Fifo.{contents, length-contents}
use libseff.Lookups.Search.{SearchArgs}
use libseff.Lookups.Multi.{Task, Outcome, Phase, Lookup, Progress, fill, add_coroutines, run_loops}
use libseff.Lookups.PhaseCost.{phase_cost, phase_cost-ap, resuming_cost}
use libseff.Lookups.Counts.{value, one, open_sum, cost, Resumes, Starts, Holds, Fills, fill-Fills}
use libseff.Lookups.Rounds.{Inv, work}

-- At the head of the `for` loop there is room, and behind it nothing to add; in between, what
-- `Resuming` says.
abbrev pub ReadyIf : (Lookup → Type 0) → Lookup → Phase → Type 0
ReadyIf Resuming s Phase.adding = 0 < s.limit
ReadyIf Resuming s Phase.resuming = Resuming s
ReadyIf Resuming s Phase.finishing = s.pending ≡ []

module _ (v : List ℕ) (n : ℕ) (Good : Task → Type 0) (resumed : Task → Result Outcome) (streams : ℕ)
    (few : streams ≤ capacity) (starts : Starts v n Good resumed)
    (resumes : Resumes v n Good resumed) (total count : ℕ) where
  abbrev pub Invariant : Lookup → Type 0
  Invariant = Inv v n Good resumed streams few starts total count

  abbrev pub weight : Lookup → ℕ
  weight s = work v n Good resumed streams few starts s + phase_cost s.phase s.pending s.limit

  -- A step to a state in which `Ready` holds, with less to do, or the end with the counts due.
  abbrev pub Steps : (Lookup → Phase → Type 0) → Lookup → Result Progress → Type 0
  Steps Ready s result =
      ((s' : Lookup) × (result ≡ ok (Progress.go s'))
        × Invariant s'
        × Ready s' s'.phase
        × (weight s' < weight s))
      ⊎ (result ≡ ok (Progress.finished total (count - total)))

  module _ (step : Lookup → Phase → Result Progress) (Ready : Lookup → Phase → Type 0)
      (steps : (s : Lookup) → Invariant s → Ready s s.phase → Steps Ready s (step s s.phase)) where
    pub run_ends :
        (fuel : ℕ) (s : Lookup)
        → Invariant s
        → Ready s s.phase
        → weight s < fuel
        → run_loops step fuel s ≡ some (ok (total, count - total))
    unfolding run_loops
    run_ends zero s inv ready enough = absurd (omega arith)
    run_ends (suc fuel) s inv ready enough = elim (steps s inv ready) [
      | inl (s', e, inv', ready', less) ↦
          rw (run_loops, e) (run_ends fuel s' inv' ready' (omega arith))
      | inr e ↦ rw (run_loops, e) refl
    ]

  pub add_coroutines-Steps :
      (Resuming : Lookup → Type 0)
      → ((s : Lookup) → Invariant s → 0 < s.queue.size → Resuming s)
      → (s : Lookup) (pending : List SearchArgs) → s.pending ≡ pending
      → s.phase ≡ Phase.adding
      → Invariant s
      → 0 < s.limit
      → Steps (ReadyIf Resuming) s (ok (Progress.go (add_coroutines s pending)))
  add_coroutines-Steps Resuming goes s [] e phase inv room = inl (
    _,
    refl,
    record { holds = inv.holds; found_eq = inv.found_eq; all_eq = inv.all_eq },
    e,
    omega (arith, phase_cost-ap {l = s.limit} phase e refl),
  )
  add_coroutines-Steps Resuming goes s (arg ∷ rest) e phase inv room = inl (
    _,
    refl,
    inv',
    goes _ inv' (omega (arith, some_task)),
    omega (arith, sums cost, phase_cost-ap {l = s.limit} phase e refl, resuming_cost _ _ f.full),
  )
    where
      holds : Holds v n Good resumed streams (arg ∷ rest) s.limit s.queue
      holds = subst (λ p. Holds v n Good resumed streams p s.limit s.queue) e inv.holds

      f :
          Fills v n Good resumed streams few starts
            (arg ∷ rest)
            s.queue
            (fill (arg ∷ rest) s.limit s.queue)
      f = fill-Fills v n Good resumed streams few starts (arg ∷ rest) s.limit s.queue holds

      sums :
          (g : Task → ℕ)
          → open_sum g (fill (arg ∷ rest) s.limit s.queue).0 (fill (arg ∷ rest) s.limit s.queue).2
            ≡ open_sum g s.pending s.queue
      sums g = f.sums g ∙ ap (λ p. open_sum g p s.queue) (sym e)

      inv' : Invariant (add_coroutines s (arg ∷ rest))
      inv' = record {
        holds = f.holds;
        found_eq = omega (arith, inv.found_eq, sums (value v));
        all_eq = omega (arith, inv.all_eq, sums one);
      }

      some_task : 0 < (fill (arg ∷ rest) s.limit s.queue).2.size
      some_task = elim f.full [
        | inl zero_limit ↦ omega (arith, zero_limit, f.holds.streams_eq, holds.streams_eq, room)
        | inr none_left ↦ omega (
          arith,
          f.sums one,
          ap (sum_of (λ a. 1)) none_left,
          sum_of_one (contents (fill (arg ∷ rest) s.limit s.queue).2),
          length-contents (fill (arg ∷ rest) s.limit s.queue).2,
        )
      ]
