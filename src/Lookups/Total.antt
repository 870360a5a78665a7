-- ===== src/Lookups/Total.antt =====
-- What `SeffMultiLookup` and `SeffEffectMultiLookup` of bench/prefetching_lookups_bench return.
use libseff.Base.{
  ℕ, ◌+◌, ◌-◌, ◌*◌, ◌<◌, ◌≤◌, ◌≡◌, refl, arith, some, List, [], ◌∷◌, length, All, sum_of,
  sum_of_one,
}
use libseff.Base.Result.{Result, ok}
use libseff.Lookups.Queue.{capacity, coro_queue_init}
use libseff.Lookups.Search.{SearchArgs, Search}
use libseff.Lookups.Scan.{IsSorted, hits, InRange}
use libseff.Lookups.Multi.{
  Phase, Task, fresh_task, Outcome, Lookup, Progress, args_of, initial, seff_step, effect_step,
  seff_resumed, effect_resumed, seff_multi_lookup, seff_effect_multi_lookup, run_loops,
}
use libseff.Lookups.Counts.{value, cost, Resumes, Starts}
use native.Mathlib.Nat.{suc-mul}
use libseff.Lookups.PhaseCost.{phase_cost, phase_cost-le}
use libseff.Lookups.Adding.{ReadyIf, Invariant, weight, Steps, run_ends}
use libseff.Lookups.Ends.{seff_step-Steps, effect_step-Steps}
use libseff.Lookups.Resumes.{SeffGood, EffectGood, seff_resumed-Resumes, effect_resumed-Resumes}

-- The rounds of the loops that are enough.
abbrev pub enough_fuel : ℕ → List ℕ → ℕ
enough_fuel n lookups = length lookups * (n + 6) + 5

-- The searches that are due to find their key, their number, and the work at the start.
module _ (v : List ℕ) (n : ℕ) where
  sum-args_of :
      (f : SearchArgs → ℕ) (keys : List ℕ)
      → sum_of f (args_of n keys)
        ≡ sum_of (λ key. f (record { first = 0; len = n; key = key })) keys
  sum-args_of f [] = refl
  sum-args_of f (key ∷ keys) = omega (arith, sum-args_of f keys)

  args_of-InRange : (keys : List ℕ) → All (λ arg. InRange n (Search.entry arg)) (args_of n keys)
  args_of-InRange [] = tt
  args_of-InRange (key ∷ keys) = (omega arith, args_of-InRange keys)

  args_of-cost :
      (keys : List ℕ)
      → sum_of (λ arg. cost (fresh_task arg)) (args_of n keys) ≡ length keys * (n + 6)
  args_of-cost [] = omega arith
  args_of-cost (key ∷ keys) = omega (arith, args_of-cost keys, suc-mul (length keys) (n + 6))

  module _ (Good : Task → Type 0) (resumed : Task → Result Outcome) (lookups : List ℕ) (streams : ℕ)
      (few : streams ≤ capacity) (some_streams : 0 < streams) (starts : Starts v n Good resumed)
      (resumes : Resumes v n Good resumed) where
    initial-Invariant :
        Invariant v n Good resumed streams few starts resumes
          (hits v n lookups)
          (length lookups)
          (initial n lookups streams)
    unfolding initial coro_queue_init
    initial-Invariant = record {
      holds = record {
        ring = omega arith;
        good = tt;
        in_range = args_of-InRange lookups;
        streams_eq = omega arith;
      };
      found_eq = omega (arith, sum-args_of (λ arg. value v (fresh_task arg)) lookups);
      all_eq = omega (arith, sum-args_of (λ arg. 1) lookups, sum_of_one lookups);
    }

    initial-weight :
        weight v n Good resumed streams few starts resumes
          (hits v n lookups)
          (length lookups)
          (initial n lookups streams)
        < enough_fuel n lookups
    unfolding initial coro_queue_init
    initial-weight = small
      where
        small :
            0
              + sum_of (λ arg. cost (fresh_task arg)) (args_of n lookups)
              + phase_cost Phase.adding (args_of n lookups) streams
            < enough_fuel n lookups
        small =
            omega
              (arith, args_of-cost lookups, phase_cost-le Phase.adding (args_of n lookups) streams)

  -- From the start the loops end with the counts due.
  module _ (Good : Task → Type 0) (resumed : Task → Result Outcome) (lookups : List ℕ) (streams : ℕ)
      (few : streams ≤ capacity) (some_streams : 0 < streams) (starts : Starts v n Good resumed)
      (resumes : Resumes v n Good resumed) (step : Lookup → Phase → Result Progress)
      (Resuming : Lookup → Type 0) where
    abbrev Ready : Lookup → Phase → Type 0
    Ready = ReadyIf Resuming

    run_loops-counts :
        ((s : Lookup)
          → Invariant v n Good resumed streams few starts resumes
              (hits v n lookups)
              (length lookups)
              s
          → Ready s s.phase
          → Steps v n Good resumed streams few starts resumes
              (hits v n lookups)
              (length lookups)
              Ready
              s
              (step s s.phase))
        → run_loops step (enough_fuel n lookups) (initial n lookups streams)
          ≡ some (ok (hits v n lookups, length lookups - hits v n lookups))
    unfolding initial
    run_loops-counts steps =
        run_ends v n Good resumed streams few starts resumes (hits v n lookups) (length lookups)
          step Ready steps (enough_fuel n lookups) (initial n lookups streams)
          (initial-Invariant Good resumed lookups streams few some_streams starts resumes)
          some_streams (initial-weight Good resumed lookups streams few some_streams starts resumes)

module _ (v : List ℕ) (v_size : ℕ) (lookups : List ℕ) (streams : ℕ) (sorted : IsSorted v v_size)
    (some_streams : 0 < streams) (few : streams ≤ capacity) where
  -- With 1 to 256 streams, on an array that is in order and whose `v_size` ints are allocated,
  -- `SeffMultiLookup` ends without a fault, after a number of rounds that is at most the number of keys
  -- times `v_size` + 6, and 5 more; it returns how many of the keys stand in the array, and
  -- `not_found_count` is the number of the others.
  pub seff_multi_lookup-hits :
      v_size ≤ length v
      → seff_multi_lookup (enough_fuel v_size lookups) v v_size lookups streams
        ≡ some (ok (hits v v_size lookups, length lookups - hits v v_size lookups))
  unfolding seff_multi_lookup
  seff_multi_lookup-hits fits =
      run_loops-counts v v_size (SeffGood v v_size sorted) (seff_resumed v) lookups streams few
        some_streams (λ arg range. range) resumes (seff_step (seff_resumed v) streams)
        (λ s. 0 < s.queue.size)
        (λ s. seff_step-Steps v v_size _ _ streams few _ resumes _ _ s s.phase refl)
    where
      resumes : Resumes v v_size (SeffGood v v_size sorted) (seff_resumed v)
      resumes task = seff_resumed-Resumes v v_size sorted fits task.extra task.coro

  -- With 1 to 256 streams, on an array that is in order and behind whose `v_size` ints one more is
  -- allocated, `SeffEffectMultiLookup` ends without a fault, after a number of rounds that is at most
  -- the number of keys times `v_size` + 6, and 5 more; it returns how many of the keys stand in the
  -- array, and `not_found_count` is the number of the others.
  pub seff_effect_multi_lookup-hits :
      v_size < length v
      → seff_effect_multi_lookup (enough_fuel v_size lookups) v v_size lookups streams
        ≡ some (ok (hits v v_size lookups, length lookups - hits v v_size lookups))
  unfolding seff_effect_multi_lookup
  seff_effect_multi_lookup-hits room =
      run_loops-counts v v_size (EffectGood v v_size sorted) (effect_resumed v) lookups streams few
        some_streams (λ arg range. (range, refl)) resumes (effect_step (effect_resumed v) streams)
        (λ s. Unit)
        (λ s. effect_step-Steps v v_size _ _ streams few _ resumes _ _ some_streams s s.phase refl)
    where
      resumes : Resumes v v_size (EffectGood v v_size sorted) (effect_resumed v)
      resumes task = effect_resumed-Resumes v v_size sorted room task.extra task.coro
