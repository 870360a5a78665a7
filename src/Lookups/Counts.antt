-- ===== src/Lookups/Counts.antt =====
-- What is counted of the coroutines of interleaved lookups, and what making more of them keeps, in
-- bench/prefetching_lookups_bench/libseff.c and libseff_effect_coro.c.
use libseff.Base.{
  ℕ, zero, suc, ◌+◌, ◌<◌, ◌≤◌, ◌≡◌, refl, sym, ap, subst, ◌⊎◌, inl, inr, arith, if◌then◌else◌, none,
  some, List, [], ◌∷◌, All, All-append, sum_of, sum_of-append,
}
use libseff.Base.Result.{Result, ok}
use libseff.Lookups.Queue.{capacity, CoroQueue, coro_queue_enqueue}
use libseff.Lookups.Fifo.{contents, IsRing, coro_queue_enqueue-IsRing, enqueue_room}
use libseff.Lookups.Search.{SearchArgs, Search}
use libseff.Lookups.Scan.{InRange, rounds, due}
use libseff.Lookups.Multi.{Task, fresh_task, Outcome, fill}

module _ (f : Task → ℕ) where
  -- A sum over the coroutines in the queue and the ones still to be made.
  abbrev pub open_sum : List SearchArgs → CoroQueue Task → ℕ
  open_sum pending queue = sum_of f (contents queue) + sum_of (λ arg. f (fresh_task arg)) pending

-- One for a search that is due to find its key.
abbrev pub value : List ℕ → Task → ℕ
value v task = elim task.coro [ none ↦ 0 | some coro ↦ if due v coro then 1 else 0 ]

-- More than the resumes that the task needs.
abbrev pub cost : Task → ℕ
cost task = 5 + elim task.coro [ none ↦ 0 | some coro ↦ rounds coro ]

abbrev pub one : Task → ℕ
one task = 1

module _ (v : List ℕ) (n : ℕ) (Good : Task → Type 0) (resumed : Task → Result Outcome) where
  -- A good task either goes on, is good, and is due the same answer with less to do, or gives the
  -- answer due.
  abbrev pub Moves : Task → Outcome → Type 0
  Moves task (Outcome.again task') =
      Good task' × (value v task' ≡ value v task) × (cost task' < cost task)
  Moves task (Outcome.done found) = (if found then 1 else 0) ≡ value v task

  abbrev pub Resumes : Type 0
  Resumes =
      (task : Task)
      → Good task
      → (outcome : Outcome) × (resumed task ≡ ok outcome) × Moves task outcome

  abbrev pub Starts : Type 0
  Starts = (arg : SearchArgs) → InRange n (Search.entry arg) → Good (fresh_task arg)

  -- The queue and what is still to be added, with at most `streams` coroutines at a time.
  pub record Holds (streams : ℕ) (pending : List SearchArgs) (limit : ℕ) (queue : CoroQueue Task)
      : Type 0 where
    pub ring : IsRing queue
    pub good : All Good (contents queue)
    pub in_range : All (λ arg. InRange n (Search.entry arg)) pending
    pub streams_eq : queue.size + limit ≡ streams

  module _ (streams : ℕ) (few : streams ≤ capacity) (starts : Starts) where
    pub enqueue-Holds :
        (pending : List SearchArgs) (limit : ℕ) (queue : CoroQueue Task) (task : Task)
        → Holds streams pending (suc limit) queue
        → Good task
        → Holds streams pending limit (coro_queue_enqueue queue task).0
    enqueue-Holds pending limit queue task h g =
        let e = enqueue_room queue task (omega (arith, h.streams_eq, few)) in
        record {
          ring = coro_queue_enqueue-IsRing queue task h.ring;
          good = subst (All Good) (sym e.1) (All-append Good (contents queue) _ h.good (g, tt));
          in_range = h.in_range;
          streams_eq = omega (arith, e.2, h.streams_eq);
        }

    pub open_sum-enqueue :
        (f : Task → ℕ) (pending : List SearchArgs) (limit : ℕ) (queue : CoroQueue Task)
        (task : Task)
        → Holds streams pending (suc limit) queue
        → open_sum f pending (coro_queue_enqueue queue task).0 ≡ open_sum f pending queue + f task
    open_sum-enqueue f pending limit queue task h =
        let e = enqueue_room queue task (omega (arith, h.streams_eq, few)) in
        omega (arith, ap (sum_of f) e.1, sum_of-append f (contents queue) (task ∷ []))

    -- What `fill` does to the coroutines: none is lost or changed, and it ends at the limit or with
    -- nothing left to add.
    pub record Fills (pending : List SearchArgs) (queue : CoroQueue Task)
        (after : List SearchArgs × ℕ × CoroQueue Task) : Type 0 where
      pub holds : Holds streams after.0 after.1 after.2
      pub sums : (f : Task → ℕ) → open_sum f after.0 after.2 ≡ open_sum f pending queue
      pub full : (after.1 ≡ 0) ⊎ (after.0 ≡ [])
      pub more : queue.size ≤ after.2.size

    pub fill-Fills :
        (pending : List SearchArgs) (limit : ℕ) (queue : CoroQueue Task)
        → Holds streams pending limit queue
        → Fills pending queue (fill pending limit queue)
    unfolding fill
    fill-Fills [] limit queue h = record {
      holds = h;
      sums = λ f. refl;
      full = inr refl;
      more = omega arith;
    }
    fill-Fills (arg ∷ pending) zero queue h = record {
      holds = h;
      sums = λ f. refl;
      full = inl refl;
      more = omega arith;
    }
    fill-Fills (arg ∷ pending) (suc limit) queue h =
        let h' : Holds streams pending (suc limit) queue = record {
          ring = h.ring;
          good = h.good;
          in_range = h.in_range.1;
          streams_eq = h.streams_eq;
        } in
        let rest =
          fill-Fills pending limit _
            (enqueue-Holds pending limit queue (fresh_task arg) h' (starts arg h.in_range.0)) in
        let room = enqueue_room queue (fresh_task arg) (omega (arith, h.streams_eq, few)) in
        record {
          holds = rest.holds;
          sums = λ f.
              omega
                (arith, rest.sums f, open_sum-enqueue f pending limit queue (fresh_task arg) h');
          full = rest.full;
          more = omega (arith, rest.more, room.2);
        }
