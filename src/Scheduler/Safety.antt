-- ===== src/Scheduler/Safety.antt =====
-- Who has which task, and what `remaining_tasks` says.
use libseff.Base.{
  ℕ, ◌+◌, ◌%◌, ◌<◌, ◌≤◌, ◌≡◌, ◌≢◌, refl, ap, arith, false, List, [], ◌∷◌, count, length, Bool-cases,
  inl, inr,
}
use libseff.CircularArray.{Elt}
use libseff.Scheduler.{
  Worker, unstarted, seeking, holding, forking, pushing, finalizing, released, ended, fatal,
  faulted, Scheduler, words, Reach,
}
use libseff.Scheduler.Sums.{sum_ge, sum_ge_two, sum-le_count}
use libseff.Scheduler.Invariant.{held, in_hand, extra, queued, carried, leaving, extras}
use libseff.Scheduler.Conserved.{reach-Inv}

-- In every state that is reached, a task that is allocated is in exactly one place: in a queue, in
-- the hands of a worker, about to be freed by one, or asleep; what is not allocated is in none; and
-- remaining_tasks is the number of the allocated tasks with those that a worker is about to allocate
-- or has just freed, modulo 2^64.
pub one_place :
    (s : Scheduler)
    → Reach s
    → ((x : Elt)
        → (count x s.live ≡ queued s x + carried s x + leaving s x + count x s.sleeping)
          × (count x s.live ≤ 1))
      × (s.remaining_tasks ≡ (length s.live + extras s) % words)
one_place s r = let v = reach-Inv r in (λ x. (v.once x, v.single x), v.counted)

-- In every state that is reached, a task in the hands of a worker is in the hands of no other, and it
-- is in no queue and not asleep.
pub one_worker :
    (s : Scheduler) (i j : ℕ) (x : Elt)
    → Reach s
    → i ≢ j
    → i < s.n_workers
    → j < s.n_workers
    → 1 ≤ count x (in_hand (s.worker i))
    → (count x (in_hand (s.worker j)) ≡ 0) × (queued s x ≡ 0) × (count x s.sleeping ≡ 0)
one_worker s i j x r ne hi hj h =
    let v = reach-Inv r in
    let two = sum_ge_two s.n_workers (λ k. count x (in_hand (s.worker k))) i j ne hi hj in
    let o = v.once x in
    let l = v.single x in
    (omega (arith, two, o, l, h), omega (arith, two, o, l, h), omega (arith, two, o, l, h))

-- In every state that is reached, the task that scheff_try_get_task gave a worker is allocated and
-- its coroutine is PAUSED, so that no worker comes to the fatal error.
pub held_paused :
    (s : Scheduler) (i : ℕ) (t : Elt)
    → Reach s
    → i < s.n_workers
    → s.worker i ≡ holding t
    → (s.finished t ≡ false) × (count t s.live ≡ 1)
held_paused s i t r hi e =
    let v = reach-Inv r in
    let h : 1 ≤ count t (in_hand (s.worker i)) = rw e (ground arith) in
    let one = sum_ge s.n_workers (λ k. count t (in_hand (s.worker k))) i hi in
    let o = v.once t in
    let l = v.single t in
    (
      elim (Bool-cases (s.finished t)) [ inl y ↦ ground (arith, v.gone t y, one, h) | inr n ↦ n ],
      omega (arith, one, o, l, h),
    )

length-nil : (l : List Elt) → length l ≡ 0 → l ≡ []
length-nil [] h = refl
length-nil (t ∷ l) h = ground (arith, h)

counts-nil : (l : List Elt) → ((x : Elt) → count x l ≡ 0) → l ≡ []
counts-nil [] h = refl
counts-nil (t ∷ l) h = ground (arith, h t)

extra_le : (w : Worker) → extra w ≤ 1
extra_le unstarted = ground arith
extra_le (seeking i) = ground arith
extra_le (holding t) = ground arith
extra_le (forking t) = ground arith
extra_le (pushing todo last) = ground arith
extra_le (finalizing t) = ground arith
extra_le released = ground arith
extra_le ended = ground arith
extra_le (fatal t) = ground arith
extra_le (faulted t) = ground arith

-- When a worker leaves its loop, having found no task and remaining_tasks 0, and while there are
-- fewer than 2^64 tasks and workers, no task is allocated: all queues are empty, none sleeps, and no
-- worker has one in its hands.
pub leave-done :
    (s : Scheduler) (i : ℕ)
    → Reach s
    → s.worker i ≡ seeking s.n_workers
    → s.remaining_tasks ≡ 0
    → length s.live + s.n_workers < words
    → (s.live ≡ [])
      × (s.sleeping ≡ [])
      × ((j : ℕ) → j < s.n_workers → (held (s.queue j) ≡ []) × (in_hand (s.worker j) ≡ []))
leave-done s i r at z small =
    let v = reach-Inv r in
    let few = sum-le_count s.n_workers (λ k. extra (s.worker k)) (λ k. extra_le (s.worker k)) in
    let none_left : length s.live ≡ 0 = omega (arith, z, v.counted, few, small) in
    let nowhere = λ (x : Elt). ap (count x) (length-nil s.live none_left) in
    (
      length-nil s.live none_left,
      counts-nil s.sleeping (λ x. omega (arith, v.once x, nowhere x)),
      λ j lt. (
        counts-nil (held (s.queue j)) (λ x. omega (
          arith,
          v.once x,
          nowhere x,
          sum_ge s.n_workers (λ k. count x (held (s.queue k))) j lt,
        )),
        counts-nil (in_hand (s.worker j)) (λ x. omega (
          arith,
          v.once x,
          nowhere x,
          sum_ge s.n_workers (λ k. count x (in_hand (s.worker k))) j lt,
        )),
      ),
    )
