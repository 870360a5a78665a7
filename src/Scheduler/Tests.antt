-- ===== src/Scheduler/Tests.antt =====
-- One worker, or two, and one task, 7, from `scheff_schedule` to its end.
use libseff.Base.{
  ℕ, ◌+◌, ◌%◌, ◌<◌, ◌≤◌, ◌≡◌, ◌≢◌, ◌↔◌, refl, arith, none, some, true, [], ◌∷◌, count, length,
}
use libseff.Base.Memory.{update}
use libseff.CircularArray.{Elt}
use libseff.TaskQueue.{Held}
use libseff.Scheduler.{
  seeking, holding, finalizing, released, Scheduler, words, init, schedule, to, decrement, remove,
  try_get_task, created, returns, frees, uncounts, schedules, turn, takes, misses, Reach, start,
  later,
}
use libseff.Scheduler.Invariant.{held, in_hand, queued, carried, leaving, extras}
use libseff.Scheduler.Safety.{one_place, leave-done}
use libseff.Scheduler.Search.{try_get_task-none}

abbrev emptied : Held
emptied = record { slot = none; line = [] }

abbrev scheduled : ℕ → Scheduler
scheduled n = (schedule (init n) (some 7)).1

abbrev created0 : ℕ → Scheduler
created0 n = to (scheduled n) 0 (seeking 0)

abbrev taken : ℕ → Scheduler
taken n = record (to (created0 n) 0 (holding 7)) { queue = update (created0 n).queue 0 emptied }

taken-Reach : (n : ℕ) → 0 < n → Reach (taken n)
taken-Reach n h =
    later
      (later (later (start n h) (schedules 7 (λ i. refl) (λ e. ground (arith, e)) refl))
        (turn 0 h (created refl)))
      (takes 0 0 h h refl refl)

abbrev returned : Scheduler
returned = record (to (taken 1) 0 (finalizing 7)) {
  poll = update (taken 1).poll 7 none;
  finished = update (taken 1).finished 7 true;
}

abbrev freed : Scheduler
freed = record (to returned 0 released) { live = remove 7 (returned).live }

abbrev uncounted : Scheduler
uncounted = record (to freed 0 (seeking 0)) { remaining_tasks = decrement freed.remaining_tasks }

abbrev missed : Scheduler
missed = to uncounted 0 (seeking 1)

missed-Reach : Reach missed
missed-Reach =
    later
      (later
        (later (later (taken-Reach 1 (omega arith)) (turn 0 (omega arith) (returns refl refl)))
          (turn 0 (omega arith) (frees refl)))
        (turn 0 (omega arith) (uncounts refl)))
      (misses 0 0 (omega arith) (omega arith) refl refl)

one_place_example :
    ((x : Elt)
      → (count x (taken 2).live
          ≡ queued (taken 2) x
            + carried (taken 2) x
            + leaving (taken 2) x
            + count x (taken 2).sleeping)
        × (count x (taken 2).live ≤ 1))
    × ((taken 2).remaining_tasks ≡ (length (taken 2).live + extras (taken 2)) % words)
one_place_example = one_place (taken 2) (taken-Reach 2 (omega arith))

leave-done_example :
    (missed.live ≡ [])
    × (missed.sleeping ≡ [])
    × ((j : ℕ) → j < 1 → (held (missed.queue j) ≡ []) × (in_hand (missed.worker j) ≡ []))
leave-done_example = leave-done missed 0 missed-Reach refl refl (omega arith)

-- Worker 1 of three, with a task in the slot of queue 2 and one in the line of queue 0.
abbrev three : ℕ → Held
three =
    update (update (λ i. emptied) 2 (record { slot = some 5; line = [] })) 0
      (record { slot = none; line = 6 ∷ [] })

three-finds : (try_get_task three 1 3).0 ≡ some 6
unfolding try_get_task
three-finds = refl

try_get_task-none_example :
    (((try_get_task three 1 3).0 ≡ none)
      ↔ (((three 1).slot ≡ none) × ((j : ℕ) → j < 3 → (three j).line ≡ [])))
    × ((j : ℕ) → j ≢ 1 → ((try_get_task three 1 3).1 j).slot ≡ (three j).slot)
try_get_task-none_example = try_get_task-none three 1 3 (omega arith)
