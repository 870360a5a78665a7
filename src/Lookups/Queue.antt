-- ===== src/Lookups/Queue.antt =====
-- The ring of waiting coroutines of bench/prefetching_lookups_bench/libseff_infra.h. The calls of
-- `calloc` succeed. `nothing` stands for `{NULL, NULL}`.
use libseff.Base.{ℕ, ◌+◌, ◌-◌, ◌%◌, Bool, true, false, ◌==◌, if◌then◌else◌}
use libseff.Base.Memory.{update}

abbrev pub capacity : ℕ
capacity = 256

pub record CoroQueue (T : Type 0) : Type 0 where
  pub coros : ℕ → T
  pub start : ℕ
  pub size : ℕ

module _ {T : Type 0} (nothing : T) where
  unfoldable pub coro_queue_init : CoroQueue T
  coro_queue_init = record { coros = λ i. nothing; start = 0; size = 0 }

  unfoldable pub coro_queue_dequeue : CoroQueue T → T × CoroQueue T
  coro_queue_dequeue queue = if queue.size == 0 then (nothing, queue) else (
    queue.coros queue.start,
    record queue { start = (queue.start + 1) % capacity; size = queue.size - 1 },
  )

module _ {T : Type 0} where
  unfoldable pub coro_queue_size : CoroQueue T → ℕ
  coro_queue_size queue = queue.size

  unfoldable pub coro_queue_empty : CoroQueue T → Bool
  coro_queue_empty queue = queue.size == 0

  unfoldable pub coro_queue_enqueue : CoroQueue T → T → CoroQueue T × Bool
  coro_queue_enqueue queue task = if queue.size == capacity then (queue, false) else (
    record queue {
      coros = update queue.coros ((queue.start + queue.size) % capacity) task;
      size = queue.size + 1;
    },
    true,
  )
