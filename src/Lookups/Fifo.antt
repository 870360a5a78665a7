-- ===== src/Lookups/Fifo.antt =====
-- The ring of bench/prefetching_lookups_bench/libseff_infra.h as a list of at most 256 tasks.
use libseff.Base.{
  ℕ, zero, suc, ◌+◌, ◌-◌, ◌%◌, ◌<◌, ◌≤◌, ◌≡◌, refl, ap, ap₂, ◌∙◌, arith, true, false, ◌==◌, List,
  [], ◌∷◌, ◌++◌, length,
}
use libseff.Base.Memory.{update, update_self, update_ne}
use libseff.CircularArray.Window.{mod-ne}
use libseff.Lookups.Queue.{capacity, CoroQueue, coro_queue_enqueue, coro_queue_dequeue}

module _ {T : Type 0} where
  -- The tasks in the cells from `start` on, `n` of them.
  abbrev pub window : (ℕ → T) → ℕ → ℕ → List T
  window coros start zero = []
  window coros start (suc n) = coros (start % capacity) ∷ window coros (start + 1) n

  abbrev pub contents : CoroQueue T → List T
  contents queue = window queue.coros queue.start queue.size

  length-window : (coros : ℕ → T) (start n : ℕ) → length (window coros start n) ≡ n
  length-window coros start zero = refl
  length-window coros start (suc n) = omega (arith, length-window coros (start + 1) n)

  window-mod :
      (coros : ℕ → T) (n s t : ℕ)
      → s % capacity ≡ t % capacity
      → window coros s n ≡ window coros t n
  window-mod coros zero s t e = refl
  window-mod coros (suc n) s t e =
      ap₂ ◌∷◌ (ap coros e) (window-mod coros n (s + 1) (t + 1) (omega arith))

  window-untouched :
      (coros : ℕ → T) (task : T) (n start d : ℕ)
      → n ≤ d
      → d < capacity
      → window (update coros ((start + d) % capacity) task) start n ≡ window coros start n
  window-untouched coros task zero start d le small = refl
  window-untouched coros task (suc n) start d le small =
      ap₂ ◌∷◌ (update_ne coros _ task _ (mod-ne capacity start d (omega arith) small)) (
        ap (λ i. window (update coros (i % capacity) task) (start + 1) n) moved
        ∙ window-untouched coros task n (start + 1) (d - 1) (omega arith) (omega arith))
    where
      moved : start + d ≡ start + 1 + (d - 1)
      moved = omega arith

  -- A write right behind the window, which is not the whole ring.
  window-update :
      (coros : ℕ → T) (task : T) (n start : ℕ)
      → n < capacity
      → window (update coros ((start + n) % capacity) task) start (suc n)
        ≡ window coros start n ++ task ∷ []
  window-update coros task zero start small =
      ap (λ x. x ∷ [])
        (ap (update coros ((start + 0) % capacity) task) at_start ∙ update_self coros _ task)
    where
      at_start : start % capacity ≡ (start + 0) % capacity
      at_start = omega arith
  window-update coros task (suc n) start small =
      ap₂ ◌∷◌ (update_ne coros _ task _ (mod-ne capacity start (suc n) (omega arith) (omega arith)))
        (ap (λ i. window (update coros (i % capacity) task) (start + 1) (suc n)) moved
          ∙ window-update coros task n (start + 1) (omega arith))
    where
      moved : start + suc n ≡ start + 1 + n
      moved = omega arith

  pub record IsRing (queue : CoroQueue T) : Type 0 where
    pub start_small : queue.start < capacity
    pub size_small : queue.size ≤ capacity

  pub length-contents : (queue : CoroQueue T) → length (contents queue) ≡ queue.size
  length-contents queue = length-window queue.coros queue.start queue.size

  pub coro_queue_enqueue-IsRing :
      (queue : CoroQueue T) (task : T) → IsRing queue → IsRing (coro_queue_enqueue queue task).0
  unfolding coro_queue_enqueue
  coro_queue_enqueue-IsRing queue task r = ground arith

  pub enqueue_room :
      (queue : CoroQueue T) (task : T)
      → queue.size < capacity
      → ((coro_queue_enqueue queue task).1 ≡ true)
        × (contents (coro_queue_enqueue queue task).0 ≡ contents queue ++ task ∷ [])
        × ((coro_queue_enqueue queue task).0.size ≡ queue.size + 1)
  unfolding coro_queue_enqueue
  enqueue_room queue task small = rw room (
    refl,
    ap (window (update queue.coros ((queue.start + queue.size) % capacity) task) queue.start) more
        ∙ window-update queue.coros task queue.size queue.start small,
    refl,
  )
    where
      more : queue.size + 1 ≡ suc queue.size
      more = omega arith

      room : (queue.size == capacity) ≡ false
      room = ground arith

  pub enqueue_full :
      (queue : CoroQueue T) (task : T)
      → queue.size ≡ capacity
      → coro_queue_enqueue queue task ≡ (queue, false)
  unfolding coro_queue_enqueue
  enqueue_full queue task full = rw full refl

  pub dequeue-IsRing :
      (nothing : T) (queue : CoroQueue T)
      → IsRing queue
      → IsRing (coro_queue_dequeue nothing queue).1
  unfolding coro_queue_dequeue
  dequeue-IsRing nothing queue r = ground arith

  dequeue_suc :
      (nothing : T) (queue : CoroQueue T) (n : ℕ)
      → queue.size ≡ suc n
      → coro_queue_dequeue nothing queue
        ≡ (queue.coros queue.start, record queue { start = (queue.start + 1) % capacity; size = n })
  unfolding coro_queue_dequeue
  dequeue_suc nothing queue n e = rw (some_task, less) refl
    where
      less : queue.size - 1 ≡ n
      less = omega (arith, e)

      some_task : (queue.size == 0) ≡ false
      some_task = ground (arith, e)

  pub dequeue-eq :
      (nothing : T) (queue : CoroQueue T) (task : T) (rest : List T)
      → IsRing queue
      → contents queue ≡ task ∷ rest
      → ((coro_queue_dequeue nothing queue).0 ≡ task)
        × (contents (coro_queue_dequeue nothing queue).1 ≡ rest)
        × ((coro_queue_dequeue nothing queue).1.size + 1 ≡ queue.size)
  dequeue-eq nothing queue task rest r e = rw (dequeue_suc nothing queue (length rest) size_eq) (
    ap queue.coros at_start ∙ cc whole,
    window-mod queue.coros (length rest) _ (queue.start + 1) (omega arith) ∙ cc whole,
    omega (arith, size_eq),
  )
    where
      size_eq : queue.size ≡ suc (length rest)
      size_eq = omega (arith, length-contents queue, ap length e)

      at_start : queue.start ≡ queue.start % capacity
      at_start = omega (arith, r.start_small)

      whole : window queue.coros queue.start (suc (length rest)) ≡ task ∷ rest
      whole = rw size_eq at e

  pub dequeue_none :
      (nothing : T) (queue : CoroQueue T)
      → contents queue ≡ []
      → coro_queue_dequeue nothing queue ≡ (nothing, queue)
  unfolding coro_queue_dequeue
  dequeue_none nothing queue e = rw empty refl
    where
      empty : (queue.size == 0) ≡ true
      empty = ground (arith, length-contents queue, ap length e)
