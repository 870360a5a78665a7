-- ===== src/Lookups/Bounded.antt =====
-- Runs of calls on the ring of bench/prefetching_lookups_bench/libseff_infra.h, and on a plain list of
-- at most 256 tasks.
use libseff.Base.{
  ℕ, ◌≡◌, refl, sym, ap, ap₂, ◌∙◌, arith, Bool, true, false, ◌==◌, if◌then◌else◌, List, [], ◌∷◌,
  ◌++◌, length, ℕ_discrete,
}
use libseff.Lookups.Queue.{
  capacity, CoroQueue, coro_queue_init, coro_queue_size, coro_queue_empty, coro_queue_enqueue,
  coro_queue_dequeue,
}
use libseff.Lookups.Fifo.{
  contents, length-contents, IsRing, coro_queue_enqueue-IsRing, enqueue_room, enqueue_full,
  dequeue-IsRing, dequeue-eq, dequeue_none,
}

pub data Call (T : Type 0) : Type 0 where
  enqueue : (task : T) → Call T
  dequeue size empty : Call T

pub data Answer (T : Type 0) : Type 0 where
  accepted : Bool → Answer T
  taken : T → Answer T
  counted : ℕ → Answer T
  is_empty : Bool → Answer T

module _ {T : Type 0} (nothing : T) where
  abbrev pub ring_call : Call T → CoroQueue T → Answer T × CoroQueue T
  ring_call (Call.enqueue task) queue =
      let (queue', done) = coro_queue_enqueue queue task in (Answer.accepted done, queue')
  ring_call Call.dequeue queue =
      let (task, queue') = coro_queue_dequeue nothing queue in (Answer.taken task, queue')
  ring_call Call.size queue = (Answer.counted (coro_queue_size queue), queue)
  ring_call Call.empty queue = (Answer.is_empty (coro_queue_empty queue), queue)

  abbrev pub list_call : Call T → List T → Answer T × List T
  list_call (Call.enqueue task) tasks =
      if length tasks == capacity
      then (Answer.accepted false, tasks)
      else (Answer.accepted true, tasks ++ task ∷ [])
  list_call Call.dequeue [] = (Answer.taken nothing, [])
  list_call Call.dequeue (task ∷ tasks) = (Answer.taken task, tasks)
  list_call Call.size tasks = (Answer.counted (length tasks), tasks)
  list_call Call.empty [] = (Answer.is_empty true, [])
  list_call Call.empty (task ∷ tasks) = (Answer.is_empty false, task ∷ tasks)

  abbrev pub ring_run : List (Call T) → CoroQueue T → List (Answer T)
  ring_run [] queue = []
  ring_run (c ∷ calls) queue =
      let (answer, queue') = ring_call c queue in answer ∷ ring_run calls queue'

  abbrev pub list_run : List (Call T) → List T → List (Answer T)
  list_run [] tasks = []
  list_run (c ∷ calls) tasks =
      let (answer, tasks') = list_call c tasks in answer ∷ list_run calls tasks'

  -- One call keeps the ring and the list together.
  record Agree (c : Call T) (queue : CoroQueue T) : Type 0 where
    answers : (ring_call c queue).0 ≡ (list_call c (contents queue)).0
    contents_eq : contents (ring_call c queue).1 ≡ (list_call c (contents queue)).1
    ring : IsRing (ring_call c queue).1

  enqueue-Agree : (task : T) (queue : CoroQueue T) → IsRing queue → Agree (Call.enqueue task) queue
  enqueue-Agree task queue r = elim (ℕ_discrete queue.size capacity) [
    | yes full ↦
        let refused : (length (contents queue) == capacity) ≡ true =
          rw (length-contents queue, full) in
        record {
          answers = rw (refused, enqueue_full queue task full);
          contents_eq = rw (refused, enqueue_full queue task full);
          ring = coro_queue_enqueue-IsRing queue task r;
        }
    | no partial ↦
        let a = enqueue_room queue task (omega (arith, r.size_small)) in
        let room : (length (contents queue) == capacity) ≡ false =
          rw (length-contents queue) (ground arith) in
        record {
          answers = rw room (ap Answer.accepted a.0);
          contents_eq = rw room a.1;
          ring = coro_queue_enqueue-IsRing queue task r;
        }
  ]

  dequeue-Agree :
      (queue : CoroQueue T) (tasks : List T)
      → contents queue ≡ tasks
      → IsRing queue
      → Agree Call.dequeue queue
  dequeue-Agree queue [] e r = record {
    answers = rw (dequeue_none nothing queue e, e);
    contents_eq = rw (dequeue_none nothing queue e, e);
    ring = dequeue-IsRing nothing queue r;
  }
  dequeue-Agree queue (task ∷ tasks) e r =
      let d = dequeue-eq nothing queue task tasks r e in
      record {
        answers = rw e (ap Answer.taken d.0);
        contents_eq = rw e d.1;
        ring = dequeue-IsRing nothing queue r;
      }

  empty-Agree :
      (queue : CoroQueue T) (tasks : List T)
      → contents queue ≡ tasks
      → IsRing queue
      → Agree Call.empty queue
  unfolding coro_queue_empty
  empty-Agree queue [] e r = record {
    answers = rw e (ap Answer.is_empty is_zero);
    contents_eq = rw e;
    ring = r;
  }
    where
      is_zero : (queue.size == 0) ≡ true
      is_zero = ground (arith, length-contents queue, ap length e)
  empty-Agree queue (task ∷ tasks) e r = record {
    answers = rw e (ap Answer.is_empty is_suc);
    contents_eq = rw e;
    ring = r;
  }
    where
      is_suc : (queue.size == 0) ≡ false
      is_suc = ground (arith, length-contents queue, ap length e)

  call-Agree : (c : Call T) (queue : CoroQueue T) → IsRing queue → Agree c queue
  unfolding coro_queue_size
  call-Agree (Call.enqueue task) queue r = enqueue-Agree task queue r
  call-Agree Call.dequeue queue r = dequeue-Agree queue (contents queue) refl r
  call-Agree Call.size queue r = record {
    answers = ap Answer.counted (sym (length-contents queue));
    contents_eq = refl;
    ring = r;
  }
  call-Agree Call.empty queue r = empty-Agree queue (contents queue) refl r

  run_loops-eq :
      (calls : List (Call T)) (queue : CoroQueue T)
      → IsRing queue
      → ring_run calls queue ≡ list_run calls (contents queue)
  run_loops-eq [] queue r = refl
  run_loops-eq (c ∷ calls) queue r =
      ap₂ ◌∷◌ a.answers
        (run_loops-eq calls (ring_call c queue).1 a.ring ∙ ap (list_run calls) a.contents_eq)
    where
      a : Agree c queue
      a = call-Agree c queue r

  -- Whatever the calls on a new ring, in any order and number, they answer as a list of at most 256
  -- tasks does: a task is refused when the list is full, and the oldest task is taken first, or
  -- `nothing` from the empty list.
  pub ring_run-list_run :
      (calls : List (Call T)) → ring_run calls (coro_queue_init nothing) ≡ list_run calls []
  unfolding coro_queue_init
  ring_run-list_run calls = run_loops-eq calls _ (omega arith)
