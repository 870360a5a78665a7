-- ===== src/Scheduler.antt =====
-- scheduler/scheff.c: worker threads that run coroutines as tasks, over the task queues of scheff.h.
-- A queue is what its contract says (TaskQueue), one for each worker; each step of a worker is one
-- call of a queue, one access to `remaining_tasks`, or one part of its turn that no other thread sees.
-- What a task does between two effects, and the answers of poll conditions and wake-up managers, are
-- open: every one of them is a step. The counters of a debug build are not modelled.
pub mod Sums
pub mod Invariant
pub mod Moves
pub mod Turns
pub mod Conserved
pub mod Safety
pub mod Search
pub mod Tests
use libseff.Base.{
  ℕ, zero, suc, ◌+◌, ◌-◌, ◌%◌, ◌^◌, ◌<◌, ◌≡◌, ◌≢◌, if◌then◌else◌, ◌==◌, Option, none, some, Bool,
  true, false, List, [], ◌∷◌, ◌++◌, map, count,
}
use libseff.Base.Memory.{update}
use libseff.CircularArray.{Elt, empty, abort}
use libseff.TaskQueue.{Held, push, priority_push, steal, pop}

-- `ENQUEUE` and `ENQUEUE_PRIORITY`, on a task.
pub data Enqueue : Type 0 where
  back front : (elt : Elt) → Enqueue

-- Where a worker stands: not created; about to try the `i`-th queue; with a task from
-- `scheff_try_get_task`; between the count and the allocation of a forked task; with the tasks that
-- it still has to enqueue, and the one that it finalizes then; at `FINALIZE`; between `free` and the
-- count; at the end of its loop; at `exit(-1)`; and at a store through NULL.
pub data Worker : Type 0 where
  unstarted : Worker
  seeking : (i : ℕ) → Worker
  holding : (current_task : Elt) → Worker
  forking : (current_task : Elt) → Worker
  pushing : (todo : List Enqueue) (last : Option Elt) → Worker
  finalizing : (task : Elt) → Worker
  released : Worker
  ended : Worker
  fatal : (task : Elt) → Worker
  faulted : (task : Elt) → Worker

-- A poll condition and its argument.
pub record Poll : Type 0 where
  pub poll_condition : ℕ
  pub poll_arg : ℕ

-- The scheduler, its workers and its tasks. `live` are the tasks that are allocated, `finished` says
-- which coroutines are not PAUSED, and `sleeping` are the wakers that managers hold.
pub record Scheduler : Type 0 where
  pub n_workers : ℕ
  pub remaining_tasks : ℕ
  pub queue : ℕ → Held
  pub worker : ℕ → Worker
  pub live : List Elt
  pub poll : Elt → Option Poll
  pub finished : Elt → Bool
  pub sleeping : List Elt

-- `_Atomic(int64_t)`, in two's complement.
abbrev pub words : ℕ
words = 2 ^ 64

abbrev pub increment : ℕ → ℕ
increment r = (r + 1) % words

abbrev pub decrement : ℕ → ℕ
decrement r = (r + (words - 1)) % words

-- `scheff_init`, with memory.
abbrev pub init : ℕ → Scheduler
init n_workers = record {
  n_workers = n_workers;
  remaining_tasks = 0;
  queue = λ i. record { slot = none; line = [] };
  worker = λ i. unstarted;
  live = [];
  poll = λ t. none;
  finished = λ t. false;
  sleeping = [];
}

-- `malloc` and `seff_coroutine_init_sized`.
abbrev pub new_task : Scheduler → Elt → Scheduler
new_task s task = record s {
  live = task ∷ s.live;
  poll = update s.poll task none;
  finished = update s.finished task false;
}

-- `scheff_schedule`, on the answer of `malloc`.
abbrev pub schedule : Scheduler → Option Elt → Bool × Scheduler
schedule s none = (false, s)
schedule s (some task) = (
  true,
  record (new_task s task) {
    remaining_tasks = increment s.remaining_tasks;
    queue = update s.queue 0 (push (s.queue 0) task);
  },
)

-- `scheff_try_get_task`: the `i`-th queue that a worker tries, its own first, and the call it makes.
abbrev pub victim : ℕ → ℕ → ℕ → ℕ
victim worker_id n_workers i = if i == 0 then worker_id else (worker_id + i) % n_workers

abbrev pub attempt : ℕ → Held → Option Elt × Held
attempt i h = if i == 0 then pop h else steal h

-- One round of `scheff_try_get_task`, on the answer of queue `v`, and the rounds that follow.
abbrev pub answered :
    (ℕ → Held) → ℕ → Option Elt × Held → Option Elt × (ℕ → Held) → Option Elt × (ℕ → Held)
answered queue v (none, h) rest = rest
answered queue v (some t, h) rest = (some t, update queue v h)

-- Its loop, from the `i`-th queue on, for the rounds that are left.
abbrev pub search : (ℕ → Held) → ℕ → ℕ → ℕ → ℕ → Option Elt × (ℕ → Held)
search queue worker_id n_workers i zero = (none, queue)
search queue worker_id n_workers i (suc rounds) =
    let v = victim worker_id n_workers i in
    answered queue v (attempt i (queue v)) (search queue worker_id n_workers (suc i) rounds)

-- `scheff_try_get_task`, when nobody else uses the queues meanwhile: the worker's own queue, and then
-- those after it, once round.
pub try_get_task : (ℕ → Held) → ℕ → ℕ → Option Elt × (ℕ → Held)
try_get_task queue worker_id n_workers = search queue worker_id n_workers 0 n_workers

-- One `ENQUEUE` or `ENQUEUE_PRIORITY`.
abbrev pub enqueue : Enqueue → Held → Held
enqueue (back t) h = push h t
enqueue (front t) h = priority_push h t

-- `free(task)`
abbrev pub remove : Elt → List Elt → List Elt
remove t [] = []
remove t (u ∷ l) = if t == u then l else u ∷ remove t l

-- What `wake` enqueues, and what it finalizes then.
abbrev pub woken : List Elt → Bool → Elt → Worker
woken wakers true t = pushing (map front wakers ++ (back t ∷ [])) none
woken wakers false t = pushing (map front wakers) (some t)

abbrev pub to : Scheduler → ℕ → Worker → Scheduler
to s i w = record s { worker = update s.worker i w }

-- A worker's moves but those that call a queue.
pub data Turn (s : Scheduler) (i : ℕ) : Scheduler → Worker → Type 0 where
  created : s.worker i ≡ unstarted → Turn s i s (seeking 0)
  give_up : s.worker i ≡ seeking s.n_workers → s.remaining_tasks ≢ 0 → Turn s i s (seeking 0)
  leave : s.worker i ≡ seeking s.n_workers → s.remaining_tasks ≡ 0 → Turn s i s ended
  is_finished : {t : Elt} → s.worker i ≡ holding t → s.finished t ≡ true → Turn s i s (fatal t)
  poll_fails :
      {t : Elt} (c : Poll)
      → s.worker i ≡ holding t
      → s.finished t ≡ false
      → s.poll t ≡ some c
      → Turn s i s (pushing (back t ∷ []) none)
  returns :
      {t : Elt}
      → s.worker i ≡ holding t
      → s.finished t ≡ false
      → Turn s i
          (record s { poll = update s.poll t none; finished = update s.finished t true })
          (finalizing t)
  forks :
      {t : Elt}
      → s.worker i ≡ holding t
      → s.finished t ≡ false
      → Turn s i
          (record s { poll = update s.poll t none; remaining_tasks = increment s.remaining_tasks })
          (forking t)
  allocates :
      {t : Elt} (task : Elt)
      → s.worker i ≡ forking t
      → task ≢ empty
      → count task s.live ≡ 0
      → Turn s i (new_task s task) (pushing (back t ∷ front task ∷ []) none)
  -- The answer of `malloc` is not tested.
  no_memory : {t : Elt} → s.worker i ≡ forking t → Turn s i s (faulted t)
  polls :
      {t : Elt} (c : Poll)
      → s.worker i ≡ holding t
      → s.finished t ≡ false
      → Turn s i (record s { poll = update s.poll t (some c) }) (pushing (back t ∷ []) none)
  sleeps :
      {t : Elt}
      → s.worker i ≡ holding t
      → s.finished t ≡ false
      → Turn s i (record s { poll = update s.poll t none; sleeping = t ∷ s.sleeping }) (seeking 0)
  stays_awake :
      {t : Elt}
      → s.worker i ≡ holding t
      → s.finished t ≡ false
      → Turn s i (record s { poll = update s.poll t none }) (pushing (back t ∷ []) none)
  -- A waker is one that a manager holds, and it is used once.
  wakes :
      {t : Elt} (wakers rest : List Elt) (resume : Bool)
      → s.worker i ≡ holding t
      → s.finished t ≡ false
      → ((x : Elt) → count x s.sleeping ≡ count x wakers + count x rest)
      → Turn s i (record s { poll = update s.poll t none; sleeping = rest }) (woken wakers resume t)
  pushed : s.worker i ≡ pushing [] none → Turn s i s (seeking 0)
  pushed_last : {t : Elt} → s.worker i ≡ pushing [] (some t) → Turn s i s (finalizing t)
  frees :
      {t : Elt}
      → s.worker i ≡ finalizing t
      → Turn s i (record s { live = remove t s.live }) released
  uncounts :
      s.worker i ≡ released
      → Turn s i (record s { remaining_tasks = decrement s.remaining_tasks }) (seeking 0)

pub data Step (s : Scheduler) : Scheduler → Type 0 where
  -- The main thread schedules before `scheff_run`.
  schedules :
      (task : Elt)
      → ((i : ℕ) → s.worker i ≡ unstarted)
      → task ≢ empty
      → count task s.live ≡ 0
      → Step s (schedule s (some task)).1
  turn :
      (i : ℕ) {s' : Scheduler} {w : Worker} → i < s.n_workers → Turn s i s' w → Step s (to s' i w)
  takes :
      (i k : ℕ) {t : Elt} {h : Held}
      → i < s.n_workers
      → k < s.n_workers
      → s.worker i ≡ seeking k
      → attempt k (s.queue (victim i s.n_workers k)) ≡ (some t, h)
      → Step s (record (to s i (holding t)) { queue = update s.queue (victim i s.n_workers k) h })
  misses :
      (i k : ℕ) {h : Held}
      → i < s.n_workers
      → k < s.n_workers
      → s.worker i ≡ seeking k
      → attempt k (s.queue (victim i s.n_workers k)) ≡ (none, h)
      → Step s (to s i (seeking (suc k)))
  enqueues :
      (i : ℕ) (e : Enqueue) {todo : List Enqueue} {last : Option Elt}
      → i < s.n_workers
      → s.worker i ≡ pushing (e ∷ todo) last
      → Step s
          (record (to s i (pushing todo last)) { queue = update s.queue i (enqueue e (s.queue i)) })

pub data Reach : Scheduler → Type 0 where
  start : (n_workers : ℕ) → 0 < n_workers → Reach (init n_workers)
  later : {s t : Scheduler} → Reach s → Step s t → Reach t
