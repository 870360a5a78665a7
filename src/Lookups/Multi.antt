-- ===== src/Lookups/Multi.antt =====
-- Interleaved lookups: `SeffMultiLookup` of bench/prefetching_lookups_bench/libseff.c and
-- `SeffEffectMultiLookup` of libseff_effect_coro.c beside it. One step is one round of a loop.
-- A coroutine stands in the queue as its state, since only one place holds it at a time;
-- the calls of `calloc` and of `seff_coroutine_new_sized` succeed; `streams` is not negative.
use libseff.Base.{
  ℕ, zero, suc, ◌+◌, ◌-◌, Bool, ltb, ◌==◌, if◌then◌else◌, Option, none, some, List, [], ◌∷◌, map,
}
use libseff.Base.Result.{Fault, Result, ok, err, ◌>>=◌}
use libseff.Lookups.Queue.{CoroQueue, coro_queue_init, coro_queue_enqueue, coro_queue_dequeue}
use libseff.Lookups.Search.{
  SearchArgs, Search, Resumption, Word, zero_word, read64, seff_binary_search,
  seff_effect_binary_search,
}

-- `task_t`; `extra` is the address of an int of the array.
pub record Task : Type 0 where
  pub coro : Option Search
  pub extra : Option ℕ

abbrev pub null_task : Task
null_task = record { coro = none; extra = none }

abbrev pub fresh_task : SearchArgs → Task
fresh_task arg = record { coro = some (Search.entry arg); extra = none }

-- What the caller makes of a task that it has resumed.
pub data Outcome : Type 0 where
  again : (task : Task) → Outcome
  done : (found : Bool) → Outcome

-- `seff_resume_handling_all` in `SeffMultiLookup`, and the test of its payload.
abbrev pub seff_outcome : Resumption → Outcome
seff_outcome (Resumption.waits next middle) =
    Outcome.again (record { coro = some next; extra = none })
seff_outcome (Resumption.returned found) = Outcome.done found

unfoldable pub seff_resumed : List ℕ → Task → Result Outcome
unfolding seff_binary_search
seff_resumed v task = elim task.coro [
  | none ↦ err Fault.null_pointer
  | some coro ↦ seff_binary_search v coro >>= λ turn. ok (seff_outcome turn)
]

-- `toRead ? (void *)*toRead : NULL`
abbrev pub to_read : List ℕ → Option ℕ → Result Word
to_read v none = ok zero_word
to_read v (some address) = read64 v address

-- `seff_resume` in `SeffEffectMultiLookup`, and the cases of its answer.
abbrev pub effect_outcome : Resumption → Outcome
effect_outcome (Resumption.waits next middle) =
    Outcome.again (record { coro = some next; extra = some middle })
effect_outcome (Resumption.returned found) = Outcome.done found

unfoldable pub effect_resumed : List ℕ → Task → Result Outcome
unfolding seff_effect_binary_search read64
effect_resumed v task = to_read v task.extra >>= λ answer. elim task.coro [
  | none ↦ err Fault.null_pointer
  | some coro ↦ ok (effect_outcome (seff_effect_binary_search coro answer))
]

-- The head of the `for` loop with the loop that adds coroutines; the loop that resumes them; and the
-- one behind the `for` loop.
pub data Phase : Type 0 where
  adding resuming finishing : Phase

-- The locals; `pending` is the arguments from `next_arg` on.
pub record Lookup : Type 0 where
  pub phase : Phase
  pub pending : List SearchArgs
  pub limit : ℕ
  pub queue : CoroQueue Task
  pub found_count : ℕ
  pub not_found_count : ℕ

pub data Progress : Type 0 where
  go : (state : Lookup) → Progress
  finished : (found_count not_found_count : ℕ) → Progress

-- `while (next_arg < lookups_size && limit > 0)`
unfoldable pub fill : List SearchArgs → ℕ → CoroQueue Task → List SearchArgs × ℕ × CoroQueue Task
unfolding coro_queue_enqueue
fill [] limit queue = ([], limit, queue)
fill (arg ∷ pending) zero queue = (arg ∷ pending, 0, queue)
fill (arg ∷ pending) (suc limit) queue =
    fill pending limit (coro_queue_enqueue queue (fresh_task arg)).0

abbrev pub add_coroutines : Lookup → List SearchArgs → Lookup
add_coroutines s [] = record s { phase = Phase.finishing }
add_coroutines s (arg ∷ rest) =
    let (pending, limit, queue) = fill (arg ∷ rest) s.limit s.queue in
    record s { phase = Phase.resuming; pending = pending; limit = limit; queue = queue }

-- One task is taken and resumed, and goes back to the queue or is counted; `after` is the phase that
-- follows in the second case.
abbrev pub settle : Lookup → CoroQueue Task → Phase → Outcome → Lookup
settle s queue after (Outcome.again task) = record s { queue = (coro_queue_enqueue queue task).0 }
settle s queue after (Outcome.done found) =
    let res = if found then 1 else 0 in
    record s {
      phase = after;
      queue = queue;
      found_count = s.found_count + res;
      not_found_count = s.not_found_count + (1 - res);
      limit = s.limit + 1;
    }

unfoldable pub round : (Task → Result Outcome) → Lookup → Phase → Result Progress
unfolding coro_queue_dequeue coro_queue_enqueue
round resumed s after =
    let (task, queue) = coro_queue_dequeue null_task s.queue in
    resumed task >>= λ outcome. ok (Progress.go (settle s queue after outcome))

abbrev pub finish_up : (Task → Result Outcome) → ℕ → Lookup → Result Progress
finish_up resumed streams s =
    if ltb s.limit streams
    then round resumed s Phase.finishing
    else ok (Progress.finished s.found_count s.not_found_count)

-- `while (1)` is left with the first coroutine that is done.
abbrev pub seff_step : (Task → Result Outcome) → ℕ → Lookup → Phase → Result Progress
seff_step resumed streams s Phase.adding = ok (Progress.go (add_coroutines s s.pending))
seff_step resumed streams s Phase.resuming = round resumed s Phase.adding
seff_step resumed streams s Phase.finishing = finish_up resumed streams s

-- `while (limit == 0)`
abbrev pub effect_step : (Task → Result Outcome) → ℕ → Lookup → Phase → Result Progress
effect_step resumed streams s Phase.adding = ok (Progress.go (add_coroutines s s.pending))
effect_step resumed streams s Phase.resuming =
    if s.limit == 0
    then round resumed s Phase.resuming
    else ok (Progress.go (record s { phase = Phase.adding }))
effect_step resumed streams s Phase.finishing = finish_up resumed streams s

-- The loops on fuel, where `none` means that the fuel ran out: `found_count` and `not_found_count` at
-- the end.
unfoldable pub run_loops : (Lookup → Phase → Result Progress) → ℕ → Lookup → Option (Result (ℕ × ℕ))
run_loops step zero s = none
run_loops step (suc fuel) s = elim (step s s.phase) [
  | err why ↦ some (err why)
  | ok (Progress.go s') ↦ run_loops step fuel s'
  | ok (Progress.finished found not_found) ↦ some (ok (found, not_found))
]

-- `args`, for an array that starts at `v`.
abbrev pub args_of : ℕ → List ℕ → List SearchArgs
args_of v_size = map (λ key. record { first = 0; len = v_size; key = key })

unfoldable pub initial : ℕ → List ℕ → ℕ → Lookup
unfolding coro_queue_init
initial v_size lookups streams = record {
  phase = Phase.adding;
  pending = args_of v_size lookups;
  limit = streams;
  queue = coro_queue_init null_task;
  found_count = 0;
  not_found_count = 0;
}

-- `SeffMultiLookup`, on the array of the first `v_size` ints of `v`.
unfoldable pub seff_multi_lookup : ℕ → List ℕ → ℕ → List ℕ → ℕ → Option (Result (ℕ × ℕ))
unfolding run_loops round seff_resumed initial fill
seff_multi_lookup fuel v v_size lookups streams =
    run_loops (seff_step (seff_resumed v) streams) fuel (initial v_size lookups streams)

-- `SeffEffectMultiLookup`
unfoldable pub seff_effect_multi_lookup : ℕ → List ℕ → ℕ → List ℕ → ℕ → Option (Result (ℕ × ℕ))
unfolding run_loops round effect_resumed initial fill
seff_effect_multi_lookup fuel v v_size lookups streams =
    run_loops (effect_step (effect_resumed v) streams) fuel (initial v_size lookups streams)
