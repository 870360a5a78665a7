-- ===== src/Scheduler/Invariant.antt =====
-- Where the tasks of the scheduler are, counted, and what every step keeps.
use libseff.Base.{
  ℕ, ◌+◌, ◌%◌, ◌<◌, ◌≤◌, ◌≡◌, Option, none, some, true, List, [], ◌∷◌, ◌++◌, count, length,
}
use libseff.CircularArray.{Elt}
use libseff.TaskQueue.{Held, append}
use libseff.Scheduler.{
  Enqueue, back, front, Worker, unstarted, seeking, holding, forking, pushing, finalizing, released,
  ended, fatal, faulted, Scheduler, words,
}
use libseff.Scheduler.Sums.{sum}

abbrev pub held : Held → List Elt
held h = append h.line h.slot

abbrev pub tasks : List Enqueue → List Elt
tasks [] = []
tasks (back t ∷ l) = t ∷ tasks l
tasks (front t ∷ l) = t ∷ tasks l

abbrev pub optional : Option Elt → List Elt
optional none = []
optional (some t) = t ∷ []

-- The tasks that a worker has in its hands, and the finished one that it frees.
abbrev pub in_hand : Worker → List Elt
in_hand unstarted = []
in_hand (seeking i) = []
in_hand (holding t) = t ∷ []
in_hand (forking t) = t ∷ []
in_hand (pushing todo last) = tasks todo ++ optional last
in_hand (finalizing t) = []
in_hand released = []
in_hand ended = []
in_hand (fatal t) = t ∷ []
in_hand (faulted t) = t ∷ []

abbrev pub at_free : Worker → List Elt
at_free (finalizing t) = t ∷ []
at_free _ = []

-- The tasks of a worker that `remaining_tasks` counts and that are not allocated.
abbrev pub extra : Worker → ℕ
extra (forking t) = 1
extra (faulted t) = 1
extra released = 1
extra _ = 0

abbrev pub queued : Scheduler → Elt → ℕ
queued s x = sum s.n_workers (λ i. count x (held (s.queue i)))

abbrev pub carried : Scheduler → Elt → ℕ
carried s x = sum s.n_workers (λ i. count x (in_hand (s.worker i)))

abbrev pub leaving : Scheduler → Elt → ℕ
leaving s x = sum s.n_workers (λ i. count x (at_free (s.worker i)))

abbrev pub extras : Scheduler → ℕ
extras s = sum s.n_workers (λ i. extra (s.worker i))

pub record Inv (s : Scheduler) : Type 0 where
  pub some_worker : 0 < s.n_workers
  -- Each task that is allocated is in exactly one place.
  pub once :
      (x : Elt) → count x s.live ≡ queued s x + carried s x + leaving s x + count x s.sleeping
  pub single : (x : Elt) → count x s.live ≤ 1
  pub counted : s.remaining_tasks ≡ (length s.live + extras s) % words
  -- Nothing will resume a coroutine that is finished.
  pub gone : (x : Elt) → s.finished x ≡ true → queued s x + carried s x + count x s.sleeping ≡ 0
