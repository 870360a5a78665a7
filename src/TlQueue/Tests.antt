-- ===== src/TlQueue/Tests.antt =====
-- The theorems of the queue under a lock, at queues that the source builds.
use libseff.Base.{ℕ, ◌-◌, ◌≡◌, inr, refl, arith, false, none, some, List, [], ◌∷◌}
use libseff.Base.Result.{ok, ◌>>=◌}
use libseff.CircularArray.{get}
use libseff.TaskQueue
use libseff.TaskQueue.{Held, Op, push_op, priority_op, pop_op, steal_op}
use libseff.TaskQueue.Impl.{run}
use libseff.TlQueue.{TlQueue, init}
use libseff.TlQueue.Refine.{IsValid, Space, held}
use libseff.TlQueue.Client.{tl_impl, init-run}

abbrev memory : ℕ → ℕ
memory i = 0x13

-- Two cells, both in use: tasks 5 and 6 at the indices 3 and 4; task 9 is in the slot.
abbrev full : TlQueue
full = record {
  locked = false;
  head = 3;
  tail = 5;
  buffer = 9;
  array = record { size = 2; mask = 1; buffer = λ i. 6 - i };
}

full-IsValid : IsValid full
full-IsValid = record {
  array = record { log_size = 1; size_eq = refl; mask_eq = refl };
  free = refl;
  ordered = omega arith;
  fits = omega arith;
  small = omega arith;
  signed = omega arith;
}

full-Space : Space full
full-Space = record { indices = omega arith; cells = inr (omega arith) }

held-full : held full ≡ record { slot = some 9; line = 5 ∷ 6 ∷ [] }
unfolding get
held-full = refl

abbrev script : List Op
script = push_op 3 ∷ priority_op 4 ∷ priority_op 5 ∷ steal_op ∷ pop_op ∷ pop_op ∷ pop_op ∷ []

init-run_example :
    (init 0 (some memory) >>= run tl_impl memory script)
    ≡ ok (TaskQueue.run script (record { slot = none; line = [] }))
init-run_example =
    init-run 0 memory script (omega arith) (omega arith) (omega arith, (omega arith, tt))

-- The slot's first task went to the back of the line, behind task 3.
run-script :
    TaskQueue.run script (record { slot = none; line = [] }) ≡ 0 ∷ 0 ∷ 0 ∷ 3 ∷ 5 ∷ 4 ∷ 0 ∷ []
run-script = refl
