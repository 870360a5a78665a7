-- ===== src/TaskQueue/Impl.antt =====
-- The interface between a task queue and its clients: its calls, and the laws that refine the
-- contract. The scheduler chooses an implementation by the macro QUEUE of scheduler/scheff.h.
use libseff.Base.{ℕ, suc, ◌≡◌, ◌≢◌, refl, List, [], ◌∷◌, some, length}
use libseff.Base.Result.{Result, ok, ◌>>=◌}
use libseff.CircularArray.{Elt, empty, Block}
use libseff.TaskQueue.{Held, or_empty, Op, push_op, priority_op, pop_op, steal_op}
use libseff.TaskQueue

pub record Impl (Q : Type 0) : Type 1 where
  pub push : Q → Elt → Block → Result Q
  pub priority_push : Q → Elt → Block → Result Q
  pub pop : Q → Result (Elt × Q)
  pub steal : Q → Result (Elt × Q)
  -- The queue is valid, holds these tasks, and has space for so many more pushes.
  pub Holds : Q → ℕ → Held → Type 0
  pub push_lem :
      (q : Q) (n : ℕ) (h : Held) (e : Elt) (b : ℕ → Elt)
      → Holds q (suc n) h
      → (q' : Q) × (push q e (some b) ≡ ok q') × Holds q' n (TaskQueue.push h e)
  pub priority_push_lem :
      (q : Q) (n : ℕ) (h : Held) (e : Elt) (b : ℕ → Elt)
      → e ≢ empty
      → Holds q (suc n) h
      → (q' : Q) × (priority_push q e (some b) ≡ ok q') × Holds q' n (TaskQueue.priority_push h e)
  pub pop_lem :
      (q : Q) (n : ℕ) (h : Held)
      → Holds q (suc n) h
      → (q' : Q) × (pop q ≡ ok (or_empty (TaskQueue.pop h).0, q')) × Holds q' n (TaskQueue.pop h).1
  pub steal_lem :
      (q : Q) (n : ℕ) (h : Held)
      → Holds q (suc n) h
      → (q' : Q) × (steal q ≡ ok (or_empty (TaskQueue.steal h).0, q'))
        × Holds q' n (TaskQueue.steal h).1

-- Tasks are no null pointers.
abbrev pub AreTasks : List Op → Type 0
AreTasks [] = Unit
AreTasks (priority_op e ∷ ops) = (e ≢ empty) × AreTasks ops
AreTasks (_ ∷ ops) = AreTasks ops

module _ {Q : Type 0} (impl : Impl Q) (b : ℕ → Elt) where
  open impl use {
    push, priority_push, pop, steal, Holds, push_lem, priority_push_lem, pop_lem, steal_lem,
  }

  abbrev pub answer_then : (Q → Result (List Elt)) → Elt × Q → Result (List Elt)
  answer_then rest (e, q) = do es ← rest q; ok (e ∷ es)

  -- A client's calls in order, with the answer of each; `malloc` never fails.
  pub run : List Op → Q → Result (List Elt)
  run [] q = ok []
  run (push_op e ∷ ops) q = push q e (some b) >>= λ q'. answer_then (run ops) (empty, q')
  run (priority_op e ∷ ops) q =
      priority_push q e (some b) >>= λ q'. answer_then (run ops) (empty, q')
  run (pop_op ∷ ops) q = pop q >>= answer_then (run ops)
  run (steal_op ∷ ops) q = steal q >>= answer_then (run ops)

  -- No sequence of calls tells an implementation from the tasks that it holds.
  pub run_refines :
      (ops : List Op) (q : Q) (h : Held)
      → AreTasks ops
      → Holds q (length ops) h
      → run ops q ≡ ok (TaskQueue.run ops h)
  unfolding run
  run_refines [] q h t v = refl
  run_refines (push_op e ∷ ops) q h t v =
      let (q', eq, v') = push_lem q (length ops) h e b v in rw (eq, run_refines ops q' _ t v')
  run_refines (priority_op e ∷ ops) q h t v =
      let (q', eq, v') = priority_push_lem q (length ops) h e b t.0 v in
      rw (eq, run_refines ops q' _ t.1 v')
  run_refines (pop_op ∷ ops) q h t v =
      let (q', eq, v') = pop_lem q (length ops) h v in rw (eq, run_refines ops q' _ t v')
  run_refines (steal_op ∷ ops) q h t v =
      let (q', eq, v') = steal_lem q (length ops) h v in rw (eq, run_refines ops q' _ t v')
