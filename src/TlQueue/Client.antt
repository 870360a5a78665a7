-- ===== src/TlQueue/Client.antt =====
-- `tl_queue_t` as an implementation of the task queue's contract, from `tl_queue_init` on.
use native.Mathlib.Nat.{pow-le-pow_right}
use libseff.Base.{
  ℕ, suc, ◌+◌, ◌-◌, ◌^◌, ◌≤◌, ◌<◌, ◌≡◌, ◌≢◌, refl, sym, ap, ◌∙◌, arith, Option, none, some, List,
  [], ◌∷◌, false, length, length-append,
}
use libseff.Base.Result.{ok, ◌>>=◌}
use libseff.CircularArray.{Elt, empty}
use libseff.CircularArray.Window.{length-window}
use libseff.CircularArray.Grow.{new-ok}
use libseff.TaskQueue
use libseff.TaskQueue.{Held, Op}
use libseff.TaskQueue.Impl.{Impl, AreTasks, run, run_refines}
use libseff.TlQueue.{TlQueue, init, push, priority_push, pop, steal}
use libseff.TlQueue.Refine.{
  IsValid, Space, capacity, held, push-Returns, priority_push-Returns, pop-Answers, steal-Answers,
}

-- A valid queue that holds these tasks, with indices and cells for `n` more pushes.
pub record Holds (q : TlQueue) (n : ℕ) (h : Held) : Type 0 where
  pub valid : IsValid q
  pub holds : held q ≡ h
  pub indices : q.tail + n < 2 ^ 63
  pub cells : length h.line + n ≤ capacity

line_length : {q : TlQueue} {n : ℕ} {h : Held} → Holds q n h → length h.line ≡ q.tail - q.head
line_length {q} {n} {h} v =
    ap (λ t. length t.line) (sym v.holds) ∙ length-window q.array q.head (q.tail - q.head)

space : {q : TlQueue} {n : ℕ} {h : Held} → Holds q (suc n) h → Space q
space v = record { indices = omega arith; cells = omega (arith, v.valid.fits, line_length v) }

length-pushed : (h : Held) (e : Elt) → length (TaskQueue.push h e).line ≡ length h.line + 1
length-pushed h e = omega (arith, length-append h.line (e ∷ []))

length-priority :
    (h : Held) (e : Elt) → length (TaskQueue.priority_push h e).line ≤ length h.line + 1
length-priority h e = go h.slot
  where
    go : (o : Option Elt) → length (TaskQueue.append h.line o) ≤ length h.line + 1
    go none = omega arith
    go (some x) = omega (arith, length-append h.line (x ∷ []))

length-front : (l : List Elt) → length (TaskQueue.front l).1 ≤ length l
length-front [] = omega arith
length-front (x ∷ l) = omega arith

length-popped : (h : Held) → length (TaskQueue.pop h).1.line ≤ length h.line
length-popped h = go h.slot
  where
    go : (o : Option Elt) → length (TaskQueue.pop_slot o h.line).1.line ≤ length h.line
    go none = length-front h.line
    go (some x) = omega arith

module _ (q : TlQueue) (n : ℕ) (h : Held) where
  pub push_lem :
      (e : Elt) (b : ℕ → Elt)
      → Holds q (suc n) h
      → (q' : TlQueue) × (push q e (some b) ≡ ok q') × Holds q' n (TaskQueue.push h e)
  push_lem e b v =
      let (q', eq, valid, held_eq, near) = push-Returns q e b v.valid (space v) in
      (
        q',
        eq,
        record {
          valid = valid;
          holds = held_eq ∙ ap (λ t. TaskQueue.push t e) v.holds;
          indices = omega (arith, v.indices);
          cells = omega (arith, v.cells, length-pushed h e);
        },
      )

  pub priority_push_lem :
      (e : Elt) (b : ℕ → Elt)
      → e ≢ empty
      → Holds q (suc n) h
      → (q' : TlQueue) × (priority_push q e (some b) ≡ ok q')
        × Holds q' n (TaskQueue.priority_push h e)
  priority_push_lem e b ne v =
      let (q', eq, valid, held_eq, near) = priority_push-Returns q e b ne v.valid (space v) in
      (
        q',
        eq,
        record {
          valid = valid;
          holds = held_eq ∙ ap (λ t. TaskQueue.priority_push t e) v.holds;
          indices = omega (arith, v.indices);
          cells = omega (arith, v.cells, length-priority h e);
        },
      )

  pub pop_lem :
      Holds q (suc n) h
      → (q' : TlQueue) × (pop q ≡ ok (TaskQueue.or_empty (TaskQueue.pop h).0, q'))
        × Holds q' n (TaskQueue.pop h).1
  pop_lem v =
      let (q', eq, valid, held_eq, near) = pop-Answers q v.valid in
      (
        q',
        eq ∙ ap (λ t. ok (TaskQueue.or_empty (TaskQueue.pop t).0, q')) v.holds,
        record {
          valid = valid;
          holds = held_eq ∙ ap (λ t. (TaskQueue.pop t).1) v.holds;
          indices = omega (arith, v.indices);
          cells = omega (arith, v.cells, length-popped h);
        },
      )

  pub steal_lem :
      Holds q (suc n) h
      → (q' : TlQueue) × (steal q ≡ ok (TaskQueue.or_empty (TaskQueue.steal h).0, q'))
        × Holds q' n (TaskQueue.steal h).1
  steal_lem v =
      let (q', eq, valid, held_eq, near) = steal-Answers q v.valid in
      (
        q',
        eq ∙ ap (λ t. ok (TaskQueue.or_empty (TaskQueue.steal t).0, q')) v.holds,
        record {
          valid = valid;
          holds = held_eq ∙ ap (λ t. (TaskQueue.steal t).1) v.holds;
          indices = omega (arith, v.indices);
          cells = omega (arith, v.cells, length-front h.line);
        },
      )

unfoldable pub tl_impl : Impl TlQueue
tl_impl = record {
  push = push;
  priority_push = priority_push;
  pop = pop;
  steal = steal;
  Holds = Holds;
  push_lem = push_lem;
  priority_push_lem = priority_push_lem;
  pop_lem = pop_lem;
  steal_lem = steal_lem;
}

-- With memory, `tl_queue_init` gives a queue that holds nothing.
pub init-Holds :
    (log_size : ℕ) (b : ℕ → Elt) (n : ℕ)
    → log_size < 31
    → n ≤ capacity
    → (q : TlQueue) × (init log_size (some b) ≡ ok q)
      × Holds q n (record { slot = none; line = [] })
unfolding init
init-Holds log_size b n k fits =
    let (arr, eq, f) = new-ok log_size b k in
    (
      record { locked = false; head = 0; tail = 0; buffer = empty; array = arr },
      rw eq,
      record {
        valid = record {
          array = f.valid;
          free = refl;
          ordered = omega arith;
          fits = omega arith;
          small = omega (
            arith,
            f.size_eq,
            pow-le-pow_right {n = 2} (omega arith) {i = log_size} {j = 31} (omega arith),
          );
          signed = omega arith;
        };
        holds = refl;
        indices = omega arith;
        cells = omega arith;
      },
    )

-- From `tl_queue_init` on with a logarithm of the size below 31, while each `malloc` gives memory, no
-- sequence of at most 2^31 calls of which none is a priority push of NULL faults, and its answers are
-- those of the contract, a slot and a line of tasks.
pub init-run :
    (log_size : ℕ) (b : ℕ → Elt) (ops : List Op)
    → log_size < 31
    → length ops ≤ capacity
    → AreTasks ops
    → (init log_size (some b) >>= run tl_impl b ops)
      ≡ ok (TaskQueue.run ops (record { slot = none; line = [] }))
unfolding tl_impl
init-run log_size b ops k fits tasks =
    let (q, eq, v) = init-Holds log_size b (length ops) k fits in
    rw (eq) (run_refines tl_impl b ops q _ tasks v)
