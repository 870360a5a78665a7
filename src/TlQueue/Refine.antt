-- ===== src/TlQueue/Refine.antt =====
-- A valid `tl_queue_t` behaves as the queue of the tasks that it holds.
use libseff.Base.{
  ℕ, ◌+◌, ◌-◌, ◌^◌, ◌≤◌, ◌<◌, ◌≡◌, ◌≢◌, refl, ◌∙◌, ◌⊎◌, inl, inr, arith, true, false, Option, none,
  some, ◌==◌, if◌then◌else◌, ℕ_discrete, Bool-cases,
}
use libseff.Base.Result.{Fault, Result, ok, err}
use libseff.CircularArray.{Elt, empty, CircularArray, Block, set_elt, reserve}
use libseff.CircularArray.Window
use libseff.CircularArray.Window.{
  window, length-window, window-set_elt, window_append, window_front, window_none, size-set_elt,
  window_uncons, set_elt-IsValid,
}
use libseff.CircularArray.Grow.{reserve-Roomy, reserve-null, Roomy}
use libseff.TaskQueue
use libseff.TaskQueue.{Held, or_empty}
use libseff.TlQueue.{TlQueue, push, priority_push, take_front, pop, steal}

abbrev pub capacity : ℕ
capacity = 2 ^ 31

-- Between calls the lock is free, and the tasks fit the array.
pub record IsValid (q : TlQueue) : Type 0 where
  pub array : Window.IsValid q.array
  pub free : q.locked ≡ false
  pub ordered : q.head ≤ q.tail
  pub fits : q.tail ≤ q.head + q.array.size
  pub small : q.array.size ≤ capacity
  pub signed : q.tail < 2 ^ 63

abbrev pub in_slot : Elt → Option Elt
in_slot e = if e == empty then none else some e

-- The tasks that a queue holds.
abbrev pub held : TlQueue → Held
held q = record { slot = in_slot q.buffer; line = window q.array q.head (q.tail - q.head) }

-- A call that succeeds, with the queue that it leaves.
abbrev pub Returns : TlQueue → Result TlQueue → Held → Type 0
Returns q r h = (q' : TlQueue) × (r ≡ ok q') × IsValid q' × (held q' ≡ h) × (q'.tail ≤ q.tail + 1)

-- The slot has no part in the invariant.
set_buffer-IsValid : {q : TlQueue} (e : Elt) → IsValid q → IsValid (record q { buffer = e })
set_buffer-IsValid e v = record {
  array = v.array;
  free = v.free;
  ordered = v.ordered;
  fits = v.fits;
  small = v.small;
  signed = v.signed;
}

-- Space for one more task: an index to give it, and a free cell or an array that may grow.
pub record Space (q : TlQueue) : Type 0 where
  pub indices : q.tail + 1 < 2 ^ 63
  pub cells : (q.tail - q.head < q.array.size) ⊎ (q.array.size < capacity)

-- What `push` does once it has its array.
store : TlQueue → Elt → CircularArray → TlQueue
store q e arr = record q { array = set_elt arr q.tail e; tail = q.tail + 1 }

module _ (q : TlQueue) (e : Elt) (v : IsValid q) (s : Space q) where
  push-eq-store :
      (block : Block) (arr : CircularArray)
      → reserve q.array q.tail q.head block ≡ ok arr
      → push q e block ≡ ok (store q e arr)
  unfolding push store
  push-eq-store block arr h = ground (arith, v.free, s.indices)

  store-IsValid : (arr : CircularArray) → Roomy q.array q.head q.tail arr → IsValid (store q e arr)
  unfolding store
  store-IsValid arr r = record {
    array = set_elt-IsValid arr r.valid q.tail e;
    free = v.free;
    ordered = omega arith;
    fits = omega (arith, size-set_elt arr q.tail e);
    small = omega (arith, size-set_elt arr q.tail e, r.small v.small);
    signed = s.indices;
  }

  held-store :
      (arr : CircularArray)
      → Roomy q.array q.head q.tail arr
      → held (store q e arr) ≡ TaskQueue.push (held q) e
  unfolding store
  held-store arr r = rw (window_append q.head q.tail e r.valid v.ordered r.room, r.same)

-- With memory and space, `tl_queue_push` succeeds, keeps the invariant and puts the task at the
-- back of the line.
pub push-Returns :
    (q : TlQueue) (e : Elt) (b : ℕ → Elt)
    → IsValid q
    → Space q
    → Returns q (push q e (some b)) (TaskQueue.push (held q) e)
push-Returns q e b v s =
    let (arr, eq, r) =
      reserve-Roomy q.array b q.head q.tail v.array v.ordered (omega arith) s.cells in
    (
      store q e arr,
      push-eq-store q e v s (some b) arr eq,
      store-IsValid q e v s arr r,
      held-store q e v s arr r,
      unfold store in omega arith,
    )

-- A full line and no memory: the new array's fields are stored through NULL.
pub push-null :
    (q : TlQueue) (e : Elt)
    → IsValid q
    → q.array.size < capacity
    → q.tail ≡ q.head + q.array.size
    → push q e none ≡ err Fault.null_pointer
unfolding push
push-null q e v small full =
    ground (arith, v.free, reserve-null q.array q.head q.tail v.array small full)

-- A held lock is waited for without end, whatever the call.
pub locked_blocks :
    (q : TlQueue) (e : Elt) (block : Block)
    → q.locked ≡ true
    → (push q e block ≡ err Fault.blocked) × (steal q ≡ err Fault.blocked)
unfolding push steal
locked_blocks q e block h = ground arith

-- `tl_queue_priority_push` fills the slot, and sends the slot's former task to the back.
pub priority_push-Returns :
    (q : TlQueue) (e : Elt) (b : ℕ → Elt)
    → e ≢ empty
    → IsValid q
    → Space q
    → Returns q (priority_push q e (some b)) (TaskQueue.priority_push (held q) e)
unfolding priority_push
priority_push-Returns q e b ne v s = elim (Bool-cases (q.buffer == empty)) [
  | inl h ↦ (record q { buffer = e }, ground arith, valid, ground arith, omega arith)
  | inr h ↦
      let (q', eq, v', held_eq, near) =
        push-Returns (record q { buffer = e }) q.buffer b valid space in
      (q', rw h eq, v', held_eq ∙ ground arith, near)
]
  where
    valid : IsValid (record q { buffer = e })
    valid = set_buffer-IsValid e v

    space : Space (record q { buffer = e })
    space = record { indices = s.indices; cells = s.cells }

-- A call that answers and succeeds, with the queue that it leaves.
abbrev pub Answers : TlQueue → Result (Elt × TlQueue) → Option Elt × Held → Type 0
Answers q r (o, h) =
    (q' : TlQueue) × (r ≡ ok (or_empty o, q')) × IsValid q' × (held q' ≡ h) × (q'.tail ≡ q.tail)

-- Under the lock the front of the line is taken, or EMPTY is answered.
take_front-Answers : (q : TlQueue) → IsValid q → Answers q (take_front q) (TaskQueue.steal (held q))
unfolding take_front
take_front-Answers q v = elim (ℕ_discrete q.head q.tail) [
  | yes e ↦
      rw (window_none q.array q.head q.tail e)
        (q, ground (arith, v.free), v, rw (window_none q.array q.head q.tail e), refl)
  | no ne ↦
      rw (window_front q.array q.head q.tail (omega arith))
        (record q { head = q.head + 1 }, ground (arith, v.free), taken ne, refl, refl)
]
  where
    taken : ¬ (q.head ≡ q.tail) → IsValid (record q { head = q.head + 1 })
    taken ne = record {
      array = v.array;
      free = v.free;
      ordered = omega arith;
      fits = omega arith;
      small = v.small;
      signed = v.signed;
    }

-- `tl_queue_steal` takes the front of the line; a task in the slot is out of its reach.
pub steal-Answers : (q : TlQueue) → IsValid q → Answers q (steal q) (TaskQueue.steal (held q))
unfolding steal
steal-Answers q v = take_front-Answers q v

-- `tl_queue_pop` takes the slot's task, and without one the front of the line.
pub pop-Answers : (q : TlQueue) → IsValid q → Answers q (pop q) (TaskQueue.pop (held q))
unfolding pop
pop-Answers q v = elim (Bool-cases (q.buffer == empty)) [
  | inl h ↦ rw h (rw h at (take_front-Answers q v))
  | inr h ↦ rw h (record q { buffer = empty }, refl, set_buffer-IsValid empty v, refl, refl)
]
