-- ===== src/TlQueue.antt =====
-- utils/tl_queue.c and utils/tl_queue.h: a queue of tasks under a lock, with a slot for the task
-- that its owner takes next.
pub mod Refine
pub mod Client
pub mod Tests
use libseff.Base.{ℕ, ◌+◌, ◌^◌, Bool, true, false, not, ltb, ◌==◌, if◌then◌else◌}
use libseff.Base.Result.{Fault, Result, ok, err, ◌>>=◌, ◌>>◌, guard}
use libseff.CircularArray.{Elt, empty, CircularArray, Block, new, get, set_elt, reserve}

-- `tl_queue_t`
pub record TlQueue : Type 0 where
  pub locked : Bool
  pub head : ℕ
  pub tail : ℕ
  pub buffer : Elt
  pub array : CircularArray

-- `tl_queue_init`
pub init : ℕ → Block → Result TlQueue
init log_size block = do
  array ← new log_size block
  ok (record { locked = false; head = 0; tail = 0; buffer = empty; array = array })

-- `ACQUIRE_LOCK`: with no other thread to release the lock, a locked one is waited for without end.
abbrev pub acquire : TlQueue → Result TlQueue
acquire q = guard (not q.locked) Fault.blocked >> ok (record q { locked = true })

-- `RELEASE_LOCK`
abbrev pub release : TlQueue → TlQueue
release q = record q { locked = false }

-- The successor of a signed index of 64 bits.
abbrev pub next_index : ℕ → Result ℕ
next_index i = guard (ltb (i + 1) (2 ^ 63)) Fault.undefined >> ok (i + 1)

-- `tl_queue_push`
pub push : TlQueue → Elt → Block → Result TlQueue
push self elt block = do
  q ← acquire self
  arr ← reserve q.array q.tail q.head block
  tail ← next_index q.tail
  ok (release (record q { array = set_elt arr q.tail elt; tail = tail }))

-- `tl_queue_priority_push`
pub priority_push : TlQueue → Elt → Block → Result TlQueue
unfolding push
priority_push self elt block =
    let q = record self { buffer = elt } in
    if not (self.buffer == empty) then push q self.buffer block else ok q

-- The part of `tl_queue_pop` under the lock.
pub take_front : TlQueue → Result (Elt × TlQueue)
take_front self = do
  q ← acquire self
  if q.head == q.tail then ok (empty, release q) else (do
    head ← next_index q.head
    ok (get q.array q.head, release (record q { head = head })))

-- `tl_queue_pop`
pub pop : TlQueue → Result (Elt × TlQueue)
unfolding take_front
pop self =
    if not (self.buffer == empty)
    then ok (self.buffer, record self { buffer = empty })
    else take_front self

-- `tl_queue_steal`
pub steal : TlQueue → Result (Elt × TlQueue)
unfolding take_front
steal self = take_front self
