-- ===== src/TkQueue.antt =====
-- utils/tk_queue.c and utils/tk_queue.h: a queue without a lock, as a system of one owner, who
-- pushes and pops, and of any number of thieves, who steal. A step is one access to the memory that
-- they share, in any interleaving, and atomic accesses are sequentially consistent. What only the
-- owner reads or writes (`buffer`, and `tail` in its own calls) is accessed within its other steps.
pub mod Invariant
mod TakerSteps
mod PushSteps
pub mod Conserved
pub mod Stale
pub mod Tests
use libseff.Base.{ℕ, ◌+◌, ◌≤◌, ◌<◌, ◌≡◌, ◌≢◌, List, [], ◌∷◌, some}
use libseff.Base.Result.{Result, ok}
use libseff.Base.Memory.{update}
use libseff.CircularArray.{Elt, empty, CircularArray, get, set_elt, resize}

-- `tk_queue_t`, and the arrays that were ever its `array`, under the number that stands for their
-- address; none is freed. `pushed` and `taken` are the history: the tasks that calls of push were
-- given, and those that pop and steal have taken.
pub record Shared : Type 0 where
  pub head : ℕ
  pub tail : ℕ
  pub buffer : Elt
  pub current : ℕ
  pub arrays : ℕ → CircularArray
  pub pushed : List Elt
  pub taken : List Elt

-- Where a thread stands in the loop of `tk_queue_steal`, or the owner in that of `tk_queue_pop`.
-- `arr` was loaded before the loop.
pub data Taker : Type 0 where
  away : Taker
  looping : (arr : ℕ) → Taker
  got_head : (arr h : ℕ) → Taker
  got_tail : (arr h : ℕ) → Taker
  got_elt : (arr h elt : ℕ) → Taker

-- One step of the loop; `miss` answers EMPTY, and `retry` goes round again.
pub data TakerMove (m : Shared) : Taker → Shared → Taker → Type 0 where
  load_head : {arr : ℕ} → TakerMove m (looping arr) m (got_head arr m.head)
  miss : {arr h : ℕ} → h ≡ m.tail → TakerMove m (got_head arr h) m away
  load_tail : {arr h : ℕ} → h ≢ m.tail → TakerMove m (got_head arr h) m (got_tail arr h)
  load_elt : {arr h : ℕ} → TakerMove m (got_tail arr h) m (got_elt arr h (get (m.arrays arr) h))
  win :
      {arr h elt : ℕ}
      → m.head ≡ h
      → TakerMove m (got_elt arr h elt) (record m { head = h + 1; taken = elt ∷ m.taken }) away
  retry : {arr h elt : ℕ} → m.head ≢ h → TakerMove m (got_elt arr h elt) m (looping arr)

-- Where the owner stands, with the locals that are live there.
pub data Owner : Type 0 where
  idle : Owner
  push_head : (elt arr : ℕ) → Owner  -- before the load of `head` in `tk_queue_push`
  push_room : (elt arr h : ℕ) → Owner
  push_set : (elt arr : ℕ) → Owner
  push_tail : (elt : ℕ) → Owner
  popping : Taker → Owner

-- One step of the owner, but for the growth of the array.
pub data OwnerMove (m : Shared) : Owner → Shared → Owner → Type 0 where
  call_push :
      (elt : ℕ) → OwnerMove m idle (record m { pushed = elt ∷ m.pushed }) (push_head elt m.current)
  fill_slot :
      (elt : ℕ)
      → m.buffer ≡ empty
      → elt ≢ empty
      → OwnerMove m idle (record m { buffer = elt; pushed = elt ∷ m.pushed }) idle
  swap_slot :
      (elt : ℕ)
      → m.buffer ≢ empty
      → elt ≢ empty
      → OwnerMove m idle
          (record m { buffer = elt; pushed = elt ∷ m.pushed })
          (push_head m.buffer m.current)
  load_head : {elt arr : ℕ} → OwnerMove m (push_head elt arr) m (push_room elt arr m.head)
  keep :
      {elt arr h : ℕ}
      → m.tail + 1 ≤ (m.arrays arr).size + h
      → OwnerMove m (push_room elt arr h) m (push_set elt arr)
  store_elt :
      {elt arr : ℕ}
      → OwnerMove m
          (push_set elt arr)
          (record m { arrays = update m.arrays arr (set_elt (m.arrays arr) m.tail elt) })
          (push_tail elt)
  store_tail : {elt : ℕ} → OwnerMove m (push_tail elt) (record m { tail = m.tail + 1 }) idle
  pop_slot :
      m.buffer ≢ empty
      → OwnerMove m idle (record m { buffer = empty; taken = m.buffer ∷ m.taken }) idle
  call_pop : m.buffer ≡ empty → OwnerMove m idle m (popping (looping m.current))
  pop_step :
      {p p' : Taker} {m' : Shared} → TakerMove m p m' p' → OwnerMove m (popping p) m' (popping p')
  return : OwnerMove m (popping away) m idle

pub record System : Type 0 where
  pub mem : Shared
  pub owner : Owner
  pub thief : ℕ → Taker

-- `MayGrow` restricts the thieves at a growth of the array; the source has no such restriction.
pub data Step (MayGrow : (ℕ → Taker) → Type 0) (s : System) : System → Type 0 where
  own :
      {m : Shared} {o : Owner}
      → OwnerMove s.mem s.owner m o
      → Step MayGrow s (record { mem = m; owner = o; thief = s.thief })
  grow :
      {elt a h : ℕ} (block : ℕ → Elt) (arr : CircularArray)
      → s.owner ≡ push_room elt a h
      → (s.mem.arrays a).size + h < s.mem.tail + 1
      → resize (s.mem.arrays a) s.mem.tail h (some block) ≡ ok arr
      → MayGrow s.thief
      → Step MayGrow s (record {
        mem = record (s.mem) {
          current = s.mem.current + 1;
          arrays = update s.mem.arrays (s.mem.current + 1) arr;
        };
        owner = push_set elt (s.mem.current + 1);
        thief = s.thief;
      })
  call_steal :
      (i : ℕ)
      → s.thief i ≡ away
      → Step MayGrow s (record {
        mem = s.mem;
        owner = s.owner;
        thief = update s.thief i (looping s.mem.current);
      })
  rob :
      (i : ℕ) {m : Shared} {p : Taker}
      → TakerMove s.mem (s.thief i) m p
      → Step MayGrow s (record { mem = m; owner = s.owner; thief = update s.thief i p })

-- `tk_queue_init`, over the array that `circular_array_new` gave.
abbrev pub init : CircularArray → Shared
init arr = record {
  head = 0;
  tail = 0;
  buffer = empty;
  current = 0;
  arrays = λ _. arr;
  pushed = [];
  taken = [];
}

pub data Reach (MayGrow : (ℕ → Taker) → Type 0) (arr : CircularArray) : System → Type 0 where
  start : Reach MayGrow arr (record { mem = init arr; owner = idle; thief = λ _. away })
  later : {s t : System} → Reach MayGrow arr s → Step MayGrow s t → Reach MayGrow arr t

-- The source as it is, and runs in which the array grows only when no thief is in a steal.
abbrev pub Always : (ℕ → Taker) → Type 0
Always th = Unit

abbrev pub Quiet : (ℕ → Taker) → Type 0
Quiet th = (i : ℕ) → th i ≡ away
