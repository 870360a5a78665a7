-- ===== src/ClQueue.antt =====
-- utils/cl_queue.c and utils/cl_queue.h: the Chase-Lev deque as a system of one owner, who pushes
-- and pops at the bottom, and of any number of thieves, who steal at the top. A step is one access
-- to shared memory, in any interleaving. Atomic accesses are sequentially consistent here: what the
-- weaker orders of the source allow beyond that is not modelled.
pub mod Invariant
mod ThiefFacts
mod Push
mod Pop
pub mod OwnerSteps
pub mod ThiefSteps
pub mod Conserved
pub mod Tests
use libseff.Base.{ℕ, ◌+◌, ◌-◌, ◌≤◌, ◌<◌, ◌≡◌, ◌≢◌, List, [], ◌∷◌, some}
use libseff.Base.Result.{Result, ok}
use libseff.Base.Memory.{update}
use libseff.CircularArray.{Elt, CircularArray, get, set_elt, resize}

-- `cl_queue_t`, and the arrays that were ever its `array`, under the number that stands for their
-- address: a thief may read an array that the owner has replaced, and none is freed. `bottom` is -1
-- while the owner pops from a queue that was never filled, so it is held one higher than it is.
-- `pushed` and `taken` are the history: what was pushed so far, and what was popped or stolen.
pub record Shared : Type 0 where
  pub top : ℕ
  pub bottom_succ : ℕ
  pub current : ℕ
  pub arrays : ℕ → CircularArray
  pub pushed : List Elt
  pub taken : List Elt

-- Where the owner stands, with the locals that are live there. In a pop, `c` is the bottom that was
-- loaded, so the local `bottom` of the source is `c - 1`.
pub data Owner : Type 0 where
  idle : Owner
  push_top : (elt b : ℕ) → Owner  -- before the load of `top` in `cl_queue_push`
  push_array : (elt b t : ℕ) → Owner
  push_set : (elt b arr : ℕ) → Owner
  push_bottom : (elt b : ℕ) → Owner
  pop_array : (c : ℕ) → Owner  -- before the load of `array` in `cl_queue_pop`
  pop_store : (c arr : ℕ) → Owner
  pop_top : (c arr : ℕ) → Owner
  pop_read : (c arr t : ℕ) → Owner
  pop_cas : (c elt : ℕ) → Owner
  pop_reset : (c : ℕ) → Owner

-- `cl_queue_init`, over the array that `circular_array_new` gave.
abbrev pub init : CircularArray → Shared
init arr = record {
  top = 0;
  bottom_succ = 1;
  current = 0;
  arrays = λ _. arr;
  pushed = [];
  taken = [];
}

-- One step of the owner in `cl_queue_push` or `cl_queue_pop`.
pub data OwnerMove (m : Shared) : Owner → Shared → Owner → Type 0 where
  call_push : (elt : ℕ) → OwnerMove m idle m (push_top elt (m.bottom_succ - 1))
  load_top : {elt b : ℕ} → OwnerMove m (push_top elt b) m (push_array elt b m.top)
  keep :
      {elt b t : ℕ}
      → b + 1 ≤ (m.arrays m.current).size + t
      → OwnerMove m (push_array elt b t) m (push_set elt b m.current)
  grow :
      {elt b t : ℕ} (block : ℕ → Elt) (arr : CircularArray)
      → (m.arrays m.current).size + t < b + 1
      → resize (m.arrays m.current) b t (some block) ≡ ok arr
      → OwnerMove m
          (push_array elt b t)
          (record m { current = m.current + 1; arrays = update m.arrays (m.current + 1) arr })
          (push_set elt b (m.current + 1))
  store_elt :
      {elt b arr : ℕ}
      → OwnerMove m
          (push_set elt b arr)
          (record m { arrays = update m.arrays arr (set_elt (m.arrays arr) b elt) })
          (push_bottom elt b)
  store_bottom :
      {elt b : ℕ}
      → OwnerMove m
          (push_bottom elt b)
          (record m { bottom_succ = b + 1 + 1; pushed = elt ∷ m.pushed })
          idle
  call_pop : OwnerMove m idle m (pop_array (m.bottom_succ - 1))
  load_array : {c : ℕ} → OwnerMove m (pop_array c) m (pop_store c m.current)
  lower_bottom :
      {c arr : ℕ} → OwnerMove m (pop_store c arr) (record m { bottom_succ = c }) (pop_top c arr)
  see_some : {c arr : ℕ} → m.top < c → OwnerMove m (pop_top c arr) m (pop_read c arr m.top)
  see_none : {c arr : ℕ} → c ≤ m.top → OwnerMove m (pop_top c arr) m (pop_reset c)
  take_elt :
      {c arr t : ℕ}
      → t + 1 < c
      → OwnerMove m
          (pop_read c arr t)
          (record m { taken = get (m.arrays arr) (c - 1) ∷ m.taken })
          idle
  race :
      {c arr t : ℕ}
      → t + 1 ≡ c
      → OwnerMove m (pop_read c arr t) m (pop_cas c (get (m.arrays arr) (c - 1)))
  win_race :
      {c elt : ℕ}
      → m.top + 1 ≡ c
      → OwnerMove m (pop_cas c elt) (record m { top = c; taken = elt ∷ m.taken }) (pop_reset c)
  lose_race : {c elt : ℕ} → m.top + 1 ≢ c → OwnerMove m (pop_cas c elt) m (pop_reset c)
  reset_bottom : {c : ℕ} → OwnerMove m (pop_reset c) (record m { bottom_succ = c + 1 }) idle

-- Where a thief stands in `cl_queue_steal`.
pub data Thief : Type 0 where
  away : Thief
  got_top : (t : ℕ) → Thief
  got_bottom : (t : ℕ) → Thief
  got_array : (t arr : ℕ) → Thief
  got_elt : (t elt : ℕ) → Thief

-- One step of a thief; `miss` answers EMPTY and `lose` answers ABORT.
pub data ThiefMove (m : Shared) : Thief → Shared → Thief → Type 0 where
  steal_top : ThiefMove m away m (got_top m.top)
  miss : {t : ℕ} → m.bottom_succ ≤ t + 1 → ThiefMove m (got_top t) m away
  steal_bottom : {t : ℕ} → t + 1 < m.bottom_succ → ThiefMove m (got_top t) m (got_bottom t)
  steal_array : {t : ℕ} → ThiefMove m (got_bottom t) m (got_array t m.current)
  steal_elt : {t arr : ℕ} → ThiefMove m (got_array t arr) m (got_elt t (get (m.arrays arr) t))
  win :
      {t elt : ℕ}
      → m.top ≡ t
      → ThiefMove m (got_elt t elt) (record m { top = t + 1; taken = elt ∷ m.taken }) away
  lose : {t elt : ℕ} → m.top ≢ t → ThiefMove m (got_elt t elt) m away

pub record System : Type 0 where
  pub mem : Shared
  pub owner : Owner
  pub thief : ℕ → Thief

pub data Step (s : System) : System → Type 0 where
  own :
      {m : Shared} {o : Owner}
      → OwnerMove s.mem s.owner m o
      → Step s (record { mem = m; owner = o; thief = s.thief })
  rob :
      (i : ℕ) {m : Shared} {p : Thief}
      → ThiefMove s.mem (s.thief i) m p
      → Step s (record { mem = m; owner = s.owner; thief = update s.thief i p })

-- The states that an initial array leads to.
pub data Reach (arr : CircularArray) : System → Type 0 where
  start : Reach arr (record { mem = init arr; owner = idle; thief = λ _. away })
  later : {s t : System} → Reach arr s → Step s t → Reach arr t
