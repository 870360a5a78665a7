-- ===== src/ClQueue/Invariant.antt =====
-- What every reachable state of the Chase-Lev deque satisfies.
use libseff.Base.{ℕ, ◌+◌, ◌-◌, ◌≤◌, ◌<◌, ◌≡◌, List, ltb, if◌then◌else◌}
use libseff.CircularArray.{Elt, CircularArray, get}
use libseff.CircularArray.Window
use libseff.CircularArray.Window.{window}
use libseff.Base.{count}
use libseff.ClQueue.{
  Shared, Owner, idle, push_top, push_array, push_set, push_bottom, pop_array, pop_store, pop_top,
  pop_read, pop_cas, pop_reset, Thief, away, got_top, got_bottom, got_array, got_elt,
}

-- The array in use.
abbrev pub array : Shared → CircularArray
array m = m.arrays m.current

-- The tasks in the queue are those from `top` to below this index: while the owner pops, the task
-- that it may still lose to a thief counts.
abbrev pub live_end : Shared → Owner → ℕ
live_end m (pop_top c _) = c
live_end m (pop_read c _ _) = c
live_end m (pop_cas c _) = c
live_end m (pop_reset c) = c
live_end m _ = m.bottom_succ - 1

-- Thieves may take the tasks below this index: not the one that the owner takes with no race.
abbrev pub safe_end : Shared → Owner → ℕ
safe_end m (pop_read c _ t) = if ltb (t + 1) c then c - 1 else c
safe_end m o = live_end m o

abbrev pub live : Shared → Owner → List Elt
live m o = window (array m) m.top (live_end m o - m.top)

-- What the owner's locals say about shared memory.
abbrev pub OwnerFits : Shared → Owner → Type 0
OwnerFits m idle = 0 < m.bottom_succ
OwnerFits m (push_top elt b) = m.bottom_succ ≡ b + 1
OwnerFits m (push_array elt b t) = (m.bottom_succ ≡ b + 1) × (t ≤ m.top) × (b ≤ t + (array m).size)
OwnerFits m (push_set elt b a) =
    (m.bottom_succ ≡ b + 1) × (a ≡ m.current) × (b < m.top + (array m).size)
OwnerFits m (push_bottom elt b) =
    (m.bottom_succ ≡ b + 1) × (get (array m) b ≡ elt) × (b < m.top + (array m).size)
OwnerFits m (pop_array c) = m.bottom_succ ≡ c + 1
OwnerFits m (pop_store c a) = (m.bottom_succ ≡ c + 1) × (a ≡ m.current)
OwnerFits m (pop_top c a) = (m.bottom_succ ≡ c) × (a ≡ m.current)
OwnerFits m (pop_read c a t) = (m.bottom_succ ≡ c) × (a ≡ m.current) × (t ≤ m.top) × (t < c)
OwnerFits m (pop_cas c elt) =
    (m.bottom_succ ≡ c) × (elt ≡ get (array m) (c - 1)) × (c ≤ m.top + 1) × (0 < c)
OwnerFits m (pop_reset c) = (m.bottom_succ ≡ c) × (m.top ≡ c)

-- What a thief's locals say, as long as no one moves `top`: the index `e` bounds what it may take.
abbrev pub ThiefFits : Shared → ℕ → Thief → Type 0
ThiefFits m e away = Unit
ThiefFits m e (got_top t) = t ≤ m.top
ThiefFits m e (got_bottom t) = (t ≤ m.top) × (m.top ≡ t → t < e)
ThiefFits m e (got_array t a) =
    (t ≤ m.top)
    × (a ≤ m.current)
    × (m.top ≡ t → t < e)
    × (m.top ≡ t → get (m.arrays a) t ≡ get (array m) t)
ThiefFits m e (got_elt t elt) =
    (t ≤ m.top) × (m.top ≡ t → t < e) × (m.top ≡ t → elt ≡ get (array m) t)

-- Of each task, as many were pushed as were taken or are in the queue.
abbrev pub Conserves : Shared → Owner → Type 0
Conserves m o = (x : Elt) → count x m.pushed ≡ count x m.taken + count x (live m o)

pub record Inv (m : Shared) (o : Owner) (th : ℕ → Thief) : Type 0 where
  pub array_valid : Window.IsValid (array m)
  pub ordered : m.top ≤ safe_end m o
  pub lowered : m.bottom_succ ≤ safe_end m o + 1
  pub fits : live_end m o ≤ m.top + (array m).size
  pub owner_fits : OwnerFits m o
  pub thief_fits : (i : ℕ) → ThiefFits m (safe_end m o) (th i)
  pub conserved : Conserves m o
