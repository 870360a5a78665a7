-- ===== src/TkQueue/Invariant.antt =====
-- What holds of the queue without a lock while the array grows only when no thief is in a steal.
use libseff.Base.{ℕ, ◌+◌, ◌-◌, ◌≤◌, ◌<◌, ◌≡◌, List, [], ◌∷◌, count, ◌==◌, if◌then◌else◌}
use libseff.CircularArray.{Elt, empty, CircularArray, get}
use libseff.CircularArray.Window
use libseff.CircularArray.Window.{window}
use libseff.TkQueue.{
  Shared, Taker, away, looping, got_head, got_tail, got_elt, Owner, idle, push_head, push_room,
  push_set, push_tail, popping,
}

-- The array in use.
abbrev pub array : Shared → CircularArray
array m = m.arrays m.current

-- What a taker's locals say, as long as no one moves `head`.
abbrev pub TakerFits : Shared → Taker → Type 0
TakerFits m away = Unit
TakerFits m (looping a) = a ≡ m.current
TakerFits m (got_head a h) = (a ≡ m.current) × (h ≤ m.head)
TakerFits m (got_tail a h) = (a ≡ m.current) × (h ≤ m.head) × (m.head ≡ h → h < m.tail)
TakerFits m (got_elt a h elt) =
    (a ≡ m.current)
    × (h ≤ m.head)
    × (m.head ≡ h → h < m.tail)
    × (m.head ≡ h → elt ≡ get (array m) h)

abbrev pub OwnerFits : Shared → Owner → Type 0
OwnerFits m idle = Unit
OwnerFits m (push_head elt a) = a ≡ m.current
OwnerFits m (push_room elt a h) = (a ≡ m.current) × (h ≤ m.head) × (m.tail ≤ h + (array m).size)
OwnerFits m (push_set elt a) = (a ≡ m.current) × (m.tail < m.head + (array m).size)
OwnerFits m (push_tail elt) = (get (array m) m.tail ≡ elt) × (m.tail < m.head + (array m).size)
OwnerFits m (popping p) = TakerFits m p

-- The task that the owner is about to put in the array.
abbrev pub carried : Owner → List Elt
carried (push_head elt a) = elt ∷ []
carried (push_room elt a h) = elt ∷ []
carried (push_set elt a) = elt ∷ []
carried (push_tail elt) = elt ∷ []
carried _ = []

abbrev pub slot : Elt → List Elt
slot e = if e == empty then [] else e ∷ []

abbrev pub line : Shared → List Elt
line m = window (array m) m.head (m.tail - m.head)

-- Of each task, as many were pushed as were taken, are carried, or are in the slot or the line.
abbrev pub Conserves : Shared → Owner → Type 0
Conserves m o =
    (x : Elt)
    → count x m.pushed
      ≡ count x m.taken + count x (carried o) + count x (slot m.buffer) + count x (line m)

pub record Inv (m : Shared) (o : Owner) (th : ℕ → Taker) : Type 0 where
  pub array_valid : Window.IsValid (array m)
  pub ordered : m.head ≤ m.tail
  pub fits : m.tail ≤ m.head + (array m).size
  pub owner_fits : OwnerFits m o
  pub thief_fits : (i : ℕ) → TakerFits m (th i)
  pub conserved : Conserves m o
