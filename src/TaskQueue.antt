-- ===== src/TaskQueue.antt =====
-- What a task queue promises its scheduler: a slot that its owner takes from first, and a line of
-- tasks that anyone may take from the front of. The contract of utils/tl_queue.h and utils/tk_queue.h.
pub mod Impl
use libseff.Base.{ℕ, List, [], ◌∷◌, ◌++◌, Option, none, some}
use libseff.CircularArray.{Elt, empty}

pub record Held : Type 0 where
  pub slot : Option Elt
  pub line : List Elt

abbrev pub append : List Elt → Option Elt → List Elt
append l none = l
append l (some e) = l ++ (e ∷ [])

-- The pointer that stands for an answer.
abbrev pub or_empty : Option Elt → Elt
or_empty none = empty
or_empty (some e) = e

abbrev pub push : Held → Elt → Held
push h e = record h { line = h.line ++ (e ∷ []) }

-- The slot's former task goes to the back of the line.
abbrev pub priority_push : Held → Elt → Held
priority_push h e = record { slot = some e; line = append h.line h.slot }

abbrev pub front : List Elt → Option Elt × List Elt
front [] = (none, [])
front (e ∷ l) = (some e, l)

abbrev pub steal : Held → Option Elt × Held
steal h = let (e, l) = front h.line in (e, record h { line = l })

abbrev pub pop_slot : Option Elt → List Elt → Option Elt × Held
pop_slot none l = steal (record { slot = none; line = l })
pop_slot (some e) l = (some e, record { slot = none; line = l })

abbrev pub pop : Held → Option Elt × Held
pop h = pop_slot h.slot h.line

-- The calls of a queue's clients, with the answer of each; a push answers nothing.
pub data Op : Type 0 where
  push_op priority_op : Elt → Op
  pop_op steal_op : Op

abbrev pub reply : Option Elt × Held → (Held → List Elt) → List Elt
reply (o, h) rest = or_empty o ∷ rest h

abbrev pub run : List Op → Held → List Elt
run [] h = []
run (Op.push_op e ∷ ops) h = empty ∷ run ops (push h e)
run (Op.priority_op e ∷ ops) h = empty ∷ run ops (priority_push h e)
run (Op.pop_op ∷ ops) h = reply (pop h) (run ops)
run (Op.steal_op ∷ ops) h = reply (steal h) (run ops)
