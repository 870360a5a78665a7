-- ===== src/TkQueue/Tests.antt =====
-- Runs of the queue without a lock, and its theorems at them.
use libseff.Base.{◌+◌, ◌≡◌, refl, arith, [], ◌∷◌, count}
use libseff.CircularArray.{CircularArray}
use libseff.CircularArray.Window
use libseff.TkQueue.{
  System, own, call_steal, rob, Reach, start, later, Always, Quiet, OwnerMove, TakerMove,
}
use libseff.TkQueue.Invariant.{carried, slot, line}
use libseff.TkQueue.Conserved.{tasks_kept}
use libseff.TkQueue.Stale.{one_cell, stale_steal}

abbrev four : CircularArray
four = record { size = 4; mask = 3; buffer = λ _. 0 }

four-IsValid : Window.IsValid four
four-IsValid = record { log_size = 2; size_eq = refl; mask_eq = refl }

-- Task 5 is in the slot and task 6 in the line.
abbrev filled : (s : System) × Reach Quiet four s
filled = (
  _,
  later
      (later
        (later
          (later
            (later (later start (own (OwnerMove.fill_slot 5 refl (omega arith))))
              (own (OwnerMove.call_push 6)))
            (own OwnerMove.load_head))
          (own (OwnerMove.keep (omega arith))))
        (own OwnerMove.store_elt))
      (own OwnerMove.store_tail),
)

-- Two thieves have read the line; the second has taken task 6.
abbrev contended : (s : System) × Reach Quiet four s
contended = (
  _,
  later
      (later
        (later
          (later
            (later
              (later
                (later (later (later filled.1 (call_steal 0 refl)) (call_steal 1 refl))
                  (rob 0 TakerMove.load_head))
                (rob 1 TakerMove.load_head))
              (rob 0 (TakerMove.load_tail (omega arith))))
            (rob 1 (TakerMove.load_tail (omega arith))))
          (rob 0 TakerMove.load_elt))
        (rob 1 TakerMove.load_elt))
      (rob 1 (TakerMove.win refl)),
)

tasks_kept_example :
    count 5 contended.0.mem.pushed
    ≡ count 5 contended.0.mem.taken
      + count 5 (carried contended.0.owner)
      + count 5 (slot contended.0.mem.buffer)
      + count 5 (line contended.0.mem)
tasks_kept_example = tasks_kept four-IsValid contended.1 5

stale_steal_example :
    (s : System) × Reach Always (one_cell (λ _. 0)) s
    × (s.mem.pushed ≡ 9 ∷ 8 ∷ [])
    × (s.mem.taken ≡ 8 ∷ 8 ∷ [])
    × (s.mem.head ≡ s.mem.tail)
    × (s.mem.buffer ≡ 0)
stale_steal_example = stale_steal (λ _. 0) (λ _. 1) 8 9
