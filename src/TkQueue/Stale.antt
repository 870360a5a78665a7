-- ===== src/TkQueue/Stale.antt =====
-- `tk_queue_steal` and `tk_queue_pop` load `array` before their loop, so a thief may read an array
-- that the owner has replaced meanwhile.
use libseff.Base.{ℕ, ◌≡◌, refl, arith, [], ◌∷◌}
use libseff.CircularArray.{Elt, CircularArray, get, set_elt, resize, copy, from_block}
use libseff.TkQueue.{
  System, own, grow, call_steal, rob, Reach, start, later, Always, OwnerMove, TakerMove,
}

-- The array of `tk_queue_init` at a logarithm of 0.
abbrev pub one_cell : (ℕ → Elt) → CircularArray
one_cell g = record { size = 1; mask = 0; buffer = g }

module _ (g b : ℕ → Elt) (x y : Elt) where
  -- Task `x` is in the queue, and a thief has loaded `array`.
  abbrev entered : (s : System) × Reach Always (one_cell g) s
  entered = (
    _,
    later
        (later
          (later
            (later (later (later start (own (OwnerMove.call_push x))) (own OwnerMove.load_head))
              (own (OwnerMove.keep (omega arith))))
            (own OwnerMove.store_elt))
          (own OwnerMove.store_tail))
        (call_steal 0 refl),
  )

  -- The owner pushes `y`, for which the array grows.
  grown : (s : System) × Reach Always (one_cell g) s
  unfolding get set_elt resize copy from_block
  grown = (
    _,
    later
        (later
          (later (later (later entered.1 (own (OwnerMove.call_push y))) (own OwnerMove.load_head))
            (grow {a = 0} {h = 0} b _ refl (omega arith) refl tt))
          (own OwnerMove.store_elt))
        (own OwnerMove.store_tail),
  )

  -- The owner pops `x`, and then the thief reads the array that it loaded, where the index of `y`
  -- falls on the cell of `x`.
  stolen : (s : System) × Reach Always (one_cell g) s
  unfolding grown
  stolen = (
    _,
    later
        (later
          (later
            (later
              (later
                (later
                  (later
                    (later
                      (later (later grown.1 (own (OwnerMove.call_pop refl)))
                        (own (OwnerMove.pop_step TakerMove.load_head)))
                      (own (OwnerMove.pop_step (TakerMove.load_tail (omega arith)))))
                    (own (OwnerMove.pop_step TakerMove.load_elt)))
                  (own (OwnerMove.pop_step (TakerMove.win refl))))
                (own OwnerMove.return))
              (rob 0 TakerMove.load_head))
            (rob 0 (TakerMove.load_tail (omega arith))))
          (rob 0 TakerMove.load_elt))
        (rob 0 (TakerMove.win refl)),
  )

  -- Without the restriction on thieves at a growth, the source can hand one task out twice and lose
  -- another: over a queue of one cell, for all tasks `x` and `y` and whatever `malloc` gave, a state
  -- is reachable in which `x` and `y` were pushed once each, `x` was taken twice, and the slot and
  -- the line are empty.
  pub stale_steal :
      (s : System) × Reach Always (one_cell g) s
      × (s.mem.pushed ≡ y ∷ x ∷ [])
      × (s.mem.taken ≡ x ∷ x ∷ [])
      × (s.mem.head ≡ s.mem.tail)
      × (s.mem.buffer ≡ 0)
  unfolding stolen
  stale_steal = (stolen.0, stolen.1, refl, refl, refl, refl)
