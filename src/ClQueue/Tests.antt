-- ===== src/ClQueue/Tests.antt =====
-- Runs of the Chase-Lev deque, and its theorems at them.
use libseff.Base.{◌+◌, ◌≤◌, ◌≡◌, ◌⊎◌, refl, arith, [], ◌∷◌, count, length}
use libseff.CircularArray.{CircularArray, get, set_elt}
use libseff.CircularArray.Window
use libseff.ClQueue.{System, own, rob, Reach, start, later, OwnerMove, ThiefMove}
use libseff.ClQueue.Invariant.{live, live_end}
use libseff.ClQueue.Conserved.{tasks_conserved, AllTaken, pop_empty, steal_empty}

abbrev eight : CircularArray
eight = record { size = 8; mask = 7; buffer = λ _. 0 }

eight-IsValid : Window.IsValid eight
eight-IsValid = record { log_size = 3; size_eq = refl; mask_eq = refl }

-- The owner pushes task 7.
abbrev pushed : (s : System) × Reach eight s
pushed = (
  _,
  later
      (later
        (later (later (later start (own (OwnerMove.call_push 7))) (own OwnerMove.load_top))
          (own (OwnerMove.keep (omega arith))))
        (own OwnerMove.store_elt))
      (own OwnerMove.store_bottom),
)

-- A thief has read it, and has not yet moved `top`.
abbrev stealing : (s : System) × Reach eight s
stealing = (
  _,
  later
      (later
        (later (later pushed.1 (rob 3 ThiefMove.steal_top))
          (rob 3 (ThiefMove.steal_bottom (omega arith))))
        (rob 3 ThiefMove.steal_array))
      (rob 3 ThiefMove.steal_elt),
)

-- Meanwhile the owner has claimed the task.
abbrev racing : (s : System) × Reach eight s
racing = (
  _,
  later
      (later
        (later (later (later stealing.1 (own OwnerMove.call_pop)) (own OwnerMove.load_array))
          (own OwnerMove.lower_bottom))
        (own (OwnerMove.see_some (omega arith))))
      (own (OwnerMove.race {arr = 0} {t = 0} refl)),
)

-- The owner wins, so the thief's compare-exchange is about to fail.
abbrev owner_won : (s : System) × Reach eight s
owner_won = (_, later racing.1 (own (OwnerMove.win_race refl)))

-- The thief wins, so the owner's compare-exchange is about to fail.
abbrev thief_won : (s : System) × Reach eight s
thief_won = (_, later racing.1 (rob 3 (ThiefMove.win refl)))

-- Another thief has come too late.
abbrev too_late : (s : System) × Reach eight s
too_late = (_, later thief_won.1 (rob 4 ThiefMove.steal_top))

taken-owner_won : owner_won.0.mem.taken ≡ 7 ∷ []
unfolding get set_elt
taken-owner_won = refl

tasks_conserved_example :
    count 7 racing.0.mem.pushed
    ≡ count 7 racing.0.mem.taken + count 7 (live racing.0.mem racing.0.owner)
tasks_conserved_example = tasks_conserved eight-IsValid racing.1 7

-- The owner has lost the race, so its pop answers EMPTY.
abbrev owner_lost : (s : System) × Reach eight s
owner_lost = (_, later thief_won.1 (own (OwnerMove.lose_race (omega arith))))

pop_empty_example : AllTaken owner_lost.0.mem
pop_empty_example = pop_empty eight-IsValid owner_lost.1 refl

steal_empty_example :
    AllTaken too_late.0.mem
    ⊎ ((length (live too_late.0.mem too_late.0.owner) ≤ 1)
        × (live_end too_late.0.mem too_late.0.owner ≡ too_late.0.mem.bottom_succ))
steal_empty_example = steal_empty 4 1 eight-IsValid too_late.1 refl (ThiefMove.miss (omega arith))
