-- ===== src/Lookups/PhaseCost.antt =====
-- Why the loops of bench/prefetching_lookups_bench cannot change their phase for ever.
use libseff.Base.{ℕ, zero, suc, ◌<◌, ◌≤◌, ◌≡◌, ◌≢◌, refl, ◌⊎◌, inl, inr, arith, List, [], ◌∷◌}
use libseff.Lookups.Search.{SearchArgs}
use libseff.Lookups.Multi.{Phase}

-- The steps that change the phase are paid for by the ones that settle a task.
abbrev pub phase_cost : Phase → List SearchArgs → ℕ → ℕ
phase_cost Phase.finishing pending limit = 0
phase_cost Phase.adding [] limit = 1
phase_cost Phase.adding (arg ∷ pending) limit = 3
phase_cost Phase.resuming pending zero = 0
phase_cost Phase.resuming [] (suc limit) = 2
phase_cost Phase.resuming (arg ∷ pending) (suc limit) = 4

pub phase_cost-le :
    (phase : Phase) (pending : List SearchArgs) (limit : ℕ) → phase_cost phase pending limit ≤ 4
phase_cost-le Phase.finishing pending limit = omega arith
phase_cost-le Phase.adding [] limit = omega arith
phase_cost-le Phase.adding (arg ∷ pending) limit = omega arith
phase_cost-le Phase.resuming pending zero = omega arith
phase_cost-le Phase.resuming [] (suc limit) = omega arith
phase_cost-le Phase.resuming (arg ∷ pending) (suc limit) = omega arith

pub phase_cost-ap :
    {p p' : Phase} {q q' : List SearchArgs} {l l' : ℕ}
    → p ≡ p'
    → q ≡ q'
    → l ≡ l'
    → phase_cost p q l ≡ phase_cost p' q' l'
phase_cost-ap e f g = cc

pub resuming_cost :
    (pending : List SearchArgs) (limit : ℕ)
    → (limit ≡ 0) ⊎ (pending ≡ [])
    → phase_cost Phase.resuming pending limit ≤ 2
resuming_cost pending zero full = omega arith
resuming_cost [] (suc limit) full = omega arith
resuming_cost (arg ∷ pending) (suc limit) (inl zero_limit) = absurd (omega arith)
resuming_cost (arg ∷ pending) (suc limit) (inr none_left) = absurd (cc none_left)

pub adding_cost :
    (pending : List SearchArgs) (limit : ℕ)
    → limit ≢ 0
    → phase_cost Phase.adding pending limit < phase_cost Phase.resuming pending limit
adding_cost pending zero room = absurd (room refl)
adding_cost [] (suc limit) room = omega arith
adding_cost (arg ∷ pending) (suc limit) room = omega arith
