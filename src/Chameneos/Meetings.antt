-- ===== src/Chameneos/Meetings.antt =====
-- How `execute` of bench/chameneos_bench/chameneos_effect_direct.c counts the meetings.
use libseff.Base.{ℕ, ◌+◌, ◌^◌, ◌<◌, ◌≡◌, ◌≢◌, false}
use libseff.Scheduler.Sums.{sum}
use libseff.Chameneos.{Meet, Creature, Request, asks, chameneos, Arena}

-- Creature `i` asks for a mate, and has never met itself.
abbrev pub IsFine : ℕ → Creature → Request → Type 0
IsFine i c q = (c.self_id ≡ i) × (q ≡ asks c) × (c.self_meetings ≡ 0) × (c.self_col < 3)

-- The creatures below `size`, which have met `n` times, each counting for itself.
pub record Met (size n : ℕ) (s : Arena) : Type 0 where
  pub fine : (i : ℕ) → i < size → IsFine i (s.chms i) (s.reqs i)
  pub total : sum size (λ i. (s.chms i).meetings) ≡ n

module _ (size n : ℕ) (s : Arena) (i : ℕ) (mate : Meet) (met : Met size n s) (here : i < size)
    (going : mate.finish ≡ false) (other : i ≢ mate.chameneos) (colour : mate.col < 3)
    (small : n + 1 < 2 ^ 64) where
  abbrev met_creature : Creature
  met_creature = (chameneos (s.chms i) mate).0

  abbrev next_request : Request
  next_request = (chameneos (s.chms i) mate).1

-- What a creature sends to its mate.
abbrev message : Creature → Meet
message c = record { finish = false; chameneos = c.self_id; col = c.self_col }
