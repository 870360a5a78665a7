-- ===== src/ClQueue/ThiefFacts.antt =====
-- When a thief's facts about the deque survive a change of shared memory.
use libseff.Base.{ℕ, ◌≤◌, ◌<◌, ◌≡◌, sym, ◌∙◌, arith}
use libseff.CircularArray.{get}
use libseff.ClQueue.{Shared, Thief, away, got_top, got_bottom, got_array, got_elt}
use libseff.ClQueue.Invariant.{array, ThiefFits}

-- A thief's facts survive if `top` and the arrays stay, and the bound stays above `top`.
pub thief_keep :
    (m m' : Shared) (e e' : ℕ) (p : Thief)
    → m'.top ≡ m.top
    → m'.current ≡ m.current
    → m'.arrays ≡ m.arrays
    → (m.top < e → m.top < e')
    → ThiefFits m e p
    → ThiefFits m' e' p
thief_keep m m' e e' away et ec ea le f = tt
thief_keep m m' e e' (got_top t) et ec ea le f = omega arith
thief_keep m m' e e' (got_bottom t) et ec ea le f = omega arith
thief_keep m m' e e' (got_array t a) et ec ea le f = ground arith
thief_keep m m' e e' (got_elt t elt) et ec ea le f = ground arith

-- They also survive a move of `top` past all that any thief has seen.
pub thief_pass :
    (m m' : Shared) (e e' : ℕ) (p : Thief)
    → m.top < m'.top
    → m'.current ≡ m.current
    → ThiefFits m e p
    → ThiefFits m' e' p
thief_pass m m' e e' away et ec f = tt
thief_pass m m' e e' (got_top t) et ec f = omega arith
thief_pass m m' e e' (got_bottom t) et ec f = omega arith
thief_pass m m' e e' (got_array t a) et ec f =
    (omega arith, omega arith, omega arith, λ h. absurd (omega arith))
thief_pass m m' e e' (got_elt t elt) et ec f = (omega arith, omega arith, λ h. absurd (omega arith))

-- They survive a change of the arrays that keeps the cell at `top`, if it holds a task.
pub thief_reads :
    (m m' : Shared) (e : ℕ) (p : Thief)
    → m'.top ≡ m.top
    → m.current ≤ m'.current
    → ((a t : ℕ) → a ≤ m.current → m.top ≡ t → t < e → get (m'.arrays a) t ≡ get (m.arrays a) t)
    → ((t : ℕ) → m.top ≡ t → t < e → get (array m') t ≡ get (array m) t)
    → ThiefFits m e p
    → ThiefFits m' e p
thief_reads m m' e away et ec old new f = tt
thief_reads m m' e (got_top t) et ec old new f = omega arith
thief_reads m m' e (got_bottom t) et ec old new f = omega arith
thief_reads m m' e (got_array t a) et ec old new f = (
  omega arith,
  omega arith,
  omega arith,
  λ h.
      old a t f.1 (omega arith) (omega arith)
      ∙ f.3 (omega arith)
      ∙ sym (new t (omega arith) (omega arith)),
)
thief_reads m m' e (got_elt t elt) et ec old new f =
    (omega arith, omega arith, λ h. f.2 (omega arith) ∙ sym (new t (omega arith) (omega arith)))
