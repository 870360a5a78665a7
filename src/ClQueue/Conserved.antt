-- ===== src/ClQueue/Conserved.antt =====
-- What the Chase-Lev deque promises in every state that its owner and thieves can reach.
use libseff.Base.{
  ℕ, ◌+◌, ◌-◌, ◌≤◌, ◌<◌, ◌≡◌, refl, sym, ap, subst, ◌∷◌, ◌⊎◌, inl, inr, arith, [], count, length,
}
use libseff.CircularArray.{Elt, CircularArray}
use libseff.CircularArray.Window
use libseff.CircularArray.Window.{window, length-window, window_none}
use libseff.ClQueue.{
  ThiefMove, Shared, init, Owner, idle, pop_top, pop_read, pop_cas, pop_reset, Thief, away, got_top,
  got_elt, System, Step, own, rob, Reach, start, later,
}
use libseff.ClQueue.Invariant.{array, live_end, live, OwnerFits, Inv}
use libseff.ClQueue.OwnerSteps.{OwnerMove-Inv}
use libseff.ClQueue.ThiefSteps.{ThiefMove-Inv}

init-Inv : (arr : CircularArray) → Window.IsValid arr → Inv (init arr) idle (λ _. away)
init-Inv arr v = record {
  array_valid = v;
  ordered = omega arith;
  lowered = omega arith;
  fits = omega arith;
  owner_fits = omega arith;
  thief_fits = λ i. tt;
  conserved = λ x. refl;
}

pub Step-Inv : {s t : System} → Step s t → Inv s.mem s.owner s.thief → Inv t.mem t.owner t.thief
Step-Inv (own mv) v = OwnerMove-Inv mv v
Step-Inv (rob i mv) v = ThiefMove-Inv i mv v (v.thief_fits i)

pub Reach-Inv :
    {arr : CircularArray} {s : System}
    → Window.IsValid arr
    → Reach arr s
    → Inv s.mem s.owner s.thief
Reach-Inv {arr} valid start = init-Inv arr valid
Reach-Inv valid (later r st) = Step-Inv st (Reach-Inv valid r)

-- No task is lost and none is handed out twice: in every reachable state of a deque that starts
-- with a valid array, each task was pushed as often as it was taken and is in the queue.
pub tasks_conserved :
    {arr : CircularArray} {s : System}
    → Window.IsValid arr
    → Reach arr s
    → (x : Elt) → count x s.mem.pushed ≡ count x s.mem.taken + count x (live s.mem s.owner)
tasks_conserved valid r = (Reach-Inv valid r).conserved

-- The compare-exchange of a steal either finds the `top` that the thief read, and the task that it
-- read is taken; or it changes nothing, and another thread has moved `top` up since.
pub steal_ends :
    {arr : CircularArray} {s : System} (i t elt : ℕ) {m : Shared} {p : Thief}
    → Window.IsValid arr
    → Reach arr s
    → s.thief i ≡ got_elt t elt
    → ThiefMove s.mem (got_elt t elt) m p
    → ((s.mem.top ≡ t) × (m.top ≡ t + 1) × (m.taken ≡ elt ∷ s.mem.taken))
      ⊎ ((t < s.mem.top) × (m ≡ s.mem))
steal_ends i t elt valid r here (ThiefMove.win e) = inl (e, refl, refl)
steal_ends i t elt valid r here (ThiefMove.lose ne) =
    inr (ground (arith, (Reach-Inv valid r).thief_fits i), refl)

-- The queue ends below `bottom`, but one higher while the owner pops.
live_end-cases :
    (m : Shared) (o : Owner)
    → OwnerFits m o
    → (live_end m o ≡ m.bottom_succ - 1) ⊎ (live_end m o ≡ m.bottom_succ)
live_end-cases m (pop_top c a) f = inr (sym f.0)
live_end-cases m (pop_read c a t) f = inr (sym f.0)
live_end-cases m (pop_cas c elt) f = inr (sym f.0)
live_end-cases m (pop_reset c) f = inr (sym f.0)
live_end-cases m _ f = inl refl

-- Every task that was pushed has been taken.
abbrev pub AllTaken : Shared → Type 0
AllTaken m = (x : Elt) → count x m.pushed ≡ count x m.taken

all_taken :
    {m : Shared} {o : Owner} {th : ℕ → Thief} → Inv m o th → live_end m o ≤ m.top → AllTaken m
all_taken {m} {o} v le x = omega (arith, v.conserved x, ap (count x) none_left)
  where
    none_left : live m o ≡ []
    none_left = ap (window (array m) m.top) no_cells
      where
        no_cells : live_end m o - m.top ≡ 0
        no_cells = omega arith

-- A pop answers EMPTY, if it does, by way of the reset of `bottom`, and whenever the owner is there,
-- every task that was pushed has been taken.
pub pop_empty :
    {arr : CircularArray} {s : System} {c : ℕ}
    → Window.IsValid arr
    → Reach arr s
    → s.owner ≡ pop_reset c
    → AllTaken s.mem
pop_empty {s} {c} valid r here = all_taken v (omega (arith, v.owner_fits.1))
  where
    v : Inv s.mem (pop_reset c) s.thief
    v = subst (λ o. Inv s.mem o s.thief) here (Reach-Inv valid r)

-- A steal that answers EMPTY once it reads `bottom` does so in a state in which every task that was
-- pushed has been taken, or at most one is left and the owner is popping.
pub steal_empty :
    {arr : CircularArray} {s : System} {m : Shared} (i t : ℕ)
    → Window.IsValid arr
    → Reach arr s
    → s.thief i ≡ got_top t
    → ThiefMove s.mem (got_top t) m away
    → AllTaken s.mem
      ⊎ ((length (live s.mem s.owner) ≤ 1) × (live_end s.mem s.owner ≡ s.mem.bottom_succ))
steal_empty {s = s} i t valid r here (ThiefMove.miss le) =
    elim (live_end-cases s.mem s.owner v.owner_fits) [
      | inl e ↦ inl (all_taken v (omega (arith, seen)))
      | inr e ↦ inr (
        omega (
          arith,
          seen,
          length-window (array s.mem) s.mem.top (live_end s.mem s.owner - s.mem.top),
        ),
        e,
      )
    ]
  where
    v : Inv s.mem s.owner s.thief
    v = Reach-Inv valid r

    seen : t ≤ s.mem.top
    seen = ground (arith, v.thief_fits i)
