-- ===== src/ClQueue/ThiefSteps.antt =====
-- Every step of a thief keeps the invariant of the deque.
use libseff.Base.{
  ℕ, ◌+◌, ◌-◌, ◌≤◌, ◌<◌, ◌≡◌, refl, sym, ap, ap₂, ◌∙◌, arith, ◌∷◌, ℕ_discrete, count,
}
use libseff.Base.Memory.{update, update_self, update_ne}
use libseff.CircularArray.{get}
use libseff.CircularArray.Window.{window, window_front}
use libseff.ClQueue.{
  Shared, Owner, idle, push_top, push_array, push_set, push_bottom, pop_array, pop_store, pop_top,
  pop_read, pop_cas, pop_reset, Thief, away, got_elt, ThiefMove, steal_top, miss, steal_bottom,
  steal_array, steal_elt, win, lose,
}
use libseff.ClQueue.Invariant.{array, live_end, safe_end, live, OwnerFits, ThiefFits, Inv}
use libseff.ClQueue.ThiefFacts.{thief_pass}

-- What holds of every thief holds after one of them has moved on.
update_all :
    (P : Thief → Type 0) (th : ℕ → Thief) (i : ℕ) (p : Thief)
    → P p
    → ((j : ℕ) → P (th j))
    → (j : ℕ) → P (update th i p j)
update_all P th i p new old j = elim (ℕ_discrete i j) [
  | yes e ↦ rw (← e, update_self th i p) new
  | no ne ↦ rw (update_ne th i p j ne) (old j)
]

-- The owner's facts survive a rise of `top` below the tasks that it claims.
owner_pass :
    (m : Shared) (o : Owner) (t elt : ℕ)
    → m.top ≡ t
    → t < safe_end m o
    → OwnerFits m o
    → OwnerFits (record m { top = t + 1; taken = elt ∷ m.taken }) o
owner_pass m idle t elt e lt f = f
owner_pass m (push_top x b) t elt e lt f = f
owner_pass m (push_array x b k) t elt e lt f = omega arith
owner_pass m (push_set x b a) t elt e lt f = (f.0, f.1, omega arith)
owner_pass m (push_bottom x b) t elt e lt f = (f.0, f.1, omega arith)
owner_pass m (pop_array c) t elt e lt f = f
owner_pass m (pop_store c a) t elt e lt f = f
owner_pass m (pop_top c a) t elt e lt f = f
owner_pass m (pop_read c a k) t elt e lt f = omega arith
owner_pass m (pop_cas c x) t elt e lt f = (f.0, f.1, omega arith, omega arith)
owner_pass m (pop_reset c) t elt e lt f = absurd (omega arith)

live_end-eq :
    (m : Shared) (o : Owner) (t elt : ℕ)
    → live_end (record m { top = t + 1; taken = elt ∷ m.taken }) o ≡ live_end m o
live_end-eq m idle t elt = refl
live_end-eq m _ t elt = refl

safe_end-eq :
    (m : Shared) (o : Owner) (t elt : ℕ)
    → safe_end (record m { top = t + 1; taken = elt ∷ m.taken }) o ≡ safe_end m o
safe_end-eq m idle t elt = refl
safe_end-eq m _ t elt = refl

-- The tasks safe to steal are in the queue.
safe-le-live : (m : Shared) (o : Owner) → safe_end m o ≤ live_end m o
safe-le-live m idle = omega arith
safe-le-live m (pop_read c a t) = ground arith
safe-le-live m _ = omega arith

module _ {m : Shared} {o : Owner} {th : ℕ → Thief} (v : Inv m o th) (i : ℕ) where
  -- A step that leaves memory alone.
  move_thief : (p' : Thief) → ThiefFits m (safe_end m o) p' → Inv m o (update th i p')
  move_thief p' f = record {
    array_valid = v.array_valid;
    ordered = v.ordered;
    lowered = v.lowered;
    fits = v.fits;
    owner_fits = v.owner_fits;
    thief_fits = update_all (ThiefFits m (safe_end m o)) th i p' f v.thief_fits;
    conserved = v.conserved;
  }

  -- The compare-exchange of `cl_queue_steal` succeeds.
  win-Inv :
      (t elt : ℕ)
      → m.top ≡ t
      → ThiefFits m (safe_end m o) (got_elt t elt)
      → Inv (record m { top = t + 1; taken = elt ∷ m.taken }) o (update th i away)
  win-Inv t elt e f = record {
    array_valid = v.array_valid;
    ordered = rw (safe_end-eq m o t elt) (omega (arith, f.1 e));
    lowered = rw (safe_end-eq m o t elt) v.lowered;
    fits = rw (live_end-eq m o t elt) (omega (arith, v.fits));
    owner_fits = owner_pass m o t elt e (f.1 e) v.owner_fits;
    thief_fits = update_all (ThiefFits next (safe_end next o)) th i away tt (λ j.
        thief_pass m next (safe_end m o) (safe_end next o) (th j) (omega arith) refl
          (v.thief_fits j));
    conserved = λ x. omega (arith, v.conserved x, ap (count x) first);
  }
    where
      next : Shared
      next = record m { top = t + 1; taken = elt ∷ m.taken }

      below : m.top < live_end m o
      below = omega (arith, f.1 e, safe-le-live m o)

      first : live m o ≡ elt ∷ live next o
      first =
          window_front (array m) m.top (live_end m o) below
          ∙ ap₂ ◌∷◌ (ap (get (array m)) e ∙ sym (f.2 e))
              (ap₂ (λ k n. window (array m) (k + 1) (n - (k + 1))) e (sym (live_end-eq m o t elt)))

pub ThiefMove-Inv :
    {m m' : Shared} {p p' : Thief} {o : Owner} {th : ℕ → Thief} (i : ℕ)
    → ThiefMove m p m' p'
    → Inv m o th
    → ThiefFits m (safe_end m o) p
    → Inv m' o (update th i p')
ThiefMove-Inv i steal_top v f = move_thief v i _ (omega arith)
ThiefMove-Inv i (miss none) v f = move_thief v i _ tt
ThiefMove-Inv i (steal_bottom seen) v f = move_thief v i _ (f, λ h. omega (arith, v.lowered))
ThiefMove-Inv i steal_array v f = move_thief v i _ (f.0, omega arith, f.1, λ h. refl)
ThiefMove-Inv i steal_elt v f = move_thief v i _ (f.0, f.2, f.3)
ThiefMove-Inv i (win {t} {elt} e) v f = win-Inv v i t elt e f
ThiefMove-Inv i (lose ne) v f = move_thief v i _ tt
