-- ===== src/ClQueue/Pop.antt =====
-- The steps of `cl_queue_pop` that take a task keep the invariant of the deque.
use libseff.Base.{
  ℕ, suc, ◌+◌, ◌-◌, ◌≤◌, ◌<◌, ◌≡◌, refl, sym, ap, ap₂, ◌∙◌, arith, [], ◌∷◌, ◌++◌, lt→ltb, count,
  count-append,
}
use libseff.CircularArray.{get}
use libseff.CircularArray.Window.{window, window-suc, window_none}
use libseff.ClQueue.{Shared, idle, pop_read, pop_cas, pop_reset, Thief}
use libseff.ClQueue.Invariant.{array, safe_end, live, Inv}
use libseff.ClQueue.ThiefFacts.{thief_keep, thief_pass}

module _ {m : Shared} {th : ℕ → Thief} where
  -- `cl_queue_pop` takes the last of several tasks with no race.
  pub take_elt-Inv :
      (c t : ℕ)
      → t + 1 < c
      → Inv m (pop_read c m.current t) th
      → Inv (record m { taken = get (array m) (c - 1) ∷ m.taken }) idle th
  take_elt-Inv c t some_left v = record {
    array_valid = v.array_valid;
    ordered = omega (arith, below, v.owner_fits);
    lowered = omega (arith, below, v.owner_fits);
    fits = omega (arith, v.fits, v.owner_fits);
    owner_fits = omega (arith, v.owner_fits);
    thief_fits = λ i.
        thief_keep m next (safe_end m (pop_read c m.current t)) (m.bottom_succ - 1) (th i) refl refl
          refl (omega (arith, safe, v.owner_fits)) (v.thief_fits i);
    conserved = λ x. omega (
      arith,
      v.conserved x,
      ap (count x) shrunk,
      count-append x (live next idle) (get (array m) (c - 1) ∷ []),
    );
  }
    where
      next : Shared
      next = record m { taken = get (array m) (c - 1) ∷ m.taken }

      safe : safe_end m (pop_read c m.current t) ≡ c - 1
      safe = rw (lt→ltb (t + 1) c some_left)

      below : m.top ≤ c - 1
      below = omega (arith, safe, v.ordered)

      last : m.top + (c - 1 - m.top) ≡ c - 1
      last = omega (arith, below)

      count_eq : c - m.top ≡ suc (c - 1 - m.top)
      count_eq = omega (arith, below)

      after : m.bottom_succ - 1 - m.top ≡ c - 1 - m.top
      after = omega (arith, v.owner_fits)

      shrunk : live m (pop_read c m.current t) ≡ live next idle ++ (get (array m) (c - 1) ∷ [])
      shrunk =
          ap (window (array m) m.top) count_eq
          ∙ window-suc (array m) m.top (c - 1 - m.top)
          ∙ ap₂ (λ n e. window (array m) m.top n ++ (e ∷ [])) (sym after) (ap (get (array m)) last)

  -- `cl_queue_pop` wins the race for the last task.
  pub win_race-Inv :
      (c elt : ℕ)
      → m.top + 1 ≡ c
      → Inv m (pop_cas c elt) th
      → Inv (record m { top = c; taken = elt ∷ m.taken }) (pop_reset c) th
  win_race-Inv c elt won v = record {
    array_valid = v.array_valid;
    ordered = omega arith;
    lowered = omega (arith, v.owner_fits);
    fits = omega arith;
    owner_fits = (v.owner_fits.0, refl);
    thief_fits = λ i. thief_pass m next c c (th i) (omega arith) refl (v.thief_fits i);
    conserved = λ x. omega (arith, v.conserved x, ap (count x) one_left, ap (count x) none_left);
  }
    where
      next : Shared
      next = record m { top = c; taken = elt ∷ m.taken }

      width : c - m.top ≡ 1
      width = omega arith

      at_top : m.top ≡ c - 1
      at_top = omega arith

      one_left : live m (pop_cas c elt) ≡ elt ∷ []
      one_left =
          ap (window (array m) m.top) width
          ∙ ap (λ e. e ∷ []) (ap (get (array m)) at_top ∙ sym v.owner_fits.1)

      none_left : live next (pop_reset c) ≡ []
      none_left = window_none (array m) c c refl
