-- ===== src/ClQueue/Push.antt =====
-- The steps of `cl_queue_push` that write to memory keep the invariant of the deque.
use libseff.Base.{
  ℕ, suc, ◌+◌, ◌-◌, ◌≤◌, ◌<◌, ◌≡◌, refl, sym, ap, ap₂, ◌∙◌, arith, [], ◌∷◌, ◌++◌, ℕ_discrete, count,
  count-append, some,
}
use libseff.Base.Result.{ok}
use libseff.Base.Memory.{update, update_self, update_ne}
use libseff.CircularArray.{Elt, CircularArray, get, set_elt, resize}
use libseff.CircularArray.Window.{
  window, window-suc, size_pos, window_ext, index-ne, set_elt-IsValid, get-set_elt_self,
  get-set_elt_ne, size-set_elt,
}
use libseff.CircularArray.Grow.{Grown, resized-Grown}
use libseff.ClQueue.{Shared, idle, push_array, push_set, push_bottom, Thief}
use libseff.ClQueue.Invariant.{array, live, Inv}
use libseff.ClQueue.ThiefFacts.{thief_keep, thief_reads}

module _ {m : Shared} {th : ℕ → Thief} where
  -- `cl_queue_push` puts its element in a free cell of the array in use.
  pub store_elt-Inv :
      (elt b : ℕ)
      → Inv m (push_set elt b m.current) th
      → Inv
          (record m { arrays = update m.arrays m.current (set_elt (array m) b elt) })
          (push_bottom elt b)
          th
  store_elt-Inv elt b v = record {
    array_valid = rw (now) (set_elt-IsValid (array m) v.array_valid b elt);
    ordered = v.ordered;
    lowered = v.lowered;
    fits = rw (now, size-set_elt (array m) b elt) v.fits;
    owner_fits = (
      v.owner_fits.0,
      rw now (get-set_elt_self (array m) b elt),
      rw (now, size-set_elt (array m) b elt) (v.owner_fits.2),
    );
    thief_fits = λ i.
        thief_reads m next (m.bottom_succ - 1) (th i) refl (omega arith) old
          (λ t h lt. rw now (kept t (omega arith) (omega arith))) (v.thief_fits i);
    conserved = λ x. v.conserved x ∙ ap (λ l. count x m.taken + count x l) (sym same_live);
  }
    where
      now : update m.arrays m.current (set_elt (array m) b elt) m.current ≡ set_elt (array m) b elt
      now = update_self m.arrays m.current (set_elt (array m) b elt)

      -- The cells that hold tasks keep them.
      kept : (j : ℕ) → m.top ≤ j → j < b → get (set_elt (array m) b elt) j ≡ get (array m) j
      kept j lo hi =
          get-set_elt_ne (array m) b j elt
            (λ e. index-ne v.array_valid j b hi (omega arith) (sym e))

      next : Shared
      next = record m { arrays = update m.arrays m.current (set_elt (array m) b elt) }

      old :
          (a t : ℕ)
          → a ≤ m.current
          → m.top ≡ t
          → t < m.bottom_succ - 1
          → get (next.arrays a) t ≡ get (m.arrays a) t
      old a t le h lt = elim (ℕ_discrete m.current a) [
        | yes e ↦ rw (← e, now) (kept t (omega arith) (omega arith))
        | no ne ↦ rw (update_ne m.arrays m.current (set_elt (array m) b elt) a ne)
      ]

      same_live : live next (push_bottom elt b) ≡ live m (push_set elt b m.current)
      same_live = rw now (
          window_ext (set_elt (array m) b elt) (array m) m.top (m.bottom_succ - 1 - m.top)
            (λ j lo hi. kept j lo (omega arith)))

  -- `cl_queue_push` goes on with an array of twice the size.
  pub grow-Inv :
      (elt b t : ℕ) (block : ℕ → Elt) (arr : CircularArray)
      → (array m).size + t < b + 1
      → resize (array m) b t (some block) ≡ ok arr
      → Inv m (push_array elt b t) th
      → Inv
          (record m { current = m.current + 1; arrays = update m.arrays (m.current + 1) arr })
          (push_set elt b (m.current + 1))
          th
  grow-Inv elt b t block arr full h v = record {
    array_valid = rw now g.fresh.valid;
    ordered = v.ordered;
    lowered = v.lowered;
    fits = rw now (omega (arith, g.fresh.size_eq, v.fits));
    owner_fits = (
      v.owner_fits.0,
      refl,
      rw now (omega (arith, g.fresh.size_eq, v.fits, size_pos v.array_valid)),
    );
    thief_fits = λ i.
        thief_reads m next (m.bottom_succ - 1) (th i) refl (omega arith) old
          (λ j e lt. rw now (g.reads j (omega arith) (omega arith))) (v.thief_fits i);
    conserved = λ x. v.conserved x ∙ ap (λ l. count x m.taken + count x l) (sym same_live);
  }
    where
      next : Shared
      next = record m { current = m.current + 1; arrays = update m.arrays (m.current + 1) arr }

      now : update m.arrays (m.current + 1) arr (m.current + 1) ≡ arr
      now = update_self m.arrays (m.current + 1) arr

      g : Grown (array m) t (b - t) arr
      g = resized-Grown (array m) block b t arr v.array_valid (omega arith) h

      old :
          (a j : ℕ)
          → a ≤ m.current
          → m.top ≡ j
          → j < m.bottom_succ - 1
          → get (next.arrays a) j ≡ get (m.arrays a) j
      old a j le e lt = rw (update_ne m.arrays (m.current + 1) arr a (omega arith))

      same_live : live next (push_set elt b (m.current + 1)) ≡ live m (push_array elt b t)
      same_live = rw now (
          window_ext arr (array m) m.top (m.bottom_succ - 1 - m.top)
            (λ j lo hi. g.reads j (omega arith) (omega arith)))

  -- `cl_queue_push` publishes its element.
  pub store_bottom-Inv :
      (elt b : ℕ)
      → Inv m (push_bottom elt b) th
      → Inv (record m { bottom_succ = b + 1 + 1; pushed = elt ∷ m.pushed }) idle th
  store_bottom-Inv elt b v = record {
    array_valid = v.array_valid;
    ordered = omega (arith, v.ordered, v.owner_fits);
    lowered = omega arith;
    fits = omega (arith, v.owner_fits);
    owner_fits = omega arith;
    thief_fits = λ i.
        thief_keep m next (m.bottom_succ - 1) (b + 1 + 1 - 1) (th i) refl refl refl
          (omega (arith, v.owner_fits)) (v.thief_fits i);
    conserved = λ x. omega (
      arith,
      v.conserved x,
      ap (count x) grown,
      count-append x (live m (push_bottom elt b)) (elt ∷ []),
    );
  }
    where
      next : Shared
      next = record m { bottom_succ = b + 1 + 1; pushed = elt ∷ m.pushed }

      last : m.top + (b - m.top) ≡ b
      last = omega (arith, v.ordered, v.owner_fits)

      count_eq : b + 1 + 1 - 1 - m.top ≡ suc (b - m.top)
      count_eq = omega (arith, v.ordered, v.owner_fits)

      before : m.bottom_succ - 1 - m.top ≡ b - m.top
      before = omega (arith, v.owner_fits)

      grown : live next idle ≡ live m (push_bottom elt b) ++ (elt ∷ [])
      grown =
          ap (window (array m) m.top) count_eq
          ∙ window-suc (array m) m.top (b - m.top)
          ∙ ap₂ (λ n e. window (array m) m.top n ++ (e ∷ [])) (sym before)
              (ap (get (array m)) last ∙ v.owner_fits.1)
