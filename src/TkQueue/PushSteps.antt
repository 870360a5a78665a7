-- ===== src/TkQueue/PushSteps.antt =====
-- A step of the owner outside the loop of its pop keeps the invariant of the queue without a lock.
use libseff.Base.{
  ℕ, suc, ◌+◌, ◌-◌, ◌≤◌, ◌<◌, ◌≡◌, ◌≢◌, refl, sym, ap, ◌∙◌, arith, List, [], ◌∷◌, ◌++◌, count,
  count-append, some,
}
use libseff.Base.Result.{ok}
use libseff.Base.Memory.{update, update_self}
use libseff.CircularArray.{Elt, empty, CircularArray, get, set_elt, resize}
use libseff.CircularArray.Window.{
  window, window-suc, window_ext, index-ne, size_pos, size-set_elt, set_elt-IsValid,
  get-set_elt_self, get-set_elt_ne,
}
use libseff.CircularArray.Grow.{Grown, resized-Grown}
use libseff.TkQueue.{
  Shared, Taker, away, looping, got_head, got_tail, got_elt, Owner, idle, push_head, push_room,
  push_set, push_tail, popping, OwnerMove, call_push, fill_slot, swap_slot, load_head, keep,
  store_elt, store_tail, pop_slot, call_pop, pop_step, return, Quiet,
}
use libseff.TkQueue.Invariant.{array, TakerFits, OwnerFits, carried, slot, line, Inv}
use libseff.TkQueue.TakerSteps.{popping-Inv}

slot-cons : (e : Elt) → e ≢ empty → slot e ≡ e ∷ []
slot-cons e ne = ground arith

-- A taker's facts survive a write to the array in use that keeps the cells of the line, and a rise
-- of `tail`.
taker_reads :
    (m m' : Shared) (q : Taker)
    → m'.head ≡ m.head
    → m'.current ≡ m.current
    → m.tail ≤ m'.tail
    → ((j : ℕ) → m.head ≤ j → j < m.tail → get (array m') j ≡ get (array m) j)
    → TakerFits m q
    → TakerFits m' q
taker_reads m m' away eh ec le same f = tt
taker_reads m m' (looping a) eh ec le same f = omega arith
taker_reads m m' (got_head a h) eh ec le same f = omega arith
taker_reads m m' (got_tail a h) eh ec le same f = omega arith
taker_reads m m' (got_elt a h x) eh ec le same f = (
  omega arith,
  omega arith,
  omega arith,
  λ e. f.3 (omega arith) ∙ sym (same h (omega arith) (omega (arith, f.2))),
)

module _ {m : Shared} {th : ℕ → Taker} where
  -- The element goes to a free cell.
  store_elt-Inv :
      (elt : ℕ)
      → Inv m (push_set elt m.current) th
      → Inv
          (record m { arrays = update m.arrays m.current (set_elt (array m) m.tail elt) })
          (push_tail elt)
          th
  store_elt-Inv elt v = record {
    array_valid = rw now (set_elt-IsValid (array m) v.array_valid m.tail elt);
    ordered = v.ordered;
    fits = rw (now, size-set_elt (array m) m.tail elt) v.fits;
    owner_fits = (
      rw now (get-set_elt_self (array m) m.tail elt),
      rw (now, size-set_elt (array m) m.tail elt) v.owner_fits.1,
    );
    thief_fits = λ i.
        taker_reads m next (th i) refl refl (omega arith) (λ j lo hi. rw now (kept j lo hi))
          (v.thief_fits i);
    conserved = λ x.
        v.conserved x
        ∙ ap (λ l. count x m.taken + count x (elt ∷ []) + count x (slot m.buffer) + count x l)
            (sym same_line);
  }
    where
      next : Shared
      next = record m { arrays = update m.arrays m.current (set_elt (array m) m.tail elt) }

      now :
          update m.arrays m.current (set_elt (array m) m.tail elt) m.current
          ≡ set_elt (array m) m.tail elt
      now = update_self m.arrays m.current (set_elt (array m) m.tail elt)

      kept :
          (j : ℕ) → m.head ≤ j → j < m.tail → get (set_elt (array m) m.tail elt) j ≡ get (array m) j
      kept j lo hi =
          get-set_elt_ne (array m) m.tail j elt
            (λ e. index-ne v.array_valid j m.tail hi (omega (arith, v.owner_fits)) (sym e))

      same_line : line next ≡ line m
      same_line = rw now (
          window_ext (set_elt (array m) m.tail elt) (array m) m.head (m.tail - m.head)
            (λ j lo hi. kept j lo (omega arith)))

  -- The element is published.
  store_tail-Inv :
      (elt : ℕ) → Inv m (push_tail elt) th → Inv (record m { tail = m.tail + 1 }) idle th
  store_tail-Inv elt v = record {
    array_valid = v.array_valid;
    ordered = omega (arith, v.ordered);
    fits = omega (arith, v.owner_fits);
    owner_fits = tt;
    thief_fits =
        λ i. taker_reads m next (th i) refl refl (omega arith) (λ j lo hi. refl) (v.thief_fits i);
    conserved =
        λ x. omega (arith, v.conserved x, ap (count x) longer, count-append x (line m) (elt ∷ []));
  }
    where
      next : Shared
      next = record m { tail = m.tail + 1 }

      last : m.head + (m.tail - m.head) ≡ m.tail
      last = omega (arith, v.ordered)

      count_eq : m.tail + 1 - m.head ≡ suc (m.tail - m.head)
      count_eq = omega (arith, v.ordered)

      longer : line next ≡ line m ++ (elt ∷ [])
      longer =
          ap (window (array m) m.head) count_eq
          ∙ window-suc (array m) m.head (m.tail - m.head)
          ∙ ap (λ e. line m ++ (e ∷ [])) (ap (get (array m)) last ∙ v.owner_fits.0)

  -- The array grows while no thief is in a steal.
  pub grow-Inv :
      (elt h : ℕ) (block : ℕ → Elt) (arr : CircularArray)
      → (array m).size + h < m.tail + 1
      → resize (array m) m.tail h (some block) ≡ ok arr
      → Quiet th
      → Inv m (push_room elt m.current h) th
      → Inv
          (record m { current = m.current + 1; arrays = update m.arrays (m.current + 1) arr })
          (push_set elt (m.current + 1))
          th
  grow-Inv elt h block arr full e quiet v = record {
    array_valid = rw now g.fresh.valid;
    ordered = v.ordered;
    fits = rw now (omega (arith, g.fresh.size_eq, v.fits));
    owner_fits = (refl, rw now (omega (arith, g.fresh.size_eq, v.fits, size_pos v.array_valid)));
    thief_fits = λ i. rw (quiet i) tt;
    conserved = λ x.
        v.conserved x
        ∙ ap (λ l. count x m.taken + count x (elt ∷ []) + count x (slot m.buffer) + count x l)
            (sym same_line);
  }
    where
      next : Shared
      next = record m { current = m.current + 1; arrays = update m.arrays (m.current + 1) arr }

      now : update m.arrays (m.current + 1) arr (m.current + 1) ≡ arr
      now = update_self m.arrays (m.current + 1) arr

      g : Grown (array m) h (m.tail - h) arr
      g = resized-Grown (array m) block m.tail h arr v.array_valid (omega (arith, v.owner_fits)) e

      same_line : line next ≡ line m
      same_line = rw now (
          window_ext arr (array m) m.head (m.tail - m.head)
            (λ j lo hi. g.reads j (omega (arith, v.owner_fits)) (omega (arith, v.owner_fits))))

  -- A step that leaves `head`, `tail` and the arrays alone.
  small-Inv :
      (o o' : Owner) (b : Elt) (pushed taken : List Elt)
      → OwnerFits (record m { buffer = b; pushed = pushed; taken = taken }) o'
      → ((x : Elt)
          → count x pushed + count x m.taken + count x (carried o) + count x (slot m.buffer)
            ≡ count x m.pushed + count x taken + count x (carried o') + count x (slot b))
      → Inv m o th
      → Inv (record m { buffer = b; pushed = pushed; taken = taken }) o' th
  small-Inv o o' b pushed taken f balance v = record {
    array_valid = v.array_valid;
    ordered = v.ordered;
    fits = v.fits;
    owner_fits = f;
    thief_fits = λ i.
        taker_reads m (record m { buffer = b; pushed = pushed; taken = taken }) (th i) refl refl
          (omega arith) (λ j lo hi. refl) (v.thief_fits i);
    conserved = λ x. omega (arith, v.conserved x, balance x);
  }

pub OwnerMove-Inv :
    {m m' : Shared} {o o' : Owner} {th : ℕ → Taker}
    → OwnerMove m o m' o'
    → Inv m o th
    → Inv m' o' th
OwnerMove-Inv {m} (call_push elt) v =
    small-Inv idle (push_head elt m.current) m.buffer (elt ∷ m.pushed) m.taken refl
      (λ x. omega arith) v
OwnerMove-Inv {m} (fill_slot elt e ne) v =
    small-Inv idle idle elt (elt ∷ m.pushed) m.taken tt
      (λ x. rw (e, slot-cons elt ne) (omega arith)) v
OwnerMove-Inv {m} (swap_slot elt full ne) v =
    small-Inv idle (push_head m.buffer m.current) elt (elt ∷ m.pushed) m.taken refl
      (λ x. rw (slot-cons m.buffer full, slot-cons elt ne) (omega arith)) v
OwnerMove-Inv {m} (load_head {elt} {arr}) v =
    small-Inv (push_head elt arr) (push_room elt arr m.head) m.buffer m.pushed m.taken
      (omega (arith, v.owner_fits, v.fits)) (λ x. omega arith) v
OwnerMove-Inv {m} (keep {elt} {arr} {h} room) v =
    small-Inv (push_room elt arr h) (push_set elt arr) m.buffer m.pushed m.taken
      (v.owner_fits.0, omega (arith, ap (λ a. (m.arrays a).size) v.owner_fits.0, v.owner_fits))
      (λ x. omega arith) v
OwnerMove-Inv (store_elt {elt}) v = let e = v.owner_fits.0 in rw e (store_elt-Inv elt (rw e at v))
OwnerMove-Inv (store_tail {elt}) v = store_tail-Inv elt v
OwnerMove-Inv {m} (pop_slot full) v =
    small-Inv idle idle empty m.pushed (m.buffer ∷ m.taken) tt
      (λ x. rw (slot-cons m.buffer full) (omega arith)) v
OwnerMove-Inv {m} (call_pop e) v =
    small-Inv idle (popping (looping m.current)) m.buffer m.pushed m.taken refl (λ x. omega arith) v
OwnerMove-Inv (pop_step mv) v = popping-Inv mv v
OwnerMove-Inv {m} return v =
    small-Inv (popping away) idle m.buffer m.pushed m.taken tt (λ x. omega arith) v
