-- ===== src/ClQueue/OwnerSteps.antt =====
-- Every step of the owner keeps the invariant of the deque.
use libseff.Base.{ℕ, ◌+◌, ◌-◌, ◌≤◌, ◌<◌, ◌≡◌, refl, ap, ◌∙◌, arith, count}
use libseff.CircularArray.{get}
use libseff.CircularArray.Window.{window}
use libseff.ClQueue.{
  Shared, Owner, idle, pop_store, pop_top, pop_read, pop_reset, OwnerMove, call_push, load_top,
  keep, grow, store_elt, store_bottom, call_pop, load_array, lower_bottom, see_some, see_none,
  take_elt, race, win_race, lose_race, reset_bottom, Thief,
}
use libseff.ClQueue.Invariant.{array, live_end, safe_end, OwnerFits, Inv}
use libseff.ClQueue.ThiefFacts.{thief_keep}
use libseff.ClQueue.Push.{store_elt-Inv, grow-Inv, store_bottom-Inv}
use libseff.ClQueue.Pop.{take_elt-Inv, win_race-Inv}

module _ {m : Shared} {th : ℕ → Thief} where
  -- A step that leaves memory alone and the bounds where they are.
  move-Inv :
      (o o' : Owner)
      → live_end m o' ≡ live_end m o
      → safe_end m o' ≡ safe_end m o
      → OwnerFits m o'
      → Inv m o th
      → Inv m o' th
  move-Inv o o' le se fits v = record {
    array_valid = v.array_valid;
    ordered = rw se v.ordered;
    lowered = rw se v.lowered;
    fits = rw le v.fits;
    owner_fits = fits;
    thief_fits = λ i. rw se (v.thief_fits i);
    conserved = λ x. rw le (v.conserved x);
  }

  -- `cl_queue_pop` announces its claim.
  lower_bottom-Inv :
      (c : ℕ)
      → Inv m (pop_store c m.current) th
      → Inv (record m { bottom_succ = c }) (pop_top c m.current) th
  lower_bottom-Inv c v = record {
    array_valid = v.array_valid;
    ordered = omega (arith, v.ordered, v.owner_fits);
    lowered = omega arith;
    fits = omega (arith, v.fits, v.owner_fits);
    owner_fits = (refl, refl);
    thief_fits = λ i.
        thief_keep m (record m { bottom_succ = c }) (m.bottom_succ - 1) c (th i) refl refl refl
          (omega (arith, v.owner_fits)) (v.thief_fits i);
    conserved = λ x.
        v.conserved x
        ∙ ap (λ n. count x m.taken + count x (window (array m) m.top (n - m.top))) same_end;
  }
    where
      same_end : m.bottom_succ - 1 ≡ c
      same_end = omega (arith, v.owner_fits)

  -- With a task left to thieves, the claim holds.
  see_some-Inv :
      (c : ℕ) → m.top < c → Inv m (pop_top c m.current) th → Inv m (pop_read c m.current m.top) th
  see_some-Inv c lt v = record {
    array_valid = v.array_valid;
    ordered = below;
    lowered = omega (arith, v.owner_fits, low);
    fits = v.fits;
    owner_fits = (v.owner_fits.0, refl, omega arith, lt);
    thief_fits = λ i.
        thief_keep m m c (safe_end m (pop_read c m.current m.top)) (th i) refl refl refl
          (λ h. ground arith) (v.thief_fits i);
    conserved = v.conserved;
  }
    where
      below : m.top ≤ safe_end m (pop_read c m.current m.top)
      below = ground arith

      low : c ≤ safe_end m (pop_read c m.current m.top) + 1
      low = ground arith

  -- The claim is given up: the queue is empty.
  reset_bottom-Inv :
      (c : ℕ) → Inv m (pop_reset c) th → Inv (record m { bottom_succ = c + 1 }) idle th
  reset_bottom-Inv c v = record {
    array_valid = v.array_valid;
    ordered = omega (arith, v.owner_fits);
    lowered = omega arith;
    fits = omega (arith, v.owner_fits);
    owner_fits = omega arith;
    thief_fits = λ i.
        thief_keep m (record m { bottom_succ = c + 1 }) c (c + 1 - 1) (th i) refl refl refl
          (omega (arith, v.owner_fits)) (v.thief_fits i);
    conserved = λ x.
        v.conserved x
        ∙ ap (λ n. count x m.taken + count x (window (array m) m.top (n - m.top))) same_end;
  }
    where
      same_end : c ≡ c + 1 - 1
      same_end = omega arith

-- Every step of the owner keeps the invariant.
pub OwnerMove-Inv :
    {m m' : Shared} {o o' : Owner} {th : ℕ → Thief}
    → OwnerMove m o m' o'
    → Inv m o th
    → Inv m' o' th
OwnerMove-Inv (call_push e) v = move-Inv _ _ refl refl (omega (arith, v.owner_fits)) v
OwnerMove-Inv load_top v = move-Inv _ _ refl refl (omega (arith, v.owner_fits, v.fits)) v
OwnerMove-Inv (keep room) v =
    move-Inv _ _ refl refl (v.owner_fits.0, refl, omega (arith, v.owner_fits)) v
OwnerMove-Inv (grow {elt} {b} {t} block arr full h) v = grow-Inv elt b t block arr full h v
OwnerMove-Inv (store_elt {elt} {b}) v =
    let e = v.owner_fits.1 in rw e (store_elt-Inv elt b (rw e at v))
OwnerMove-Inv (store_bottom {elt} {b}) v = store_bottom-Inv elt b v
OwnerMove-Inv call_pop v = move-Inv _ _ refl refl (omega (arith, v.owner_fits)) v
OwnerMove-Inv load_array v = move-Inv _ _ refl refl (v.owner_fits, refl) v
OwnerMove-Inv (lower_bottom {c}) v = let e = v.owner_fits.1 in rw e (lower_bottom-Inv c (rw e at v))
OwnerMove-Inv (see_some {c} lt) v = let e = v.owner_fits.1 in rw e (see_some-Inv c lt (rw e at v))
OwnerMove-Inv (see_none {c} le) v =
    move-Inv _ _ refl refl (v.owner_fits.0, omega (arith, v.ordered)) v
OwnerMove-Inv (take_elt {c} {arr} {t} lt) v =
    let e = v.owner_fits.1 in rw e (take_elt-Inv c t lt (rw e at v))
OwnerMove-Inv {m} (race {c} {arr} {t} e) v =
    move-Inv _ _ refl (ground arith)
      (
        v.owner_fits.0,
        ap (λ a. get (m.arrays a) (c - 1)) v.owner_fits.1,
        omega (arith, v.owner_fits),
        omega arith,
      )
      v
OwnerMove-Inv (win_race {c} {elt} won) v = win_race-Inv c elt won v
OwnerMove-Inv (lose_race {c} lost) v =
    move-Inv _ _ refl refl (v.owner_fits.0, omega (arith, v.ordered, v.owner_fits)) v
OwnerMove-Inv (reset_bottom {c}) v = reset_bottom-Inv c v
