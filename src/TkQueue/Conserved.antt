-- ===== src/TkQueue/Conserved.antt =====
-- What the queue without a lock promises while its array grows only when no thief is in a steal.
use libseff.Base.{ℕ, ◌+◌, ◌<◌, ◌≡◌, refl, arith, count, ◌⊎◌, inl, inr, ◌∷◌}
use libseff.CircularArray.{Elt, CircularArray}
use libseff.CircularArray.Window
use libseff.TkQueue.{
  Shared, Taker, TakerMove, looping, init, away, got_elt, idle, System, Step, own, grow, call_steal,
  rob, Reach, start, later, Quiet,
}
use libseff.TkQueue.Invariant.{carried, slot, line, Inv}
use libseff.TkQueue.TakerSteps.{thief-Inv, call_steal-Inv}
use libseff.TkQueue.PushSteps.{OwnerMove-Inv, grow-Inv}

init-Inv : (arr : CircularArray) → Window.IsValid arr → Inv (init arr) idle (λ _. away)
init-Inv arr v = record {
  array_valid = v;
  ordered = omega arith;
  fits = omega arith;
  owner_fits = tt;
  thief_fits = λ i. tt;
  conserved = λ x. refl;
}

pub Step-Inv :
    {s t : System} → Step Quiet s t → Inv s.mem s.owner s.thief → Inv t.mem t.owner t.thief
Step-Inv (own mv) v = OwnerMove-Inv mv v
Step-Inv {s} (grow {elt} {a} {h} block arr here full e quiet) v =
    let w = rw here at v in
    let same = w.owner_fits.0 in
    grow-Inv elt h block arr (rw same at full) (rw same at e) quiet (rw same at w)
Step-Inv (call_steal i e) v = call_steal-Inv i v
Step-Inv (rob i mv) v = thief-Inv i mv (v.thief_fits i) v

pub Reach-Inv :
    {arr : CircularArray} {s : System}
    → Window.IsValid arr
    → Reach Quiet arr s
    → Inv s.mem s.owner s.thief
Reach-Inv {arr} valid start = init-Inv arr valid
Reach-Inv valid (later r st) = Step-Inv st (Reach-Inv valid r)

-- No task is lost and none is handed out twice while the array grows only when no thief is in a
-- steal: each task was pushed as often as it was taken, is carried by the owner, or is in the slot
-- or the line.
pub tasks_kept :
    {arr : CircularArray} {s : System}
    → Window.IsValid arr
    → Reach Quiet arr s
    → (x : Elt)
    → count x s.mem.pushed
      ≡ count x s.mem.taken
        + count x (carried s.owner)
        + count x (slot s.mem.buffer)
        + count x (line s.mem)
tasks_kept valid r = (Reach-Inv valid r).conserved

-- While the array grows only when no thief is in a steal, the compare-exchange of a steal either finds
-- the `head` that the thief read, and the task that it read is taken; or the thief goes round again,
-- nothing is changed, and another thread has moved `head` up since.
pub round_ends :
    {arr : CircularArray} {s : System} (i a h elt : ℕ) {m : Shared} {p : Taker}
    → Window.IsValid arr
    → Reach Quiet arr s
    → s.thief i ≡ got_elt a h elt
    → TakerMove s.mem (got_elt a h elt) m p
    → ((s.mem.head ≡ h) × (p ≡ away) × (m.head ≡ h + 1) × (m.taken ≡ elt ∷ s.mem.taken))
      ⊎ ((h < s.mem.head) × (p ≡ looping a) × (m ≡ s.mem))
round_ends i a h elt valid r here (TakerMove.win e) = inl (e, refl, refl, refl)
round_ends i a h elt valid r here (TakerMove.retry ne) =
    inr (ground (arith, (Reach-Inv valid r).thief_fits i), refl, refl)
