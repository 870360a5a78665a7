-- ===== src/Scheduler/Moves.antt =====
-- What a step has to show of the worker that takes it, so that the sums over all of them follow.
use libseff.Base.{
  ℕ, ◌+◌, ◌%◌, ◌<◌, ◌≤◌, ◌≡◌, ◌⊎◌, inl, inr, refl, sym, subst, ap, ◌∙◌, arith, true, count, length,
}
use libseff.Base.Memory.{update}
use libseff.CircularArray.{Elt}
use libseff.TaskQueue.{Held}
use libseff.Scheduler.{Worker, Scheduler, words}
use libseff.Scheduler.Sums.{sum, sum-update}
use libseff.Scheduler.Invariant.{held, in_hand, at_free, extra, queued, extras, Inv}

module _ (s s' : Scheduler) (i : ℕ) (w : Worker) where
  -- A queue's part `q` becomes `q'`.
  pub record Balanced (old : Worker) (q q' : Elt → ℕ) : Type 0 where
    pub moved :
        (x : Elt)
        → count x s'.live
            + (q x + count x (in_hand old) + count x (at_free old) + count x s.sleeping)
          ≡ count x s.live
            + (q' x + count x (in_hand w) + count x (at_free w) + count x s'.sleeping)
    pub single : (x : Elt) → count x s'.live ≤ 1
    pub counted :
        (m m' : ℕ)
        → m' + extra old + length s.live ≡ m + extra w + length s'.live
        → s.remaining_tasks ≡ m % words
        → s'.remaining_tasks ≡ m' % words
    pub gone :
        (x : Elt)
        → s'.finished x ≡ true
        → ((s.finished x ≡ true)
            × (q' x + count x (in_hand w) + count x s'.sleeping
                ≤ q x + count x (in_hand old) + count x s.sleeping))
          ⊎ (q' x + count x (in_hand w) + count x s'.sleeping
              < q x + count x (in_hand old) + count x s.sleeping)

  pub moves-Inv :
      (queue : ℕ → Held) (q q' : Elt → ℕ) {old : Worker}
      → s.worker i ≡ old
      → i < s.n_workers
      → Inv s
      → ((x : Elt) → sum s.n_workers (λ k. count x (held (queue k))) + q x ≡ queued s x + q' x)
      → Balanced old q q'
      → Inv (record s' { n_workers = s.n_workers; queue = queue; worker = update s.worker i w })
  moves-Inv queue q q' e lt v lines from =
      let b = subst (λ u. Balanced u q q') (sym e) from in
      record {
        some_worker = v.some_worker;
        once = λ x.
            let hands = sum-update (λ u. count x (in_hand u)) s.worker i w s.n_workers lt in
            let frees = sum-update (λ u. count x (at_free u)) s.worker i w s.n_workers lt in
            omega (arith, v.once x, lines x, b.moved x, hands, frees);
        single = b.single;
        counted =
            let extras_eq = sum-update extra s.worker i w s.n_workers lt in
            b.counted (length s.live + extras s) _ (omega (arith, extras_eq)) v.counted;
        gone = λ x fin.
            let hands = sum-update (λ u. count x (in_hand u)) s.worker i w s.n_workers lt in
            elim (b.gone x fin) [
              | inl (old, le) ↦ omega (arith, v.gone x old, lines x, hands, le)
              | inr less ↦ omega (arith, v.once x, v.single x, lines x, hands, less)
            ];
      }

  -- No queue is called.
  pub turn-Inv :
      {old : Worker}
      → s.worker i ≡ old
      → i < s.n_workers
      → Inv s
      → Balanced old (λ x. 0) (λ x. 0)
      → Inv (record s' { n_workers = s.n_workers; queue = s.queue; worker = update s.worker i w })
  turn-Inv e lt v b = moves-Inv s.queue (λ x. 0) (λ x. 0) e lt v (λ x. refl) b

  -- No task comes or goes.
  pub same-Balanced :
      (old : Worker) (q q' : Elt → ℕ)
      → Inv s
      → s'.live ≡ s.live
      → s'.remaining_tasks ≡ s.remaining_tasks
      → ((x : Elt) → s'.finished x ≡ s.finished x)
      → ((x : Elt) → count x (at_free w) ≡ count x (at_free old))
      → extra w ≡ extra old
      → ((x : Elt)
          → q' x + count x (in_hand w) + count x s'.sleeping
            ≡ q x + count x (in_hand old) + count x s.sleeping)
      → Balanced old q q'
  same-Balanced old q q' v el er ef ea ee eq = record {
    moved = λ x. rw el (omega (arith, ea x, eq x));
    single = λ x. rw el (v.single x);
    counted = λ m m' e r. er ∙ r ∙ ap (λ k. k % words) (omega (arith, e, ee, ap length el));
    gone = λ x fin. inl (sym (ef x) ∙ fin, omega (arith, eq x));
  }
