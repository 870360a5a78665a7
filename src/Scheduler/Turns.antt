-- ===== src/Scheduler/Turns.antt =====
-- The turns of a worker that call no queue.
use libseff.Base.{
  ℕ, ◌+◌, ◌%◌, ◌<◌, ◌≤◌, ◌≡◌, inl, inr, refl, sym, ap, ◌∙◌, arith, Option, none, some, Bool, true,
  false, List, [], ◌∷◌, ◌++◌, map, count, length, count-append, ℕ_discrete,
}
use libseff.Base.Memory.{update, update_ne}
use libseff.CircularArray.{Elt}
use libseff.Scheduler.{
  Enqueue, back, front, Poll, Worker, seeking, holding, forking, pushing, finalizing, released,
  ended, fatal, faulted, Scheduler, words, increment, decrement, remove, woken, to, Turn, created,
  give_up, leave, is_finished, poll_fails, returns, forks, allocates, no_memory, polls, sleeps,
  stays_awake, wakes, pushed, pushed_last, frees, uncounts,
}
use libseff.Scheduler.Invariant.{tasks, in_hand, at_free, extra, Inv}
use libseff.Scheduler.Sums.{sum_ge}
use libseff.Scheduler.Moves.{turn-Inv, same-Balanced}

abbrev nothing : Elt → ℕ
nothing x = 0

tasks-map-front : (x : Elt) (l : List Elt) → count x (tasks (map front l)) ≡ count x l
tasks-map-front x [] = refl
tasks-map-front x (t ∷ l) = omega (arith, tasks-map-front x l)

tasks-append :
    (x : Elt) (k l : List Enqueue)
    → count x (tasks (k ++ l)) ≡ count x (tasks k) + count x (tasks l)
tasks-append x [] l = omega arith
tasks-append x (back t ∷ k) l = omega (arith, tasks-append x k l)
tasks-append x (front t ∷ k) l = omega (arith, tasks-append x k l)

count-remove :
    (x t : Elt) (l : List Elt) → 1 ≤ count t l → count x (remove t l) + count x (t ∷ []) ≡ count x l
count-remove x t [] h = ground arith
count-remove x t (u ∷ l) h = elim (ℕ_discrete t u) [
  | yes e ↦ ground arith
  | no ne ↦ ground (arith, count-remove x t l (ground arith))
]

length-remove : (t : Elt) (l : List Elt) → 1 ≤ count t l → length (remove t l) + 1 ≡ length l
length-remove t [] h = ground arith
length-remove t (u ∷ l) h = elim (ℕ_discrete t u) [
  | yes e ↦ ground arith
  | no ne ↦ ground (arith, length-remove t l (ground arith))
]

pub increment-mod : (m : ℕ) → increment (m % words) ≡ (m + 1) % words
increment-mod m = omega arith

decrement-mod : (m : ℕ) → decrement ((m + 1) % words) ≡ m % words
decrement-mod m = omega arith

module _ (s : Scheduler) (v : Inv s) (i : ℕ) where
  -- From nothing or a task in hand to tasks in hand or asleep, while none comes or goes.
  pub serves-Inv :
      (s' : Scheduler) (w : Worker) {old : Worker}
      → s.worker i ≡ old
      → i < s.n_workers
      → s'.live ≡ s.live
      → s'.remaining_tasks ≡ s.remaining_tasks
      → ((x : Elt) → s'.finished x ≡ s.finished x)
      → ((x : Elt) → count x (at_free w) ≡ count x (at_free old))
      → extra w ≡ extra old
      → ((x : Elt)
          → count x (in_hand w) + count x s'.sleeping ≡ count x (in_hand old) + count x s.sleeping)
      → Inv (record s' { n_workers = s.n_workers; queue = s.queue; worker = update s.worker i w })
  serves-Inv s' w e lt el er ef ea ee eq =
      turn-Inv s s' i w e lt v
        (same-Balanced s s' i w _ nothing nothing v el er ef ea ee (λ x. omega (arith, eq x)))

  again :
      {t : Elt} (p : Elt → Option Poll) (l : List Elt)
      → ((x : Elt) → count x l ≡ count x s.sleeping)
      → s.worker i ≡ holding t
      → i < s.n_workers
      → Inv (to (record s { poll = p; sleeping = l }) i (pushing (back t ∷ []) none))
  again p l eq e lt =
      serves-Inv (record s { poll = p; sleeping = l }) _ e lt refl refl (λ x. refl) (λ x. refl) refl
        (λ x. omega (arith, eq x))

  in_hand-woken :
      (wakers : List Elt) (resume : Bool) (t x : Elt)
      → count x (in_hand (woken wakers resume t)) ≡ count x wakers + count x (t ∷ [])
  in_hand-woken wakers true t x = omega (
    arith,
    count-append x (tasks (map front wakers ++ (back t ∷ []))) [],
    tasks-append x (map front wakers) (back t ∷ []),
    tasks-map-front x wakers,
  )
  in_hand-woken wakers false t x =
      omega (arith, count-append x (tasks (map front wakers)) (t ∷ []), tasks-map-front x wakers)

  -- What is about to be freed is allocated.
  at_free_live : {t : Elt} → s.worker i ≡ finalizing t → i < s.n_workers → 1 ≤ count t s.live
  at_free_live {t = t} e lt =
      let h : 1 ≤ count t (at_free (s.worker i)) = rw e (ground arith) in
      omega (arith, v.once t, h, sum_ge s.n_workers (λ k. count t (at_free (s.worker k))) i lt)

  pub turn-keeps : {s' : Scheduler} {w : Worker} → i < s.n_workers → Turn s i s' w → Inv (to s' i w)
  turn-keeps lt (created e) =
      serves-Inv s (seeking 0) e lt refl refl (λ x. refl) (λ x. refl) refl (λ x. refl)
  turn-keeps lt (give_up e ne) =
      serves-Inv s (seeking 0) e lt refl refl (λ x. refl) (λ x. refl) refl (λ x. refl)
  turn-keeps lt (leave e z) =
      serves-Inv s ended e lt refl refl (λ x. refl) (λ x. refl) refl (λ x. refl)
  turn-keeps lt (is_finished {t = t} e f) =
      serves-Inv s (fatal t) e lt refl refl (λ x. refl) (λ x. refl) refl (λ x. refl)
  turn-keeps lt (poll_fails c e f p) = again s.poll s.sleeping (λ x. refl) e lt
  turn-keeps lt (polls {t = t} c e f) = again (update s.poll t (some c)) s.sleeping (λ x. refl) e lt
  turn-keeps lt (stays_awake {t = t} e f) = again (update s.poll t none) s.sleeping (λ x. refl) e lt
  turn-keeps lt (sleeps {t = t} e f) =
      serves-Inv (record s { poll = update s.poll t none; sleeping = t ∷ s.sleeping }) (seeking 0) e
        lt refl refl (λ x. refl) (λ x. refl) refl (λ x. omega arith)
  turn-keeps lt (wakes {t = t} wakers rest true e f eq) =
      serves-Inv (record s { poll = update s.poll t none; sleeping = rest }) (woken wakers true t) e
        lt refl refl (λ x. refl) (λ x. refl) refl
        (λ x. omega (arith, eq x, in_hand-woken wakers true t x))
  turn-keeps lt (wakes {t = t} wakers rest false e f eq) =
      serves-Inv (record s { poll = update s.poll t none; sleeping = rest }) (woken wakers false t)
        e lt refl refl (λ x. refl) (λ x. refl) refl
        (λ x. omega (arith, eq x, in_hand-woken wakers false t x))
  turn-keeps lt (pushed e) =
      serves-Inv s (seeking 0) e lt refl refl (λ x. refl) (λ x. refl) refl (λ x. refl)
  turn-keeps lt (no_memory {t = t} e) =
      serves-Inv s (faulted t) e lt refl refl (λ x. refl) (λ x. refl) refl (λ x. refl)
  turn-keeps lt (pushed_last {t = t} e) = turn-Inv s s i (finalizing t) e lt v (record {
    moved = λ x. omega arith;
    single = v.single;
    counted = λ m m' k r. r ∙ ap (λ z. z % words) (omega (arith, k));
    gone = λ x fin. inl (fin, omega arith);
  })
  turn-keeps {s' = s'} lt (returns {t = t} e f) = turn-Inv s s' i (finalizing t) e lt v (record {
    moved = λ x. omega arith;
    single = v.single;
    counted = λ m m' k r. r ∙ ap (λ z. z % words) (omega (arith, k));
    gone = λ x fin. elim (ℕ_discrete t x) [
      | yes same ↦ inr (ground (arith, same))
      | no ne ↦ inl (sym (update_ne s.finished t true x ne) ∙ fin, omega arith)
    ];
  })
  turn-keeps {s' = s'} lt (forks {t = t} e f) = turn-Inv s s' i (forking t) e lt v (record {
    moved = λ x. omega arith;
    single = v.single;
    counted = λ m m' k r. ap increment r ∙ increment-mod m ∙ ap (λ z. z % words) (omega (arith, k));
    gone = λ x fin. inl (fin, omega arith);
  })
  turn-keeps {s' = s'} lt (allocates {t = t} task e ne fresh) =
      turn-Inv s s' i (pushing (back t ∷ front task ∷ []) none) e lt v (record {
        moved = λ x. omega arith;
        single = λ x. ground (arith, v.single x, fresh);
        counted = λ m m' k r. r ∙ ap (λ z. z % words) (omega (arith, k));
        gone = λ x fin. elim (ℕ_discrete task x) [
          | yes same ↦ ground (arith, same, fin)
          | no ne ↦ inl (sym (update_ne s.finished task false x ne) ∙ fin, ground (arith, ne))
        ];
      })
  turn-keeps {s' = s'} lt (frees {t = t} e) =
      let there = at_free_live e lt in
      turn-Inv s s' i released e lt v (record {
        moved = λ x. omega (arith, count-remove x t s.live there);
        single = λ x. omega (arith, count-remove x t s.live there, v.single x);
        counted =
            λ m m' k r. r ∙ ap (λ z. z % words) (omega (arith, k, length-remove t s.live there));
        gone = λ x fin. inl (fin, omega arith);
      })
  turn-keeps {s' = s'} lt (uncounts e) = turn-Inv s s' i (seeking 0) e lt v (record {
    moved = λ x. omega arith;
    single = v.single;
    counted = λ m m' k r.
        let e' : m ≡ m' + 1 = omega (arith, k) in
        ap decrement (r ∙ ap (λ z. z % words) e') ∙ decrement-mod m';
    gone = λ x fin. inl (fin, omega arith);
  })
