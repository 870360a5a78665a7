-- ===== src/Scheduler/Conserved.antt =====
-- The calls of the queues, and what holds in every state that the scheduler reaches.
use libseff.Base.{
  ℕ, suc, ◌+◌, ◌%◌, ◌<◌, ◌≡◌, ◌≢◌, refl, sym, subst, ap, ◌∙◌, arith, Option, none, some, false,
  List, [], ◌∷◌, ◌++◌, count, length, count-append, ℕ_discrete,
}
use native.Mathlib.Nat.{mod-lt}
use libseff.Base.Memory.{update, update_ne}
use libseff.CircularArray.{Elt}
use libseff.TaskQueue.{Held, push, steal, pop, append}
use libseff.Scheduler.{
  Enqueue, back, front, unstarted, seeking, holding, pushing, Scheduler, words, increment, victim,
  attempt, enqueue, schedule, to, init, Step, schedules, turn, takes, misses, enqueues, Reach,
  start, later,
}
use libseff.Scheduler.Sums.{sum-update, sum-nought}
use libseff.Scheduler.Invariant.{tasks, optional, held, queued, extras, Inv}
use libseff.Scheduler.Moves.{moves-Inv, same-Balanced}
use libseff.Scheduler.Turns.{increment-mod, serves-Inv, turn-keeps}

append-count :
    (x : Elt) (l : List Elt) (o : Option Elt)
    → count x (append l o) ≡ count x l + count x (optional o)
append-count x l none = omega arith
append-count x l (some t) = omega (arith, count-append x l (t ∷ []))

steal-count :
    (x : Elt) (o : Option Elt) (l : List Elt)
    → let (t, h) = steal (record { slot = o; line = l }) in
      count x (append l o) ≡ count x (optional t) + count x (held h)
steal-count x o [] = omega arith
steal-count x o (t ∷ l) = omega (arith, append-count x (t ∷ l) o, append-count x l o)

pop-count :
    (x : Elt) (o : Option Elt) (l : List Elt)
    → let (t, h) = pop (record { slot = o; line = l }) in
      count x (append l o) ≡ count x (optional t) + count x (held h)
pop-count x none l = steal-count x none l
pop-count x (some t) l = omega (arith, append-count x l (some t))

pub attempt_steal : (k : ℕ) (h : Held) → k ≢ 0 → attempt k h ≡ steal h
attempt_steal k h ne = ground (arith, ne)

-- A call of a queue hands out what it takes away.
attempt-count :
    (x : Elt) (k : ℕ) (h : Held) {o : Option Elt} {h' : Held}
    → attempt k h ≡ (o, h')
    → count x (held h) ≡ count x (optional o) + count x (held h')
attempt-count x k h {o = o} {h' = h'} e =
    subst
      (λ (z : Option Elt × Held). count x (held h) ≡ count x (optional z.0) + count x (held z.1)) e
      (elim (ℕ_discrete k 0) [
        | yes is0 ↦ rw is0 (pop-count x h.slot h.line)
        | no ne ↦ rw (attempt_steal k h ne) (steal-count x h.slot h.line)
      ])

enqueue-count :
    (x : Elt) (e : Enqueue) (h : Held)
    → count x (held (enqueue e h)) ≡ count x (held h) + count x (tasks (e ∷ []))
enqueue-count x (back t) h = omega (
  arith,
  append-count x (h.line ++ (t ∷ [])) h.slot,
  append-count x h.line h.slot,
  count-append x h.line (t ∷ []),
)
enqueue-count x (front t) h = omega (arith, append-count x (append h.line h.slot) (some t))

tasks-first :
    (x : Elt) (e : Enqueue) (todo : List Enqueue) (l : List Elt)
    → count x (tasks (e ∷ todo) ++ l) ≡ count x (tasks (e ∷ [])) + count x (tasks todo ++ l)
tasks-first x (back t) todo l = omega arith
tasks-first x (front t) todo l = omega arith

pub victim-lt : (i n k : ℕ) → i < n → victim i n k < n
victim-lt i n k lt =
    let r : (i + k) % n < n = mod-lt (i + k) (omega (arith, lt)) in ground (arith, r)

module _ (s : Scheduler) (v : Inv s) where
  takes-keeps :
      (i k : ℕ) {t : Elt} {h : Held}
      → i < s.n_workers
      → s.worker i ≡ seeking k
      → attempt k (s.queue (victim i s.n_workers k)) ≡ (some t, h)
      → Inv (record (to s i (holding t)) { queue = update s.queue (victim i s.n_workers k) h })
  takes-keeps i k {t = t} {h = h} lt e got =
      let j = victim i s.n_workers k in
      moves-Inv s s i (holding t) (update s.queue j h) (λ x. count x (t ∷ [])) (λ x. 0) e lt v
        (λ x. omega (
          arith,
          attempt-count x k (s.queue j) got,
          sum-update (λ u. count x (held u)) s.queue j h s.n_workers (victim-lt i s.n_workers k lt),
        ))
        (same-Balanced s s i (holding t) _ (λ x. count x (t ∷ [])) (λ x. 0) v refl refl (λ x. refl)
          (λ x. refl) refl (λ x. omega arith))

  enqueues-keeps :
      (i : ℕ) (e : Enqueue) {todo : List Enqueue} {last : Option Elt}
      → i < s.n_workers
      → s.worker i ≡ pushing (e ∷ todo) last
      → Inv
          (record (to s i (pushing todo last)) { queue = update s.queue i (enqueue e (s.queue i)) })
  enqueues-keeps i e {todo = todo} {last = last} lt at =
      moves-Inv s s i (pushing todo last) (update s.queue i (enqueue e (s.queue i))) (λ x. 0)
        (λ x. count x (tasks (e ∷ []))) at lt v
        (λ x. omega (
          arith,
          enqueue-count x e (s.queue i),
          sum-update (λ u. count x (held u)) s.queue i (enqueue e (s.queue i)) s.n_workers lt,
        ))
        (same-Balanced s s i (pushing todo last) _ (λ x. 0) (λ x. count x (tasks (e ∷ []))) v refl
          refl (λ x. refl) (λ x. refl) refl
          (λ x. omega (arith, tasks-first x e todo (optional last))))

  schedules-keeps :
      (task : Elt)
      → ((i : ℕ) → s.worker i ≡ unstarted)
      → count task s.live ≡ 0
      → Inv (schedule s (some task)).1
  schedules-keeps task idle fresh = record {
    some_worker = v.some_worker;
    once = λ x. omega (arith, v.once x, enqueue-count x (back task) (s.queue 0), lines x);
    single = λ x. ground (arith, v.single x, fresh);
    counted =
        ap increment v.counted
        ∙ increment-mod (length s.live + extras s)
        ∙ ap (λ z. z % words) (omega arith);
    gone = λ x fin. elim (ℕ_discrete task x) [
      | yes same ↦ ground (arith, same, fin)
      | no ne ↦
          let old = v.gone x (sym (update_ne s.finished task false x ne) ∙ fin) in
          let added : count x (task ∷ []) ≡ 0 = ground (arith, ne) in
          omega (arith, old, added, enqueue-count x (back task) (s.queue 0), lines x)
    ];
  }
    where
      lines :
          (x : Elt)
          → queued (schedule s (some task)).1 x + count x (held (s.queue 0))
            ≡ queued s x + count x (held (push (s.queue 0) task))
      lines x =
          sum-update (λ u. count x (held u)) s.queue 0 (push (s.queue 0) task) s.n_workers
            v.some_worker

  Step-Inv : {s' : Scheduler} → Step s s' → Inv s'
  Step-Inv (schedules task idle ne fresh) = schedules-keeps task idle fresh
  Step-Inv (turn i lt t) = turn-keeps s v i lt t
  Step-Inv (takes i k lt hk e got) = takes-keeps i k lt e got
  Step-Inv (misses i k {h = h} lt hk e got) =
      serves-Inv s v i s (seeking (suc k)) e lt refl refl (λ x. refl) (λ x. refl) refl (λ x. refl)
  Step-Inv (enqueues i e lt at) = enqueues-keeps i e lt at

init-Inv : (n : ℕ) → 0 < n → Inv (init n)
init-Inv n lt = record {
  some_worker = lt;
  once = λ x. omega (arith, sum-nought n (λ i. 0) (λ i. refl));
  single = λ x. omega arith;
  counted = rw (sum-nought n (λ i. 0) (λ i. refl)) refl;
  gone = λ x fin. omega (arith, sum-nought n (λ i. 0) (λ i. refl));
}

pub reach-Inv : {s : Scheduler} → Reach s → Inv s
reach-Inv (start n lt) = init-Inv n lt
reach-Inv (later r t) = Step-Inv _ (reach-Inv r) t
