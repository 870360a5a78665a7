-- ===== src/Lookups/Ends.antt =====
-- The loops of interleaved lookups of bench/prefetching_lookups_bench, from their start to their end.
use libseff.Base.{
  ℕ, ◌-◌, ◌<◌, ◌≤◌, ◌≡◌, refl, sym, ap, ap₂, subst, ◌∙◌, inl, inr, arith, true, false, List, [],
  ◌∷◌, length, sum_of, dec_lt, ℕ_discrete, ltb, ◌==◌,
}
use libseff.Base.Result.{Result, ok}
use libseff.Lookups.Queue.{capacity}
use libseff.Lookups.Fifo.{contents, length-contents}
use libseff.Lookups.Multi.{
  Task, fresh_task, Outcome, Phase, Lookup, Progress, round, finish_up, seff_step, effect_step,
}
use libseff.Lookups.PhaseCost.{phase_cost-le, phase_cost-ap, adding_cost}
use libseff.Lookups.Adding.{ReadyIf, Steps, add_coroutines-Steps}
use libseff.Lookups.Counts.{value, one, open_sum, Resumes, Starts}
use libseff.Lookups.Rounds.{Inv, Turned, Rounds, round-Rounds}

module _ (v : List ℕ) (n : ℕ) (Good : Task → Type 0) (resumed : Task → Result Outcome) (streams : ℕ)
    (few : streams ≤ capacity) (starts : Starts v n Good resumed)
    (resumes : Resumes v n Good resumed) (total count : ℕ) where
  abbrev Invariant : Lookup → Type 0
  Invariant = Inv v n Good resumed streams few starts total count

  abbrev Goes : (Lookup → Phase → Type 0) → Lookup → Result Progress → Type 0
  Goes = Steps v n Good resumed streams few starts resumes total count

  -- The queue is not empty while fewer than `streams` coroutines may be added.
  tasks_left : (s : Lookup) → Invariant s → s.limit < streams → 0 < length (contents s.queue)
  tasks_left s inv less = omega (arith, length-contents s.queue, inv.holds.streams_eq)

  round-Steps :
      (Ready : Lookup → Phase → Type 0) (s : Lookup) (after : Phase) (inv : Invariant s)
      → Rounds v n Good resumed streams few starts total count resumes s after inv
      → ((s' : Lookup)
          → Invariant s'
          → Turned v n Good resumed streams few starts s after s'
          → Ready s' s'.phase)
      → Goes Ready s (round resumed s after)
  round-Steps Ready s after _ (s', e, inv, inl t) ready =
      inl (s', e, inv, ready s' inv (inl t), omega (arith, t.3, phase_cost-ap t.0 t.2 t.1))
  round-Steps Ready s after _ (s', e, inv, inr t) ready = inl (
    s',
    e,
    inv,
    ready s' inv (inr t),
    omega (arith, t.3, phase_cost-le s'.phase s'.pending s'.limit),
  )

  ready_at :
      (Resuming : Lookup → Type 0) (s : Lookup) (phase : Phase)
      → s.phase ≡ phase
      → ReadyIf Resuming s phase
      → ReadyIf Resuming s s.phase
  ready_at Resuming s phase e = subst (ReadyIf Resuming s) (sym e)

  rounds :
      (s : Lookup) (after : Phase) (inv : Invariant s)
      → s.limit < streams
      → Rounds v n Good resumed streams few starts total count resumes s after inv
  rounds s after inv less =
      round-Rounds v n Good resumed streams few starts total count resumes s after inv
        (contents s.queue) refl (tasks_left s inv less)

  nothing_left :
      (s : Lookup) (tasks : List Task)
      → contents s.queue ≡ tasks
      → s.pending ≡ []
      → streams ≤ s.limit
      → Invariant s
      → (s.found_count ≡ total) × (s.not_found_count ≡ count - total)
  nothing_left s [] e nothing full inv = (
    omega (arith, inv.found_eq, sums (value v)),
    omega (arith, inv.found_eq, inv.all_eq, sums (value v), sums one),
  )
    where
      sums : (f : Task → ℕ) → open_sum f s.pending s.queue ≡ 0
      sums f = omega (arith, ap (sum_of f) e, ap (sum_of (λ arg. f (fresh_task arg))) nothing)
  nothing_left s (task ∷ tasks) e nothing full inv =
      absurd (omega (arith, length-contents s.queue, ap length e, inv.holds.streams_eq, full))

  finish_up-Steps :
      (Resuming : Lookup → Type 0) (s : Lookup)
      → s.phase ≡ Phase.finishing
      → s.pending ≡ []
      → Invariant s
      → Goes (ReadyIf Resuming) s (finish_up resumed streams s)
  finish_up-Steps Resuming s phase nothing inv = elim (dec_lt s.limit streams) [
    | yes less ↦
        let test : ltb s.limit streams ≡ true = ground arith in
        rw test (
          round-Steps (ReadyIf Resuming) s Phase.finishing inv (rounds s Phase.finishing inv less)
            ready)
    | no full ↦
        let test : ltb s.limit streams ≡ false = ground arith in
        rw test (inr (ended (nothing_left s (contents s.queue) refl nothing (omega arith) inv)))
  ]
    where
      ended :
          (s.found_count ≡ total) × (s.not_found_count ≡ count - total)
          → ok (Progress.finished s.found_count s.not_found_count)
            ≡ ok (Progress.finished total (count - total))
      ended counts = ap ok (ap₂ Progress.finished counts.0 counts.1)

      ready :
          (s' : Lookup)
          → Invariant s'
          → Turned v n Good resumed streams few starts s Phase.finishing s'
          → ReadyIf Resuming s' s'.phase
      ready s' inv' (inl t) = ready_at Resuming s' Phase.finishing (t.0 ∙ phase) (t.2 ∙ nothing)
      ready s' inv' (inr t) = ready_at Resuming s' Phase.finishing t.0 (t.2 ∙ nothing)

  pub seff_step-Steps :
      (s : Lookup) (phase : Phase)
      → s.phase ≡ phase
      → Invariant s
      → ReadyIf (λ t. 0 < t.queue.size) s phase
      → Goes (ReadyIf (λ t. 0 < t.queue.size)) s (seff_step resumed streams s phase)
  seff_step-Steps s Phase.adding e inv room =
      add_coroutines-Steps v n Good resumed streams few starts resumes total count
        (λ t. 0 < t.queue.size) (λ t i some_task. some_task) s s.pending refl e inv room
  seff_step-Steps s Phase.resuming e inv some_task =
      round-Steps (ReadyIf (λ t. 0 < t.queue.size)) s Phase.adding inv
        (rounds s Phase.adding inv (omega (arith, inv.holds.streams_eq, some_task))) ready
    where
      ready :
          (s' : Lookup)
          → Invariant s'
          → Turned v n Good resumed streams few starts s Phase.adding s'
          → ReadyIf (λ t. 0 < t.queue.size) s' s'.phase
      ready s' inv' (inl t) =
          ready_at (λ t. 0 < t.queue.size) s' Phase.resuming (t.0 ∙ e)
            (omega (arith, t.1, inv.holds.streams_eq, inv'.holds.streams_eq, some_task))
      ready s' inv' (inr t) =
          ready_at (λ t. 0 < t.queue.size) s' Phase.adding t.0 (omega (arith, t.1))
  seff_step-Steps s Phase.finishing e inv nothing =
      finish_up-Steps (λ t. 0 < t.queue.size) s e nothing inv

  pub effect_step-Steps :
      0 < streams
      → (s : Lookup) (phase : Phase) → s.phase ≡ phase
      → Invariant s
      → ReadyIf (λ t. Unit) s phase
      → Goes (ReadyIf (λ t. Unit)) s (effect_step resumed streams s phase)
  effect_step-Steps some_streams s Phase.adding e inv room =
      add_coroutines-Steps v n Good resumed streams few starts resumes total count (λ t. Unit)
        (λ t i some_task. tt) s s.pending refl e inv room
  effect_step-Steps some_streams s Phase.resuming e inv u = elim (ℕ_discrete s.limit 0) [
    | yes full ↦
        let test : (s.limit == 0) ≡ true = ground arith in
        rw test (
          round-Steps (ReadyIf (λ t. Unit)) s Phase.resuming inv
            (rounds s Phase.resuming inv (omega (arith, full, some_streams))) ready)
    | no room ↦
        let test : (s.limit == 0) ≡ false = ground arith in
        rw test (
          inl (
            _,
            refl,
            record { holds = inv.holds; found_eq = inv.found_eq; all_eq = inv.all_eq },
            omega (arith, room),
            omega (
              arith,
              adding_cost s.pending s.limit room,
              phase_cost-ap {q = s.pending} {l = s.limit} e refl refl,
            ),
          ))
  ]
    where
      ready :
          (s' : Lookup)
          → Invariant s'
          → Turned v n Good resumed streams few starts s Phase.resuming s'
          → ReadyIf (λ t. Unit) s' s'.phase
      ready s' inv' (inl t) = ready_at (λ t. Unit) s' Phase.resuming (t.0 ∙ e) tt
      ready s' inv' (inr t) = ready_at (λ t. Unit) s' Phase.resuming t.0 tt
  effect_step-Steps some_streams s Phase.finishing e inv nothing =
      finish_up-Steps (λ t. Unit) s e nothing inv
