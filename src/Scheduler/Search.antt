-- ===== src/Scheduler/Search.antt =====
-- Which tasks `scheff_try_get_task` can find.
use libseff.Base.{
  ℕ, zero, suc, ◌+◌, ◌-◌, ◌%◌, ◌<◌, ◌≤◌, ◌≡◌, ◌≢◌, ◌↔◌, refl, sym, ap, ◌∙◌, arith, Option, none,
  some, List, [], ◌∷◌, ℕ_discrete, dec_lt, subst,
}
use native.Mathlib.Nat.{mod-eq_of_lt, add-mod_right}
use libseff.Base.Memory.{update, update_self, update_ne}
use libseff.CircularArray.{Elt}
use libseff.TaskQueue.{Held, pop, steal}
use libseff.Scheduler.Conserved.{attempt_steal, victim-lt}
use libseff.Scheduler.{victim, attempt, answered, search, try_get_task}

steal-none :
    (o : Option Elt) (l : List Elt) → ((steal (record { slot = o; line = l })).0 ≡ none) ↔ (l ≡ [])
steal-none o [] = (λ e. refl, λ e. refl)
steal-none o (t ∷ l) = (λ e. ground arith, λ e. ground arith)

pop-none :
    (o : Option Elt) (l : List Elt)
    → ((pop (record { slot = o; line = l })).0 ≡ none) ↔ ((o ≡ none) × (l ≡ []))
pop-none none l = (λ e. (refl, (steal-none none l).0 e), λ e. (steal-none none l).1 e.1)
pop-none (some t) l = (λ e. ground arith, λ e. ground (arith, e.0))

answered-none :
    (queue : ℕ → Held) (v : ℕ) (a : Option Elt × Held) (rest : Option Elt × (ℕ → Held))
    → ((answered queue v a rest).0 ≡ none) ↔ ((a.0 ≡ none) × (rest.0 ≡ none))
answered-none queue v (none, h) rest = (λ e. (refl, e), λ e. e.1)
answered-none queue v (some t, h) rest = (λ e. ground arith, λ e. ground (arith, e.0))

search-none :
    (queue : ℕ → Held) (id n i rounds : ℕ)
    → ((search queue id n i rounds).0 ≡ none)
      ↔ ((k : ℕ) → i ≤ k → k < i + rounds → (attempt k (queue (victim id n k))).0 ≡ none)
search-none queue id n i zero = (λ e k h h'. ground arith, λ h. refl)
search-none queue id n i (suc rounds) =
    let v = victim id n i in
    let (to_both, from_both) =
      answered-none queue v (attempt i (queue v)) (search queue id n (suc i) rounds) in
    let (to, from) = search-none queue id n (suc i) rounds in
    (
      λ e k h h'. elim (ℕ_discrete i k) [
        | yes same ↦ subst (λ z. (attempt z (queue (victim id n z))).0 ≡ none) same (to_both e).0
        | no ne ↦ to (to_both e).1 k (omega arith) (omega arith)
      ],
      λ h.
          from_both
            (h i (omega arith) (omega arith), from (λ k l l'. h k (omega arith) (omega arith))),
    )

victim_lem : (id n k : ℕ) → 1 ≤ k → victim id n k ≡ (id + k) % n
victim_lem id n k h = ground (arith, h)

-- The round in which a worker comes to queue `j`.
victim-round :
    (id n j : ℕ) → id < n → j < n → j ≢ id → (k : ℕ) × (1 ≤ k) × (k < n) × (victim id n k ≡ j)
victim-round id n j hi hj ne = elim (dec_lt id j) [
  | yes lt ↦ (
    j - id,
    omega arith,
    omega arith,
    victim_lem id n (j - id) (omega arith) ∙ ap (λ z. z % n) (omega arith) ∙ mod-eq_of_lt hj,
  )
  | no ge ↦ (
    j + n - id,
    omega arith,
    omega arith,
    victim_lem id n (j + n - id) (omega arith)
        ∙ ap (λ z. z % n) (omega arith)
        ∙ add-mod_right j n
        ∙ mod-eq_of_lt hj,
  )
]

steal-slot : (h : Held) → (steal h).1.slot ≡ h.slot
steal-slot h = go h.slot h.line
  where
    go : (o : Option Elt) (l : List Elt) → (steal (record { slot = o; line = l })).1.slot ≡ o
    go o [] = refl
    go o (t ∷ l) = refl

answered-other :
    (queue : ℕ → Held) (v j : ℕ) (a : Option Elt × Held) (rest : Option Elt × (ℕ → Held))
    → (v ≡ j → a.1.slot ≡ (queue j).slot)
    → (rest.1 j).slot ≡ (queue j).slot
    → ((answered queue v a rest).1 j).slot ≡ (queue j).slot
answered-other queue v j (none, h) rest here later = later
answered-other queue v j (some t, h) rest here later = elim (ℕ_discrete v j) [
  | yes same ↦
      ap (λ (k : Held). k.slot) (ap (update queue v h) (sym same) ∙ update_self queue v h)
      ∙ here same
  | no ne ↦ ap (λ (k : Held). k.slot) (update_ne queue v h j ne)
]

-- The search takes nothing from the slot of another worker's queue.
search-slot :
    (queue : ℕ → Held) (id n j : ℕ)
    → j ≢ id
    → (i rounds : ℕ) → ((search queue id n i rounds).1 j).slot ≡ (queue j).slot
search-slot queue id n j ne i zero = refl
search-slot queue id n j ne i (suc rounds) =
    answered-other queue (victim id n i) j (attempt i (queue (victim id n i)))
      (search queue id n (suc i) rounds) (attempted (ℕ_discrete i 0))
      (search-slot queue id n j ne (suc i) rounds)
  where
    attempted :
        Dec (i ≡ 0)
        → victim id n i ≡ j
        → (attempt i (queue (victim id n i))).1.slot ≡ (queue j).slot
    attempted (yes is0) at = absurd (ground (arith, is0, at, ne))
    attempted (no is_later) at =
        ap (λ (z : Option Elt × Held). z.1.slot) (attempt_steal i (queue (victim id n i)) is_later)
        ∙ steal-slot (queue (victim id n i))
        ∙ ap (λ v. (queue v).slot) at

-- When nobody else uses the queues meanwhile, scheff_try_get_task answers NULL exactly if the
-- worker's own slot is empty and no queue has a task in its line; and whatever it answers, the slot of
-- every other worker's queue is as before.
pub try_get_task-none :
    (queue : ℕ → Held) (worker_id n_workers : ℕ)
    → worker_id < n_workers
    → (((try_get_task queue worker_id n_workers).0 ≡ none)
        ↔ (((queue worker_id).slot ≡ none) × ((j : ℕ) → j < n_workers → (queue j).line ≡ [])))
      × ((j : ℕ)
          → j ≢ worker_id
          → ((try_get_task queue worker_id n_workers).1 j).slot ≡ (queue j).slot)
unfolding try_get_task
try_get_task-none queue id n lt = (
  (
    λ e.
        let all = (search-none queue id n 0 n).0 e in
        let (slot, line) =
          (pop-none (queue id).slot (queue id).line).0 (all 0 (omega arith) (omega (arith, lt))) in
        (
          slot,
          λ j hj. elim (ℕ_discrete j id) [
            | yes same ↦ rw same line
            | no ne ↦
                let (k, pos, hk, at) = victim-round id n j lt hj ne in
                (steal-none (queue j).slot (queue j).line).0 (
                  subst (λ z. (steal (queue z)).0 ≡ none) at
                    (sym (
                        ap (λ (z : Option Elt × Held). z.0)
                          (attempt_steal k (queue (victim id n k)) (omega arith)))
                      ∙ all k (omega arith) (omega arith)))
          ],
        ),
    λ e. (search-none queue id n 0 n).1 (λ k h hk. elim (ℕ_discrete k 0) [
      | yes is0 ↦ rw is0 ((pop-none (queue id).slot (queue id).line).1 (e.0, e.1 id lt))
      | no ne ↦
          let v = victim id n k in
          ap (λ (z : Option Elt × Held). z.0) (attempt_steal k (queue v) ne)
          ∙ ((steal-none (queue v).slot (queue v).line).1 (e.1 v (victim-lt id n k lt)))
    ]),
  ),
  λ j ne. search-slot queue id n j ne 0 n,
)
