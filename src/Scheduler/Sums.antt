-- ===== src/Scheduler/Sums.antt =====
-- Sums over the workers.
use libseff.Base.{ℕ, zero, suc, ◌+◌, ◌<◌, ◌≤◌, ◌≡◌, ◌≢◌, refl, arith, ℕ_discrete}
use libseff.Base.Memory.{update}

abbrev pub sum : ℕ → (ℕ → ℕ) → ℕ
sum zero f = 0
sum (suc n) f = sum n f + f n

module _ {ℓ} {A : Type ℓ} (g : A → ℕ) (f : ℕ → A) (i : ℕ) (a : A) where
  pub sum_beyond : (n : ℕ) → n ≤ i → sum n (λ k. g (update f i a k)) ≡ sum n (λ k. g (f k))
  sum_beyond zero h = refl
  sum_beyond (suc n) h = ground (arith, sum_beyond n (omega arith))

  -- What the sum of `g` becomes when `f` has another value at one of its indices.
  pub sum-update :
      (n : ℕ) → i < n → sum n (λ k. g (update f i a k)) + g (f i) ≡ sum n (λ k. g (f k)) + g a
  sum-update zero h = omega arith
  sum-update (suc n) h = elim (ℕ_discrete i n) [
    | yes e ↦ ground (arith, sum_beyond n (omega arith))
    | no ne ↦ ground (arith, sum-update n (omega arith))
  ]

pub sum_ge : (n : ℕ) (f : ℕ → ℕ) (i : ℕ) → i < n → f i ≤ sum n f
sum_ge zero f i h = omega arith
sum_ge (suc n) f i h = elim (ℕ_discrete i n) [
  | yes e ↦ rw e (omega arith)
  | no ne ↦ omega (arith, sum_ge n f i (omega arith))
]

pub sum_ge_two : (n : ℕ) (f : ℕ → ℕ) (i j : ℕ) → i ≢ j → i < n → j < n → f i + f j ≤ sum n f
sum_ge_two zero f i j ne hi hj = omega arith
sum_ge_two (suc n) f i j ne hi hj = elim (ℕ_discrete i n) [
  | yes e ↦ rw e (omega (arith, sum_ge n f j (omega arith)))
  | no ne' ↦ elim (ℕ_discrete j n) [
    | yes e ↦ rw e (omega (arith, sum_ge n f i (omega arith)))
    | no ne'' ↦ omega (arith, sum_ge_two n f i j ne (omega arith) (omega arith))
  ]
]

pub sum-le_count : (n : ℕ) (f : ℕ → ℕ) → ((i : ℕ) → f i ≤ 1) → sum n f ≤ n
sum-le_count zero f h = omega arith
sum-le_count (suc n) f h = omega (arith, sum-le_count n f h, h n)

pub sum-nought : (n : ℕ) (f : ℕ → ℕ) → ((i : ℕ) → f i ≡ 0) → sum n f ≡ 0
sum-nought zero f h = refl
sum-nought (suc n) f h = omega (arith, sum-nought n f h, h n)
