-- ===== src/Base/Memory.antt =====
-- Cells addressed by numbers: one write, and what a later read sees.
use libseff.Base.{ℕ, ◌==◌, if◌then◌else◌, ◌≡◌, ◌≢◌, arith}

abbrev pub update {ℓ} : {A : Type ℓ} → (ℕ → A) → ℕ → A → ℕ → A
update f i a j = if i == j then a else f j

module _ {ℓ} {A : Type ℓ} (f : ℕ → A) (i : ℕ) (a : A) where
  pub update_self : update f i a i ≡ a
  update_self = ground arith

  pub update_ne : (j : ℕ) → i ≢ j → update f i a j ≡ f j
  update_ne j h = ground arith
