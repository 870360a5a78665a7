-- ===== src/AdBench.antt =====
-- bench/ad_bench: reverse-mode differentiation by two nested effect handlers. The coroutine `example`
-- performs the operations on numbers as effects; `handle` computes their values, resumes it, and goes
-- backwards through the operations once it has returned; and what `handle` itself computes are
-- effects that `evaluate` handles. This file is no_alloc.c; its children are the other versions.
pub mod Exact
pub mod Sums
pub mod Gradient
pub mod Forward
pub mod Naive
pub mod Indirect
pub mod Cast
pub mod Tests
use libseff.Base.{ℕ, zero, suc, ◌+◌, ◌-◌, if◌then◌else◌, ◌==◌}
use libseff.Base.Memory.{update}

-- `double`, with the constants and the operations that the code uses.
pub record Double (D : Type 0) : Type 0 where
  pub nought : D
  pub one : D
  pub minus_one : D
  pub half : D
  pub add : D → D → D
  pub mul : D → D → D
  pub neg : D → D

-- `op1_t` and `op2_t`
pub data Op1 : Type 0 where
  negate_op : Op1

pub data Op2 : Type 0 where
  add_op multiply_op : Op2

-- A coroutine as its handler sees it: it returns, or performs one of three effects with a payload
-- and goes on from the response. `D` are the constants, `X` the arguments and `R` the responses.
pub data Prog (D X R A : Type 0) : Type 0 where
  ret : (result : A) → Prog D X R A
  ap0 : (value : D) → (R → Prog D X R A) → Prog D X R A
  ap1 : (op : Op1) (arg1 : X) → (R → Prog D X R A) → Prog D X R A
  ap2 : (op : Op2) (arg1 arg2 : X) → (R → Prog D X R A) → Prog D X R A

infixl 5 ◌>>=◌
abbrev pub ◌>>=◌ : {D X R A B : Type 0} → Prog D X R A → (A → Prog D X R B) → Prog D X R B
ret a >>= f = f a
ap0 c k >>= f = ap0 c (λ r. k r >>= f)
ap1 op a k >>= f = ap1 op a (λ r. k r >>= f)
ap2 op a b k >>= f = ap2 op a b (λ r. k r >>= f)

-- One effect: `e_c`, `e_n`, `e_a` and `e_m` on doubles, `r_c`, `r_n`, `r_a` and `r_m` on `prop_t`.
abbrev pub perform_c : {D X R : Type 0} → D → Prog D X R R
perform_c x = ap0 x ret

abbrev pub perform_n : {D X R : Type 0} → X → Prog D X R R
perform_n x = ap1 negate_op x ret

abbrev pub perform_a : {D X R : Type 0} → X → X → Prog D X R R
perform_a x y = ap2 add_op x y ret

abbrev pub perform_m : {D X R : Type 0} → X → X → Prog D X R R
perform_m x y = ap2 multiply_op x y ret

-- `prop_t`: a value, and the address of its derivative.
pub record Prop (D : Type 0) : Type 0 where
  pub v : D
  pub dv : ℕ

-- The doubles at their addresses; those from `next` on are not in use.
pub record Store (D : Type 0) : Type 0 where
  pub cell : ℕ → D
  pub next : ℕ

module _ {D : Type 0} (d : Double D) where
  -- The loop of `example`, with the rounds that are left.
  pub loop : {P : Type 0} → ℕ → P → P → P → Prog D P P P
  loop zero x acc prev = ret acc
  loop (suc rounds) x acc prev = do
    c ← perform_c d.minus_one
    s ← perform_a x c
    n ← perform_n s
    prev' ← perform_m prev n
    acc' ← perform_a acc prev'
    loop rounds x acc' prev'

  -- `example`; its result is the global `result`.
  pub example : {P : Type 0} → ℕ → P → Prog D P P P
  unfolding loop
  example iters x = do acc ← perform_c d.one; prev ← perform_c d.one; loop iters x acc prev

  abbrev pub write : Store D → ℕ → D → Store D
  write s a w = record s { cell = update s.cell a w }

  -- `double dv = 0.0`, and the end of its life.
  abbrev pub push : Store D → Store D
  push s = record { cell = update s.cell s.next d.nought; next = suc s.next }

  abbrev pub pop : Store D → Store D
  pop s = record s { next = s.next - 1 }

  -- What `handle` does with `*dx` and `*dy` after the coroutine has returned; `dv` is the address of
  -- its local.
  abbrev pub back1 : Op1 → Prop D → ℕ → Store D → Prog D D D (Store D)
  back1 negate_op x dv s = do
    g ← perform_n (s.cell dv)
    w ← perform_a (s.cell x.dv) g
    ret (write s x.dv w)

  abbrev pub back2 : Op2 → Prop D → Prop D → ℕ → Store D → Prog D D D (Store D)
  back2 add_op x y dv s = do
    w ← perform_a (s.cell x.dv) (s.cell dv)
    let s' = write s x.dv w
    w' ← perform_a (s'.cell y.dv) (s'.cell dv)
    ret (write s' y.dv w')
  back2 multiply_op x y dv s = do
    g ← perform_m y.v (s.cell dv)
    w ← perform_a (s.cell x.dv) g
    let s' = write s x.dv w
    g' ← perform_m x.v (s'.cell dv)
    w' ← perform_a (s'.cell y.dv) g'
    ret (write s' y.dv w')

  -- The value of an operation.
  abbrev pub forth1 : Op1 → D → Prog D D D D
  forth1 negate_op x = perform_n x

  abbrev pub forth2 : Op2 → D → D → Prog D D D D
  forth2 add_op x y = perform_a x y
  forth2 multiply_op x y = perform_m x y

  -- `handle`, on what is left of the coroutine.
  pub handle : Prog D (Prop D) (Prop D) (Prop D) → Store D → Prog D D D (Store D)
  handle (ret result) s = ret (write s result.dv d.one)
  handle (ap0 value k) s = do
    v ← perform_c value
    s' ← handle (k (record { v = v; dv = s.next })) (push s)
    ret (pop s')
  handle (ap1 op x k) s = do
    v ← forth1 op x.v
    s' ← handle (k (record { v = v; dv = s.next })) (push s)
    s'' ← back1 op x s.next s'
    ret (pop s'')
  handle (ap2 op x y k) s = do
    v ← forth2 op x.v y.v
    s' ← handle (k (record { v = v; dv = s.next })) (push s)
    s'' ← back2 op x y s.next s'
    ret (pop s'')

  -- The derivative of `x` is at address 0, a local of `example` that outlives it.
  abbrev pub start : Store D
  start = record { cell = λ a. d.nought; next = 1 }

  -- `reverse`: what it prints.
  pub reverse : ℕ → Prog D D D D
  unfolding handle example
  reverse iters = do
    s ← handle (example iters (record { v = d.half; dv = 0 })) start
    ret (s.cell 0)

  abbrev pub apply1 : Op1 → D → D
  apply1 negate_op x = d.neg x

  abbrev pub apply2 : Op2 → D → D → D
  apply2 add_op x y = d.add x y
  apply2 multiply_op x y = d.mul x y

  -- The loop of `evaluate`, which responds with the value of each operation.
  pub evaluate : {A : Type 0} → Prog D D D A → A
  evaluate (ret a) = a
  evaluate (ap0 value k) = evaluate (k value)
  evaluate (ap1 op x k) = evaluate (k (apply1 op x))
  evaluate (ap2 op x y k) = evaluate (k (apply2 op x y))

  -- `main`, on its number of rounds.
  pub run : ℕ → D
  unfolding evaluate reverse
  run iters = evaluate (reverse iters)
