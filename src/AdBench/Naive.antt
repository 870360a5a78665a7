-- ===== src/AdBench/Naive.antt =====
-- naive.c: every derivative and every response is a block of its own, from `malloc` to `free`, and so is
-- the `value` of `evaluate`. The heap has the blocks in use; to read, write or free one that is not in
-- use is a fault. `malloc` gives the blocks in order and never fails.
pub mod Blocks
pub mod Plain
pub mod Same
use libseff.Base.{ℕ, zero, suc, ◌+◌, ◌-◌, if◌then◌else◌, ◌==◌, Option, none, some}
use libseff.Base.Memory.{update}
use libseff.Base.Result.{Fault, Result, ok, err}
use libseff.AdBench.{
  Double, Op1, negate_op, Op2, add_op, multiply_op, Prog, ret, ap0, ap1, ap2, ◌>>=◌, perform_c,
  perform_n, perform_a, perform_m, Prop, forth1, forth2, apply1, apply2,
}

-- The `double` and the `prop_t` blocks at their addresses, the address of the next of each, and the
-- block of the global `result`.
pub record Heap (D : Type 0) : Type 0 where
  pub double : ℕ → Option D
  pub prop : ℕ → Option (Prop D)
  pub next : ℕ
  pub result : Option (Prop D)

-- The argument of an effect of `example`: a `prop_t` that it has, or what `*x` is at that time.
pub data Arg (D : Type 0) : Type 0 where
  given : (arg : Prop D) → Arg D
  star_x : Arg D

module _ {D : Type 0} (d : Double D) where
  -- The loop of `example`, with the rounds that are left.
  pub loop : ℕ → Prop D → Prop D → Prog D (Arg D) (Prop D) (Prop D)
  loop zero acc prev = ret acc
  loop (suc rounds) acc prev = do
    c ← perform_c d.minus_one
    s ← perform_a star_x (given c)
    n ← perform_n (given s)
    prev' ← perform_m (given prev) (given n)
    acc' ← perform_a (given acc) (given prev')
    loop rounds acc' prev'

  -- `example`, once it has made the blocks of `x`; what it returns it puts in the block `result`.
  pub example : ℕ → Prog D (Arg D) (Prop D) (Prop D)
  unfolding loop
  example iters = do acc ← perform_c d.one; prev ← perform_c d.one; loop iters acc prev

  -- `*a`
  abbrev pub load : {B : Type 0} → Option D → (D → Prog D D D (Result B)) → Prog D D D (Result B)
  load none f = ret (err Fault.undefined)
  load (some w) f = f w

  abbrev pub written : Heap D → ℕ → D → Heap D
  written h a w = record h { double = update h.double a (some w) }

  -- `*a = w`
  abbrev pub store : Heap D → ℕ → D → Result (Heap D)
  store h a w = elim (h.double a) [ none ↦ err Fault.undefined | some _ ↦ ok (written h a w) ]

  abbrev pub freed : Heap D → ℕ → ℕ → Heap D
  freed h dv r = record h { double = update h.double dv none; prop = update h.prop r none }

  -- `free(dv); free(r);`
  abbrev pub free : Heap D → ℕ → ℕ → Result (Heap D)
  free h dv r = elim (h.double dv) [
    | none ↦ err Fault.undefined
    | some _ ↦ elim (h.prop r) [ none ↦ err Fault.undefined | some _ ↦ ok (freed h dv r) ]
  ]

  -- A read of a `prop_t` block.
  abbrev pub load_prop :
      {B : Type 0} → Option (Prop D) → (Prop D → Prog D D D (Result B)) → Prog D D D (Result B)
  load_prop none f = ret (err Fault.undefined)
  load_prop (some r) f = f r

  -- The payload of an effect; the block of `x` is the first.
  abbrev pub payload :
      {B : Type 0} → Heap D → Arg D → (Prop D → Prog D D D (Result B)) → Prog D D D (Result B)
  payload h (given a) f = f a
  payload h star_x f = load_prop (h.prop 0) f

  -- The blocks of one call of `handle`.
  abbrev pub enter : Heap D → D → Heap D
  enter h v = record h {
    double = update h.double h.next (some d.nought);
    prop = update h.prop h.next (some (record { v = v; dv = h.next }));
    next = suc h.next;
  }

  abbrev pub back1 : Op1 → Prop D → ℕ → Heap D → Prog D D D (Result (Heap D))
  back1 negate_op x dv h =
      load (h.double dv) λ t. do
        g ← perform_n t
        load (h.double x.dv) λ a. do w ← perform_a a g; ret (store h x.dv w)

  -- `*a = e_a(*a, g)`
  abbrev pub add_to : Heap D → ℕ → D → Prog D D D (Result (Heap D))
  add_to h a g = load (h.double a) λ t. do w ← perform_a t g; ret (store h a w)

  -- On with the heap that a part has left.
  abbrev pub on : {A B : Type 0} → (A → Prog D D D (Result B)) → Result A → Prog D D D (Result B)
  on f (err why) = ret (err why)
  on f (ok h) = f h

  abbrev pub back2 : Op2 → Prop D → Prop D → ℕ → Heap D → Prog D D D (Result (Heap D))
  back2 add_op x y dv h =
      load (h.double dv)
        λ t. add_to h x.dv t >>= on λ (h' : Heap D). load (h'.double dv) λ t'. add_to h' y.dv t'
  back2 multiply_op x y dv h = load (h.double dv) λ t. do
    g ← perform_m y.v t
    add_to h x.dv g
        >>= on
            λ (h' : Heap D). load (h'.double dv) λ t'. do g' ← perform_m x.v t'; add_to h' y.dv g'

  -- `handle`, with the end of `example`. The coroutine is resumed with the address of the response, and
  -- reads it at once.
  pub handle : Prog D (Arg D) (Prop D) (Prop D) → Heap D → Prog D D D (Result (Heap D))
  handle (ret acc) h = ret (store (record h { result = some acc }) acc.dv d.one)
  handle (ap0 value k) h = do
    v ← perform_c value
    out ← load_prop ((enter h v).prop h.next) λ r. handle (k r) (enter h v)
    on (λ h'. ret (free h' h.next h.next)) out
  handle (ap1 op arg1 k) h = payload h arg1 λ x. do
    v ← forth1 d op x.v
    out ← load_prop ((enter h v).prop h.next) λ r. handle (k r) (enter h v)
    out' ← on (back1 op x h.next) out
    on (λ h'. ret (free h' h.next h.next)) out'
  handle (ap2 op arg1 arg2 k) h = payload h arg1 λ x. payload h arg2 λ y. do
    v ← forth2 d op x.v y.v
    out ← load_prop ((enter h v).prop h.next) λ r. handle (k r) (enter h v)
    out' ← on (back2 op x y h.next) out
    on (λ h'. ret (free h' h.next h.next)) out'

  -- The blocks of `x`.
  abbrev pub first : Heap D
  first = record {
    double = update (λ a. none) 0 (some d.nought);
    prop = update (λ a. none) 0 (some (record { v = d.half; dv = 0 }));
    next = 1;
    result = none;
  }

  -- `reverse`: what it prints, and the heap once it has freed `x` and its derivative.
  pub reverse : ℕ → Prog D D D (Result (D × Heap D))
  unfolding handle example
  reverse iters =
      handle (example iters) first
      >>= on λ (h : Heap D).
        load_prop (h.prop 0)
          λ x. load (h.double x.dv) λ t. on (λ h'. ret (ok (t, h'))) (free h x.dv 0)

  abbrev pub load_value :
      {B : Type 0} → Option D → (D → Option D → Result (B × Option D)) → Result (B × Option D)
  load_value none go_on = err Fault.undefined
  load_value (some r) go_on = go_on r (some r)

  -- `*value = w`, the resume of the coroutine, and its read of `*value`.
  abbrev pub answer_with :
      {B : Type 0} → Option D → D → (D → Option D → Result (B × Option D)) → Result (B × Option D)
  answer_with none w go_on = err Fault.undefined
  answer_with (some _) w go_on = load_value (some w) go_on

  -- The loop of `evaluate`, with its block `value`, which it frees at the end.
  pub evaluate : {B : Type 0} → Prog D D D B → Option D → Result (B × Option D)
  evaluate (ret b) none = err Fault.undefined
  evaluate (ret b) (some _) = ok (b, none)
  evaluate (ap0 w k) value = answer_with value w λ r value'. evaluate (k r) value'
  evaluate (ap1 op arg1 k) value =
      answer_with value (apply1 d op arg1) λ r value'. evaluate (k r) value'
  evaluate (ap2 op arg1 arg2 k) value =
      answer_with value (apply2 d op arg1 arg2) λ r value'. evaluate (k r) value'

  -- What `main` prints, the heap at its end, and the block `value`.
  abbrev pub at_end : Result (Result (D × Heap D) × Option D) → Result (D × Heap D × Option D)
  at_end (err why) = err why
  at_end (ok (err why, value)) = err why
  at_end (ok (ok (t, h), value)) = ok (t, h, value)

  -- `main`
  pub run : ℕ → Result (D × Heap D × Option D)
  unfolding evaluate reverse
  run iters = at_end (evaluate (reverse iters) (some d.nought))
