-- ===== src/AdBench/Indirect.antt =====
-- indirect_prop_t.c: the payloads and the responses are pointers to `prop_t`, which `handle` reads
-- before and after it resumes the coroutine. Each `r` is a local of its call of `handle`, at the same
-- number as its `dv`.
pub mod Same
use libseff.Base.{
  ℕ, zero, suc, ◌+◌, ◌-◌, ◌<◌, ◌≡◌, refl, sym, ap, ap₂, ◌∙◌, arith, if◌then◌else◌, ◌==◌,
}
use libseff.Base.Memory.{update, update_self, update_ne}
use libseff.AdBench.{
  Double, Op1, negate_op, Op2, add_op, multiply_op, Prog, ret, ap0, ap1, ap2, ◌>>=◌, perform_c,
  Prop, Store, loop, write, push, pop, back1, back2, forth1, forth2, start, apply1, apply2,
}
use libseff.AdBench
use libseff.AdBench.Sums.{
  after-ret, after, next_prop, backwards1, backwards2, after-ap0, after-ap1, after-ap2,
  evaluate-bind,
}

pub record Frames (D : Type 0) : Type 0 where
  pub store : Store D
  pub prop : ℕ → Prop D

module _ {D : Type 0} (d : Double D) where
  -- `double dv = 0.0; prop_t r = {v, &dv};`
  abbrev pub enter : Frames D → D → Frames D
  enter fr v = record {
    store = push d fr.store;
    prop = update fr.prop fr.store.next (next_prop d fr.store v);
  }

  -- `handle`
  pub handle : Prog D ℕ ℕ ℕ → Frames D → Prog D D D (Frames D)
  handle (ret acc) fr = ret (record fr { store = write d fr.store (fr.prop acc).dv d.one })
  handle (ap0 value k) fr = do
    v ← perform_c value
    fr' ← handle (k fr.store.next) (enter fr v)
    ret (record fr' { store = pop d fr'.store })
  handle (ap1 op a k) fr = do
    v ← forth1 d op (fr.prop a).v
    fr' ← handle (k fr.store.next) (enter fr v)
    s ← back1 d op (fr'.prop a) fr.store.next fr'.store
    ret (record fr' { store = pop d s })
  handle (ap2 op a b k) fr = do
    v ← forth2 d op (fr.prop a).v (fr.prop b).v
    fr' ← handle (k fr.store.next) (enter fr v)
    s ← back2 d op (fr'.prop a) (fr'.prop b) fr.store.next fr'.store
    ret (record fr' { store = pop d s })

  -- `example`, on pointers.
  abbrev pub example : ℕ → ℕ → Prog D ℕ ℕ ℕ
  example iters x = AdBench.example d iters x

  -- The global `x` is at 0.
  abbrev pub first : Frames D
  first = record { store = start d; prop = λ a. record { v = d.half; dv = 0 } }

  -- `reverse`
  pub reverse : ℕ → Prog D D D D
  unfolding handle
  reverse iters = do fr ← handle (example iters 0) first; ret (fr.store.cell (fr.prop 0).dv)

  -- `evaluate`, whose loop is that of no_alloc.c.
  abbrev pub evaluate : {A : Type 0} → Prog D D D A → A
  evaluate p = AdBench.evaluate d p

  -- `main`
  pub run : ℕ → D
  unfolding reverse
  run iters = evaluate (reverse iters)

  -- What `handle` leaves, when `evaluate` handles its effects.
  abbrev pub left : Prog D ℕ ℕ ℕ → Frames D → Frames D
  left p fr = AdBench.evaluate d (handle p fr)

  pub left-ap0 :
      (c : D) (k : ℕ → Prog D ℕ ℕ ℕ) (fr : Frames D)
      → left (ap0 c k) fr
        ≡ (let fr' = left (k fr.store.next) (enter fr c) in record fr' { store = pop d fr'.store })
  unfolding handle AdBench.evaluate
  left-ap0 c k fr = evaluate-bind d (handle (k fr.store.next) (enter fr c)) _

  pub left-ap1 :
      (op : Op1) (a : ℕ) (k : ℕ → Prog D ℕ ℕ ℕ) (fr : Frames D)
      → left (ap1 op a k) fr ≡ (
          let fr' = left (k fr.store.next) (enter fr (apply1 d op (fr.prop a).v)) in
          record fr' { store = pop d (backwards1 d op (fr'.prop a) fr.store.next fr'.store) })
  unfolding handle AdBench.evaluate
  left-ap1 negate_op a k fr =
      evaluate-bind d (handle (k fr.store.next) (enter fr (d.neg (fr.prop a).v))) _

  pub left-ap2 :
      (op : Op2) (a b : ℕ) (k : ℕ → Prog D ℕ ℕ ℕ) (fr : Frames D)
      → left (ap2 op a b k) fr ≡ (
          let fr' = left (k fr.store.next) (enter fr (apply2 d op (fr.prop a).v (fr.prop b).v)) in
          record fr' {
            store = pop d (backwards2 d op (fr'.prop a) (fr'.prop b) fr.store.next fr'.store);
          })
  unfolding handle AdBench.evaluate
  left-ap2 add_op a b k fr =
      evaluate-bind d (handle (k fr.store.next) (enter fr (d.add (fr.prop a).v (fr.prop b).v))) _
  left-ap2 multiply_op a b k fr =
      evaluate-bind d (handle (k fr.store.next) (enter fr (d.mul (fr.prop a).v (fr.prop b).v))) _
