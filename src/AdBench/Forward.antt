-- ===== src/AdBench/Forward.antt =====
-- The same `example` run forwards on dual numbers, a value and its derivative along `x`; and what the
-- program prints.
use libseff.Base.{ℕ, zero, suc, ◌<◌, ◌≡◌, refl, sym, ap, ap₂, ◌∙◌, arith}
use libseff.Base.Memory.{update, update_self, update_ne}
use libseff.AdBench.{
  Double, Op1, negate_op, Op2, add_op, multiply_op, Prog, ret, ap0, ap1, ap2, Prop, Store, loop,
  example, start, handle, reverse, run, apply1, apply2,
}
use libseff.AdBench.Exact.{IsRing, nought-add}
use libseff.AdBench.Sums.{Scoped, tangent1, tangent2, tangent, after, evaluate-bind}
use libseff.AdBench.Gradient.{handle-gradient}

module _ {D : Type 0} (d : Double D) where
  open d use {nought, one, minus_one, half, add, mul, neg}

  -- A value, and its derivative.
  abbrev pub Dual : Type 0
  Dual = D × D

  -- A coroutine on dual numbers, by the rules of differentiation.
  pub forwards : {A : Type 0} → Prog D Dual Dual A → A
  forwards (ret a) = a
  forwards (ap0 c k) = forwards (k (c, nought))
  forwards (ap1 op x k) = forwards (k (apply1 d op x.0, tangent1 d op x.0 x.1))
  forwards (ap2 op x y k) = forwards (k (apply2 d op x.0 y.0, tangent2 d op x.0 y.0 x.1 y.1))

  loop-Scoped :
      (rounds n : ℕ) (x acc prev : Prop D)
      → x.dv < n
      → acc.dv < n
      → prev.dv < n
      → Scoped d (loop d rounds x acc prev) n
  unfolding loop
  loop-Scoped zero n x acc prev hx ha hp = ha
  loop-Scoped (suc rounds) n x acc prev hx ha hp = λ c. (
    omega arith,
    omega arith,
    λ s. (
      omega arith,
      λ m. (
        omega arith,
        omega arith,
        λ p. (
          omega arith,
          omega arith,
          λ a.
              loop-Scoped rounds (suc (suc (suc (suc (suc n))))) x _ _ (omega arith) (omega arith)
                (omega arith),
        ),
      ),
    ),
  )

  pub example-Scoped : (iters n : ℕ) (x : Prop D) → x.dv < n → Scoped d (example d iters x) n
  unfolding example
  example-Scoped iters n x hx =
      λ a p. loop-Scoped iters (suc (suc n)) x _ _ (omega arith) (omega arith) (omega arith)

  -- A value among the first `n`, whose change is `t` at its address, and the dual number it stands for.
  record Follows (t : ℕ → D) (n : ℕ) (x : Prop D) (u : Dual) : Type 0 where
    given : x.dv < n
    value : x.v ≡ u.0
    change : t x.dv ≡ u.1

  keep :
      (t : ℕ → D) (n : ℕ) (z : D) (x : Prop D) (u : Dual)
      → Follows t n x u
      → Follows (update t n z) (suc n) x u
  keep t n z x u f = record {
    given = omega (arith, f.given);
    value = f.value;
    change = update_ne t n z x.dv (omega (arith, f.given)) ∙ f.change;
  }

  new0 :
      (t : ℕ → D) (n : ℕ) (c : D)
      → Follows (update t n nought) (suc n) (record { v = c; dv = n }) (c, nought)
  new0 t n c = record { given = omega arith; value = refl; change = update_self t n nought }

  new1 :
      (op : Op1) (t : ℕ → D) (n : ℕ) (x : Prop D) (u : Dual)
      → Follows t n x u
      → Follows
          (update t n (tangent1 d op x.v (t x.dv)))
          (suc n)
          (record { v = apply1 d op x.v; dv = n })
          (apply1 d op u.0, tangent1 d op u.0 u.1)
  new1 op t n x u f = record {
    given = omega arith;
    value = ap (apply1 d op) f.value;
    change = update_self t n _ ∙ ap₂ (tangent1 d op) f.value f.change;
  }

  new2 :
      (op : Op2) (t : ℕ → D) (n : ℕ) (x y : Prop D) (u w : Dual)
      → Follows t n x u
      → Follows t n y w
      → Follows
          (update t n (tangent2 d op x.v y.v (t x.dv) (t y.dv)))
          (suc n)
          (record { v = apply2 d op x.v y.v; dv = n })
          (apply2 d op u.0 w.0, tangent2 d op u.0 w.0 u.1 w.1)
  new2 op t n x y u w f g = record {
    given = omega arith;
    value = ap₂ (apply2 d op) f.value g.value;
    change =
        update_self t n _
        ∙ ap₂ (λ a b. tangent2 d op a b (t x.dv) (t y.dv)) f.value g.value
        ∙ ap₂ (tangent2 d op u.0 w.0) f.change g.change;
  }

  tangent-loop :
      (rounds n : ℕ) (t : ℕ → D) (x acc prev : Prop D) (u a p : Dual)
      → Follows t n x u
      → Follows t n acc a
      → Follows t n prev p
      → tangent d (loop d rounds x acc prev) n t ≡ (forwards (loop d rounds u a p)).1
  unfolding loop tangent forwards
  tangent-loop zero n t x acc prev u a p fx fa fp = fa.change
  tangent-loop (suc rounds) n t x acc prev u a p fx fa fp =
      let c = new0 t n minus_one in
      let fx1 = keep t n nought x u fx in
      let s = new2 add_op _ (suc n) x _ u _ fx1 c in
      let m = new1 negate_op _ (suc (suc n)) _ _ s in
      let fp3 =
        keep _ (suc (suc n)) _ prev p (keep _ (suc n) _ prev p (keep t n nought prev p fp)) in
      let q = new2 multiply_op _ (suc (suc (suc n))) prev _ p _ fp3 m in
      let fa4 =
        keep _ (suc (suc (suc n))) _ acc a
          (keep _ (suc (suc n)) _ acc a (keep _ (suc n) _ acc a (keep t n nought acc a fa))) in
      let b = new2 add_op _ (suc (suc (suc (suc n)))) acc _ a _ fa4 q in
      tangent-loop rounds (suc (suc (suc (suc (suc n))))) _ x _ _ u _ _
        (keep _ (suc (suc (suc (suc n)))) _ x u (
          keep _ (suc (suc (suc n))) _ x u (keep _ (suc (suc n)) _ x u (keep _ (suc n) _ x u fx1))))
        b (keep _ (suc (suc (suc (suc n)))) _ _ _ q)

  tangent-example :
      (iters n : ℕ) (t : ℕ → D) (x : Prop D) (u : Dual)
      → Follows t n x u
      → tangent d (example d iters x) n t ≡ (forwards (example d iters u)).1
  unfolding example tangent forwards
  tangent-example iters n t x u fx =
      tangent-loop iters (suc (suc n)) _ x _ _ u _ _
        (keep _ (suc n) nought x u (keep t n nought x u fx))
        (keep _ (suc n) nought _ _ (new0 t n one)) (new0 _ (suc n) one)

  -- On exact numbers, the program prints the derivative at 0.5 of what `example` computes, as dual
  -- numbers have it, for any number of rounds.
  pub run-derivative :
      (iters : ℕ) → IsRing d → run d iters ≡ (forwards (example d iters (half, one))).1
  unfolding run reverse
  run-derivative iters r =
      evaluate-bind d (handle d (example d iters x) (start d)) _
      ∙ sym (ap (add nought) (r.mul-one (u.cell 0)) ∙ nought-add r (u.cell 0))
      ∙ (handle-gradient d r (example d iters x) (start d) (example-Scoped iters 1 x (omega arith))
            (λ i h. refl)).1
          (λ i. one)
      ∙ tangent-example iters 1 (λ i. one) x (half, one)
          (record { given = omega arith; value = refl; change = refl })
    where
      x : Prop D
      x = record { v = half; dv = 0 }

      u : Store D
      u = after d (example d iters x) (start d)
