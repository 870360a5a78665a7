-- ===== src/AdBench/Gradient.antt =====
-- The derivatives that `handle` leaves, on exact numbers.
use libseff.Base.{ℕ, suc, ◌<◌, ◌≡◌, refl, sym, subst, ap, ap₂, ◌∙◌, arith}
use libseff.Base.Memory.{update, update_self, update_ne}
use libseff.AdBench.{
  Double, Op1, negate_op, Op2, add_op, multiply_op, Prog, ret, ap0, ap1, ap2, Prop, Store, push,
  handle, evaluate, apply1, apply2,
}
use libseff.AdBench.Exact.{IsRing, nought-add, one-mul, mul-nought, mul-neg, neg-mul}
use libseff.AdBench.Sums.{
  Scoped, tangent1, tangent2, tangent, dot, dot-congr, dot-nought, dot-write, after, next_prop,
  backwards1, backwards2, after-ap0, after-ap1, after-ap2,
}

module _ {D : Type 0} (d : Double D) (r : IsRing d) where
  open d use {nought, one, add, mul, neg}

  dot-extend :
      (n : ℕ) (a t : ℕ → D) (z : D)
      → dot d (suc n) a (update t n z) ≡ add (dot d n a t) (mul (a n) z)
  dot-extend n a t z =
      ap₂ add (dot-congr d n a a (update t n z) t (λ i h. (refl, update_ne t n z i (omega arith))))
        (ap (mul (a n)) (update_self t n z))

  -- One step backwards keeps the sum: what the result of an operation has, its arguments get.
  dot-backwards1 :
      (op : Op1) (x : Prop D) (s : Store D) (n : ℕ) (t : ℕ → D)
      → x.dv < n
      → dot d n (backwards1 d op x n s).cell t
        ≡ dot d (suc n) s.cell (update t n (tangent1 d op x.v (t x.dv)))
  dot-backwards1 negate_op x s n t h =
      dot-write d r n s.cell t x.dv (neg (s.cell n)) h
      ∙ ap (add (dot d n s.cell t))
          (neg-mul r (s.cell n) (t x.dv) ∙ sym (mul-neg r (s.cell n) (t x.dv)))
      ∙ sym (dot-extend n s.cell t (neg (t x.dv)))

  -- `(y * a) * t` and `a * (y * t)`.
  mul_left_comm : (y a t : D) → mul (mul y a) t ≡ mul a (mul y t)
  mul_left_comm y a t = ap (λ z. mul z t) (r.mul_comm y a) ∙ r.mul_assoc a y t

  two_writes :
      (n : ℕ) (a t : ℕ → D) (i j : ℕ) (g h : D)
      → i < n
      → j < n
      → dot d n (update (update a i (add (a i) g)) j (add (update a i (add (a i) g) j) h)) t
        ≡ add (dot d n a t) (add (mul g (t i)) (mul h (t j)))
  two_writes n a t i j g h i_n j_n =
      dot-write d r n (update a i (add (a i) g)) t j h j_n
      ∙ ap (λ z. add z (mul h (t j))) (dot-write d r n a t i g i_n)
      ∙ r.add_assoc (dot d n a t) (mul g (t i)) (mul h (t j))

  dot-backwards2 :
      (op : Op2) (x y : Prop D) (s : Store D) (n : ℕ) (t : ℕ → D)
      → x.dv < n
      → y.dv < n
      → dot d n (backwards2 d op x y n s).cell t
        ≡ dot d (suc n) s.cell (update t n (tangent2 d op x.v y.v (t x.dv) (t y.dv)))
  dot-backwards2 add_op x y s n t hx hy =
      rw (update_ne s.cell x.dv (add (s.cell x.dv) (s.cell n)) n (omega arith)) (
        two_writes n s.cell t x.dv y.dv (s.cell n) (s.cell n) hx hy
        ∙ ap (add (dot d n s.cell t)) (sym (r.mul-add (s.cell n) (t x.dv) (t y.dv)))
        ∙ sym (dot-extend n s.cell t (add (t x.dv) (t y.dv))))
  dot-backwards2 multiply_op x y s n t hx hy =
      rw (update_ne s.cell x.dv (add (s.cell x.dv) (mul y.v (s.cell n))) n (omega arith)) (
        two_writes n s.cell t x.dv y.dv (mul y.v (s.cell n)) (mul x.v (s.cell n)) hx hy
        ∙ ap (add (dot d n s.cell t)) (
            ap₂ add (mul_left_comm y.v (s.cell n) (t x.dv)) (mul_left_comm x.v (s.cell n) (t y.dv))
            ∙ sym (r.mul-add (s.cell n) (mul y.v (t x.dv)) (mul x.v (t y.dv))))
        ∙ sym (dot-extend n s.cell t (add (mul y.v (t x.dv)) (mul x.v (t y.dv)))))

  abbrev pub Zeroes : Store D → Type 0
  Zeroes s = (i : ℕ) → i < s.next → s.cell i ≡ nought

  push-Zeroes : (s : Store D) → Zeroes s → Zeroes (push d s)
  push-Zeroes s z i h = ground (arith, z i)

  -- The claim, of the store `u` that is left.
  abbrev Adds : Prog D (Prop D) (Prop D) (Prop D) → Store D → Store D → Type 0
  Adds p s u = (u.next ≡ s.next) × ((t : ℕ → D) → dot d s.next u.cell t ≡ tangent d p s.next t)

  next-backwards1 :
      (op : Op1) (x : Prop D) (n : ℕ) (u : Store D) → (backwards1 d op x n u).next ≡ u.next
  next-backwards1 negate_op x n u = refl

  next-backwards2 :
      (op : Op2) (x y : Prop D) (n : ℕ) (u : Store D) → (backwards2 d op x y n u).next ≡ u.next
  next-backwards2 add_op x y n u = refl
  next-backwards2 multiply_op x y n u = refl

  -- `handle` on any coroutine that uses the values it was given, while no derivative has been added
  -- to: afterwards the derivatives of these values are the coefficients by which the result changes
  -- with them, and the locals of `handle` are gone.
  pub handle-gradient :
      (p : Prog D (Prop D) (Prop D) (Prop D)) (s : Store D)
      → Scoped d p s.next
      → Zeroes s
      → ((after d p s).next ≡ s.next)
        × ((t : ℕ → D) → dot d s.next (after d p s).cell t ≡ tangent d p s.next t)
  unfolding tangent handle evaluate
  handle-gradient (ret x) s scoped z = (
    refl,
    λ t.
        ap (λ w. dot d s.next (update s.cell x.dv w) t)
          (sym (nought-add r one) ∙ ap (λ w. add w one) (sym (z x.dv scoped)))
        ∙ dot-write d r s.next s.cell t x.dv one scoped
        ∙ ap₂ add (dot-nought d r s.next s.cell t z) (one-mul r (t x.dv))
        ∙ nought-add r (t x.dv),
  )
  handle-gradient (ap0 c k) s scoped z =
      let ih = handle-gradient (k (next_prop d s c)) (push d s) (scoped c) (push-Zeroes s z) in
      let u = after d (k (next_prop d s c)) (push d s) in
      subst (Adds (ap0 c k) s) (sym (after-ap0 d c k s)) (
        omega (arith, ih.0),
        λ t.
            sym (
              dot-extend s.next u.cell t nought
              ∙ ap (add (dot d s.next u.cell t)) (mul-nought r (u.cell s.next))
              ∙ r.add-nought (dot d s.next u.cell t))
            ∙ ih.1 (update t s.next nought),
      )
  handle-gradient (ap1 op x k) s scoped z =
      let v = apply1 d op x.v in
      let ih = handle-gradient (k (next_prop d s v)) (push d s) (scoped.1 v) (push-Zeroes s z) in
      let u = after d (k (next_prop d s v)) (push d s) in
      subst (Adds (ap1 op x k) s) (sym (after-ap1 d op x k s)) (
        omega (arith, ih.0, next-backwards1 op x s.next u),
        λ t.
            dot-backwards1 op x u s.next t scoped.0
            ∙ ih.1 (update t s.next (tangent1 d op x.v (t x.dv))),
      )
  handle-gradient (ap2 op x y k) s scoped z =
      let v = apply2 d op x.v y.v in
      let ih = handle-gradient (k (next_prop d s v)) (push d s) (scoped.2 v) (push-Zeroes s z) in
      let u = after d (k (next_prop d s v)) (push d s) in
      subst (Adds (ap2 op x y k) s) (sym (after-ap2 d op x y k s)) (
        omega (arith, ih.0, next-backwards2 op x y s.next u),
        λ t.
            dot-backwards2 op x y u s.next t scoped.0 scoped.1
            ∙ ih.1 (update t s.next (tangent2 d op x.v y.v (t x.dv) (t y.dv))),
      )
