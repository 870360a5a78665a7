-- ===== src/AdBench/Cast.antt =====
-- ptr_dbl_cast.c: `evaluate` responds with the double itself, in the bits of the pointer. The union
-- that reads a `double` as a `void *` and back is a parameter: the two conversions.
use libseff.Base.{ℕ, ◌≡◌, refl, ap, sym, ◌∙◌}
use libseff.AdBench.{
  Double, Op1, negate_op, Op2, add_op, multiply_op, Prog, ret, ap0, ap1, ap2, ◌>>=◌, Prop, Store,
  example, write, push, pop, start, apply1, apply2,
}
use libseff.AdBench
use libseff.AdBench.Sums.{
  after-ret, after, next_prop, after-ap0, after-ap1, after-ap2, evaluate-bind,
}

-- `cast_t`: the same 64 bits as a double and as a pointer.
pub record Cast (D W : Type 0) : Type 0 where
  pub ptr : D → W
  pub dbl : W → D
  pub dbl-ptr : (x : D) → dbl (ptr x) ≡ x

module _ {D W : Type 0} (d : Double D) (cast : Cast D W) where
  open cast use {ptr, dbl}

  -- `PTR_TO_DBL(PERFORM(...))`
  abbrev e_c : D → Prog D D W D
  e_c x = ap0 x (λ w. ret (dbl w))

  abbrev e_n : D → Prog D D W D
  e_n x = ap1 negate_op x (λ w. ret (dbl w))

  abbrev e_a : D → D → Prog D D W D
  e_a x y = ap2 add_op x y (λ w. ret (dbl w))

  abbrev e_m : D → D → Prog D D W D
  e_m x y = ap2 multiply_op x y (λ w. ret (dbl w))

  abbrev back1 : Op1 → Prop D → ℕ → Store D → Prog D D W (Store D)
  back1 negate_op x dv s = do g ← e_n (s.cell dv); w ← e_a (s.cell x.dv) g; ret (write d s x.dv w)

  abbrev back2 : Op2 → Prop D → Prop D → ℕ → Store D → Prog D D W (Store D)
  back2 add_op x y dv s = do
    w ← e_a (s.cell x.dv) (s.cell dv)
    let s' = write d s x.dv w
    w' ← e_a (s'.cell y.dv) (s'.cell dv)
    ret (write d s' y.dv w')
  back2 multiply_op x y dv s = do
    g ← e_m y.v (s.cell dv)
    w ← e_a (s.cell x.dv) g
    let s' = write d s x.dv w
    g' ← e_m x.v (s'.cell dv)
    w' ← e_a (s'.cell y.dv) g'
    ret (write d s' y.dv w')

  abbrev forth1 : Op1 → D → Prog D D W D
  forth1 negate_op x = e_n x

  abbrev forth2 : Op2 → D → D → Prog D D W D
  forth2 add_op x y = e_a x y
  forth2 multiply_op x y = e_m x y

  -- `handle`
  pub handle : Prog D (Prop D) (Prop D) (Prop D) → Store D → Prog D D W (Store D)
  handle (ret result) s = ret (write d s result.dv d.one)
  handle (ap0 value k) s = do
    v ← e_c value
    s' ← handle (k (next_prop d s v)) (push d s)
    ret (pop d s')
  handle (ap1 op x k) s = do
    v ← forth1 op x.v
    s' ← handle (k (next_prop d s v)) (push d s)
    s'' ← back1 op x s.next s'
    ret (pop d s'')
  handle (ap2 op x y k) s = do
    v ← forth2 op x.v y.v
    s' ← handle (k (next_prop d s v)) (push d s)
    s'' ← back2 op x y s.next s'
    ret (pop d s'')

  -- `reverse`
  pub reverse : ℕ → Prog D D W D
  unfolding handle
  reverse iters = do
    s ← handle (example d iters (record { v = d.half; dv = 0 })) (start d)
    ret (s.cell 0)

  -- The loop of `evaluate`.
  pub evaluate : {A : Type 0} → Prog D D W A → A
  evaluate (ret a) = a
  evaluate (ap0 value k) = evaluate (k (ptr value))
  evaluate (ap1 op x k) = evaluate (k (ptr (apply1 d op x)))
  evaluate (ap2 op x y k) = evaluate (k (ptr (apply2 d op x y)))

  -- `main`
  pub run : ℕ → D
  unfolding evaluate reverse
  run iters = evaluate (reverse iters)

  cast-bind :
      {A B : Type 0} (p : Prog D D W A) (f : A → Prog D D W B)
      → evaluate (p >>= f) ≡ evaluate (f (evaluate p))
  unfolding evaluate
  cast-bind (ret a) f = refl
  cast-bind (ap0 c k) f = cast-bind (k (ptr c)) f
  cast-bind (ap1 op x k) f = cast-bind (k (ptr (apply1 d op x))) f
  cast-bind (ap2 op x y k) f = cast-bind (k (ptr (apply2 d op x y))) f

  -- The two versions of `handle` leave the same store.
  handle-after :
      (p : Prog D (Prop D) (Prop D) (Prop D)) (s : Store D) → evaluate (handle p s) ≡ after d p s
  unfolding handle evaluate
  handle-after (ret x) s = sym (after-ret d x s)
  handle-after (ap0 c k) s =
      cast-bind (handle (k (next_prop d s (dbl (ptr c)))) (push d s)) _
      ∙ (simp (cast.dbl-ptr, handle-after (k (next_prop d s c)) (push d s)))
      ∙ sym (after-ap0 d c k s)
  handle-after (ap1 negate_op x k) s =
      cast-bind (handle (k (next_prop d s (dbl (ptr (d.neg x.v))))) (push d s)) _
      ∙ (simp (cast.dbl-ptr, handle-after (k (next_prop d s (d.neg x.v))) (push d s)))
      ∙ sym (after-ap1 d negate_op x k s)
  handle-after (ap2 add_op x y k) s =
      cast-bind (handle (k (next_prop d s (dbl (ptr (d.add x.v y.v))))) (push d s)) _
      ∙ (simp (cast.dbl-ptr, handle-after (k (next_prop d s (d.add x.v y.v))) (push d s)))
      ∙ sym (after-ap2 d add_op x y k s)
  handle-after (ap2 multiply_op x y k) s =
      cast-bind (handle (k (next_prop d s (dbl (ptr (d.mul x.v y.v))))) (push d s)) _
      ∙ (simp (cast.dbl-ptr, handle-after (k (next_prop d s (d.mul x.v y.v))) (push d s)))
      ∙ sym (after-ap2 d multiply_op x y k s)

  -- If reading a double as a pointer and back gives the double, ptr_dbl_cast.c prints what no_alloc.c
  -- prints, for any number of rounds and whatever the operations on doubles do.
  pub run-eq-run : (iters : ℕ) → run iters ≡ AdBench.run d iters
  unfolding run reverse AdBench.run AdBench.reverse evaluate
  run-eq-run iters =
      cast-bind (handle (example d iters x) (start d)) _
      ∙ ap (λ (s : Store D). s.cell 0) (handle-after (example d iters x) (start d))
      ∙ sym (evaluate-bind d (AdBench.handle d (example d iters x) (start d)) _)
    where
      x : Prop D
      x = record { v = d.half; dv = 0 }
