-- ===== src/AdBench/Sums.antt =====
-- What `handle` does once `evaluate` handles its effects, and the sum that its derivatives enter.
use libseff.Base.{ℕ, zero, suc, ◌<◌, ◌≡◌, refl, sym, subst, ap, ap₂, ◌∙◌, arith, ℕ_discrete}
use libseff.Base.Memory.{update, update_self, update_ne}
use libseff.AdBench.{
  Double, Op1, negate_op, Op2, add_op, multiply_op, Prog, ret, ap0, ap1, ap2, ◌>>=◌, Prop, Store,
  write, push, pop, handle, evaluate, apply1, apply2,
}
use libseff.AdBench.Exact.{IsRing, add-mul, add_right_comm, nought-mul}

module _ {D : Type 0} (d : Double D) where
  open d use {nought, one, add, mul, neg}

  -- The values that a coroutine uses are those that it was given: of `n` addresses.
  abbrev pub Scoped : Prog D (Prop D) (Prop D) (Prop D) → ℕ → Type 0
  Scoped (ret r) n = r.dv < n
  Scoped (ap0 c k) n = (v : D) → Scoped (k (record { v = v; dv = n })) (suc n)
  Scoped (ap1 op x k) n = (x.dv < n) × ((v : D) → Scoped (k (record { v = v; dv = n })) (suc n))
  Scoped (ap2 op x y k) n =
      (x.dv < n) × (y.dv < n) × ((v : D) → Scoped (k (record { v = v; dv = n })) (suc n))

  -- The change of an operation's value along the changes `s` and `t` of its arguments.
  abbrev pub tangent1 : Op1 → D → D → D
  tangent1 negate_op x s = neg s

  abbrev pub tangent2 : Op2 → D → D → D → D → D
  tangent2 add_op x y s t = add s t
  tangent2 multiply_op x y s t = add (mul y s) (mul x t)

  -- The change of a coroutine's result along the changes `t` of the values that it was given:
  -- differentiation forwards, by the rules of the operations.
  unfoldable pub tangent : Prog D (Prop D) (Prop D) (Prop D) → ℕ → (ℕ → D) → D
  tangent (ret r) n t = t r.dv
  tangent (ap0 c k) n t = tangent (k (record { v = c; dv = n })) (suc n) (update t n nought)
  tangent (ap1 op x k) n t =
      tangent (k (record { v = apply1 d op x.v; dv = n })) (suc n)
        (update t n (tangent1 op x.v (t x.dv)))
  tangent (ap2 op x y k) n t =
      tangent (k (record { v = apply2 d op x.v y.v; dv = n })) (suc n)
        (update t n (tangent2 op x.v y.v (t x.dv) (t y.dv)))

  -- The sum of the products at the first `n` addresses.
  abbrev pub dot : ℕ → (ℕ → D) → (ℕ → D) → D
  dot zero a t = nought
  dot (suc n) a t = add (dot n a t) (mul (a n) (t n))

  pub dot-congr :
      (n : ℕ) (a b t u : ℕ → D)
      → ((i : ℕ) → i < n → (a i ≡ b i) × (t i ≡ u i))
      → dot n a t ≡ dot n b u
  dot-congr zero a b t u e = refl
  dot-congr (suc n) a b t u e =
      ap₂ add (dot-congr n a b t u (λ i h. e i (omega arith)))
        (ap₂ mul (e n (omega arith)).0 (e n (omega arith)).1)

  pub evaluate-bind :
      {A B : Type 0} (p : Prog D D D A) (f : A → Prog D D D B)
      → evaluate d (p >>= f) ≡ evaluate d (f (evaluate d p))
  unfolding evaluate
  evaluate-bind (ret a) f = refl
  evaluate-bind (ap0 c k) f = evaluate-bind (k c) f
  evaluate-bind (ap1 op x k) f = evaluate-bind (k (apply1 d op x)) f
  evaluate-bind (ap2 op x y k) f = evaluate-bind (k (apply2 d op x y)) f

  module _ (r : IsRing d) where
    pub dot-nought : (n : ℕ) (a t : ℕ → D) → ((i : ℕ) → i < n → a i ≡ nought) → dot n a t ≡ nought
    dot-nought zero a t e = refl
    dot-nought (suc n) a t e =
        ap₂ add (dot-nought n a t (λ i h. e i (omega arith)))
          (ap (λ z. mul z (t n)) (e n (omega arith)) ∙ nought-mul r (t n))
        ∙ r.add-nought nought

    dot-write_last :
        (n : ℕ) (a t : ℕ → D) (g : D)
        → dot (suc n) (update a n (add (a n) g)) t ≡ add (dot (suc n) a t) (mul g (t n))
    dot-write_last n a t g =
        ap₂ add
          (dot-congr n (update a n (add (a n) g)) a t t
            (λ i h. (update_ne a n (add (a n) g) i (omega arith), refl)))
          (ap (λ z. mul z (t n)) (update_self a n (add (a n) g)) ∙ add-mul r (a n) g (t n))
        ∙ sym (r.add_assoc (dot n a t) (mul (a n) (t n)) (mul g (t n)))

    -- A sum that grows at one address.
    pub dot-write :
        (n : ℕ) (a t : ℕ → D) (i : ℕ) (g : D)
        → i < n
        → dot n (update a i (add (a i) g)) t ≡ add (dot n a t) (mul g (t i))
    dot-write zero a t i g h = absurd (omega arith)
    dot-write (suc n) a t i g h = elim (ℕ_discrete i n) [
      | yes e ↦
          subst
            (λ j. dot (suc n) (update a j (add (a j) g)) t ≡ add (dot (suc n) a t) (mul g (t j)))
            (sym e) (dot-write_last n a t g)
      | no ne ↦
          ap₂ add (dot-write n a t i g (omega arith))
            (ap (λ z. mul z (t n)) (update_ne a i (add (a i) g) n ne))
          ∙ add_right_comm r (dot n a t) (mul g (t i)) (mul (a n) (t n))
    ]

  -- The store after `handle`, when `evaluate` handles its effects.
  abbrev pub after : Prog D (Prop D) (Prop D) (Prop D) → Store D → Store D
  after p s = evaluate d (handle d p s)

  abbrev pub next_prop : Store D → D → Prop D
  next_prop s v = record { v = v; dv = s.next }

  abbrev pub backwards1 : Op1 → Prop D → ℕ → Store D → Store D
  backwards1 negate_op x dv s = write d s x.dv (add (s.cell x.dv) (neg (s.cell dv)))

  abbrev pub backwards2 : Op2 → Prop D → Prop D → ℕ → Store D → Store D
  backwards2 add_op x y dv s =
      let s' = write d s x.dv (add (s.cell x.dv) (s.cell dv)) in
      write d s' y.dv (add (s'.cell y.dv) (s'.cell dv))
  backwards2 multiply_op x y dv s =
      let s' = write d s x.dv (add (s.cell x.dv) (mul y.v (s.cell dv))) in
      write d s' y.dv (add (s'.cell y.dv) (mul x.v (s'.cell dv)))

  pub after-ret : (x : Prop D) (s : Store D) → after (ret x) s ≡ write d s x.dv one
  unfolding handle evaluate
  after-ret x s = refl

  pub after-ap0 :
      (c : D) (k : Prop D → Prog D (Prop D) (Prop D) (Prop D)) (s : Store D)
      → after (ap0 c k) s ≡ pop d (after (k (next_prop s c)) (push d s))
  unfolding handle evaluate
  after-ap0 c k s = evaluate-bind (handle d (k (next_prop s c)) (push d s)) _

  pub after-ap1 :
      (op : Op1) (x : Prop D) (k : Prop D → Prog D (Prop D) (Prop D) (Prop D)) (s : Store D)
      → after (ap1 op x k) s
        ≡ pop d (backwards1 op x s.next (after (k (next_prop s (apply1 d op x.v))) (push d s)))
  unfolding handle evaluate
  after-ap1 negate_op x k s =
      evaluate-bind (handle d (k (next_prop s (apply1 d negate_op x.v))) (push d s)) _

  pub after-ap2 :
      (op : Op2) (x y : Prop D) (k : Prop D → Prog D (Prop D) (Prop D) (Prop D)) (s : Store D)
      → after (ap2 op x y k) s
        ≡ pop d
            (backwards2 op x y s.next (after (k (next_prop s (apply2 d op x.v y.v))) (push d s)))
  unfolding handle evaluate
  after-ap2 add_op x y k s =
      evaluate-bind (handle d (k (next_prop s (apply2 d add_op x.v y.v))) (push d s)) _
  after-ap2 multiply_op x y k s =
      evaluate-bind (handle d (k (next_prop s (apply2 d multiply_op x.v y.v))) (push d s)) _
