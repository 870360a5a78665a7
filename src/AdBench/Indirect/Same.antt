-- ===== src/AdBench/Indirect/Same.antt =====
-- indirect_prop_t.c beside no_alloc.c: a coroutine on pointers, and the same one on what they point to.
use libseff.Base.{ℕ, zero, suc, ◌<◌, ◌≡◌, refl, sym, ap, ap₂, ◌∙◌, arith}
use libseff.Base.Memory.{update, update_self, update_ne}
use libseff.AdBench.{
  Double, Op1, negate_op, Op2, add_op, multiply_op, Prog, ret, ap0, ap1, ap2, ◌>>=◌, Prop, Store,
  loop, example, write, push, pop, start, apply1, apply2,
}
use libseff.AdBench
use libseff.AdBench.Sums.{after-ret, after, after-ap0, after-ap1, after-ap2, evaluate-bind}
use libseff.AdBench.Indirect.{
  Frames, handle, reverse, run, first, left, left-ap0, left-ap1, left-ap2,
}

module _ {D : Type 0} (d : Double D) where
  -- The same coroutine on pointers and on what they point to, where `f` is the memory of the first
  -- `n` addresses.
  abbrev at_next : ℕ → D → Prop D
  at_next n v = record { v = v; dv = n }

  data Mirrors : (ℕ → Prop D) → ℕ → Prog D ℕ ℕ ℕ → Prog D (Prop D) (Prop D) (Prop D) → Type 0 where
    mirrors_ret :
        {f : ℕ → Prop D} {n a : ℕ} {x : Prop D} → a < n → f a ≡ x → Mirrors f n (ret a) (ret x)
    mirrors_ap0 :
        {f : ℕ → Prop D} {n : ℕ} {c : D} {k : ℕ → Prog D ℕ ℕ ℕ}
        {k' : Prop D → Prog D (Prop D) (Prop D) (Prop D)}
        → ((v : D) → Mirrors (update f n (at_next n v)) (suc n) (k n) (k' (at_next n v)))
        → Mirrors f n (ap0 c k) (ap0 c k')
    mirrors_ap1 :
        {f : ℕ → Prop D} {n : ℕ} {op : Op1} {a : ℕ} {x : Prop D} {k : ℕ → Prog D ℕ ℕ ℕ}
        {k' : Prop D → Prog D (Prop D) (Prop D) (Prop D)}
        → a < n
        → f a ≡ x
        → ((v : D) → Mirrors (update f n (at_next n v)) (suc n) (k n) (k' (at_next n v)))
        → Mirrors f n (ap1 op a k) (ap1 op x k')
    mirrors_ap2 :
        {f : ℕ → Prop D} {n : ℕ} {op : Op2} {a b : ℕ} {x y : Prop D} {k : ℕ → Prog D ℕ ℕ ℕ}
        {k' : Prop D → Prog D (Prop D) (Prop D) (Prop D)}
        → a < n
        → b < n
        → f a ≡ x
        → f b ≡ y
        → ((v : D) → Mirrors (update f n (at_next n v)) (suc n) (k n) (k' (at_next n v)))
        → Mirrors f n (ap2 op a b k) (ap2 op x y k')

  abbrev store_at : (ℕ → D) → ℕ → Store D
  store_at c n = record { cell = c; next = n }

  abbrev frames_at : (ℕ → D) → ℕ → (ℕ → Prop D) → Frames D
  frames_at c n f = record { store = store_at c n; prop = f }

  -- A frame that is left keeps what it was given.
  abbrev Leaves : (ℕ → D) → ℕ → (ℕ → Prop D) → Prog D (Prop D) (Prop D) (Prop D) → Frames D → Type 0
  Leaves c n f q fr = (fr.store ≡ after d q (store_at c n)) × ((i : ℕ) → i < n → fr.prop i ≡ f i)

  below :
      (n : ℕ) (f g : ℕ → Prop D) (x : Prop D)
      → ((i : ℕ) → i < suc n → g i ≡ update f n x i)
      → (i : ℕ) → i < n
      → g i ≡ f i
  below n f g x h i lt = h i (omega arith) ∙ update_ne f n x i (omega arith)

  left-Leaves :
      (c : ℕ → D) (n : ℕ) (f : ℕ → Prop D) (p : Prog D ℕ ℕ ℕ)
      (q : Prog D (Prop D) (Prop D) (Prop D))
      → Mirrors f n p q
      → Leaves c n f q (left d p (frames_at c n f))
  unfolding handle AdBench.evaluate
  left-Leaves c n f p q (mirrors_ret {x = x} lt e) = (
    ap (λ (z : Prop D). write d (store_at c n) z.dv d.one) e ∙ sym (after-ret d x (store_at c n)),
    λ i h. refl,
  )
  left-Leaves c n f p q (mirrors_ap0 {c = v} {k = k} {k' = k'} m) =
      let ih =
        left-Leaves (update c n d.nought) (suc n) (update f n (at_next n v)) (k n)
          (k' (at_next n v)) (m v) in
      (
        ap (λ (z : Frames D). z.store) (left-ap0 d v k (frames_at c n f))
            ∙ ap (pop d) ih.0
            ∙ sym (after-ap0 d v k' (store_at c n)),
        λ i h.
            ap (λ (z : Frames D). z.prop i) (left-ap0 d v k (frames_at c n f))
            ∙ below n f _ (at_next n v) ih.1 i h,
      )
  left-Leaves c n f p q (mirrors_ap1 {op = op} {a = a} {x = x} {k = k} {k' = k'} lt e m) =
      let v = apply1 d op (f a).v in
      let ih =
        left-Leaves (update c n d.nought) (suc n) (update f n (at_next n v)) (k n)
          (k' (at_next n v)) (m v) in
      (
        ap (λ (z : Frames D). z.store) (left-ap1 d op a k (frames_at c n f))
            ∙ rw (below n f _ (at_next n v) ih.1 a lt, ih.0, e)
                (sym (after-ap1 d op x k' (store_at c n))),
        λ i h.
            ap (λ (z : Frames D). z.prop i) (left-ap1 d op a k (frames_at c n f))
            ∙ below n f _ (at_next n v) ih.1 i h,
      )
  left-Leaves c n f p q
        (mirrors_ap2 {op = op} {a = a} {b = b} {x = x} {y = y} {k = k} {k' = k'} lt lt' e e' m) =
      let v = apply2 d op (f a).v (f b).v in
      let ih =
        left-Leaves (update c n d.nought) (suc n) (update f n (at_next n v)) (k n)
          (k' (at_next n v)) (m v) in
      (
        ap (λ (z : Frames D). z.store) (left-ap2 d op a b k (frames_at c n f))
            ∙ rw
                (
                  below n f _ (at_next n v) ih.1 a lt,
                  below n f _ (at_next n v) ih.1 b lt',
                  ih.0,
                  e,
                  e',
                )
                (sym (after-ap2 d op x y k' (store_at c n))),
        λ i h.
            ap (λ (z : Frames D). z.prop i) (left-ap2 d op a b k (frames_at c n f))
            ∙ below n f _ (at_next n v) ih.1 i h,
      )

  -- A pointer among the first `n`.
  record Points (f : ℕ → Prop D) (n a : ℕ) (x : Prop D) : Type 0 where
    given : a < n
    pointee : f a ≡ x

  keep :
      (f : ℕ → Prop D) (n : ℕ) (w : Prop D) (a : ℕ) (x : Prop D)
      → Points f n a x
      → Points (update f n w) (suc n) a x
  keep f n w a x h = record {
    given = omega (arith, h.given);
    pointee = update_ne f n w a (omega (arith, h.given)) ∙ h.pointee;
  }

  new : (f : ℕ → Prop D) (n : ℕ) (w : Prop D) → Points (update f n w) (suc n) n w
  new f n w = record { given = omega arith; pointee = update_self f n w }

  loop-Mirrors :
      (rounds : ℕ) (f : ℕ → Prop D) (n a b c : ℕ) (x acc prev : Prop D)
      → Points f n a x
      → Points f n b acc
      → Points f n c prev
      → Mirrors f n (loop d rounds a b c) (loop d rounds x acc prev)
  unfolding loop
  loop-Mirrors zero f n a b c x acc prev px pa pp = mirrors_ret pa.given pa.pointee
  loop-Mirrors (suc rounds) f n a b c x acc prev px pa pp = mirrors_ap0 λ v.
      let px1 = keep f n (at_next n v) a x px in
      let pa1 = keep f n (at_next n v) b acc pa in
      let pp1 = keep f n (at_next n v) c prev pp in
      let k = new f n (at_next n v) in
      mirrors_ap2 px1.given k.given px1.pointee k.pointee λ v'.
        let px2 = keep _ (suc n) (at_next (suc n) v') a x px1 in
        let pa2 = keep _ (suc n) (at_next (suc n) v') b acc pa1 in
        let pp2 = keep _ (suc n) (at_next (suc n) v') c prev pp1 in
        let s = new (update f n (at_next n v)) (suc n) (at_next (suc n) v') in
        mirrors_ap1 s.given s.pointee λ v''.
          let m2 = suc (suc n) in
          let px3 = keep _ m2 (at_next m2 v'') a x px2 in
          let pa3 = keep _ m2 (at_next m2 v'') b acc pa2 in
          let pp3 = keep _ m2 (at_next m2 v'') c prev pp2 in
          let m =
            new (update (update f n (at_next n v)) (suc n) (at_next (suc n) v')) m2
              (at_next m2 v'') in
          mirrors_ap2 pp3.given m.given pp3.pointee m.pointee λ w.
            let m3 = suc (suc (suc n)) in
            let px4 = keep _ m3 (at_next m3 w) a x px3 in
            let pa4 = keep _ m3 (at_next m3 w) b acc pa3 in
            let q = new _ m3 (at_next m3 w) in
            mirrors_ap2 pa4.given q.given pa4.pointee q.pointee λ w'.
              let m4 = suc (suc (suc (suc n))) in
              loop-Mirrors rounds _ (suc m4) a m4 m3 x (at_next m4 w') (at_next m3 w)
                (keep _ m4 (at_next m4 w') a x px4) (new _ m4 (at_next m4 w'))
                (keep _ m4 (at_next m4 w') m3 _ q)

  example-Mirrors :
      (iters : ℕ) (f : ℕ → Prop D) (n a : ℕ) (x : Prop D)
      → Points f n a x
      → Mirrors f n (example d iters a) (example d iters x)
  unfolding example
  example-Mirrors iters f n a x px = mirrors_ap0 λ v. mirrors_ap0 λ v'.
      loop-Mirrors iters _ (suc (suc n)) a n (suc n) x (at_next n v) (at_next (suc n) v')
        (keep _ (suc n) (at_next (suc n) v') a x (keep f n (at_next n v) a x px))
        (keep _ (suc n) (at_next (suc n) v') n _ (new f n (at_next n v)))
        (new _ (suc n) (at_next (suc n) v'))

  -- indirect_prop_t.c prints what no_alloc.c prints, for any number of rounds and whatever the
  -- operations on doubles do.
  pub run-eq-no_alloc : (iters : ℕ) → run d iters ≡ AdBench.run d iters
  unfolding run reverse AdBench.run AdBench.reverse
  run-eq-no_alloc iters =
      evaluate-bind d (handle d (example d iters 0) (first d)) _
      ∙ ap₂ (λ (s : Store D) (w : Prop D). s.cell w.dv) leaves.0 (leaves.1 0 (omega arith))
      ∙ sym (evaluate-bind d (AdBench.handle d (example d iters x) (start d)) _)
    where
      x : Prop D
      x = record { v = d.half; dv = 0 }

      leaves :
          Leaves
            (λ a. d.nought)
            1
            (λ a. x)
            (example d iters x)
            (left d (example d iters 0) (first d))
      leaves =
          left-Leaves (λ a. d.nought) 1 (λ a. x) (example d iters 0) (example d iters x)
            (example-Mirrors iters (λ a. x) 1 0 x (record { given = omega arith; pointee = refl }))
