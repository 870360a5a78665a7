-- ===== src/AdBench/Naive/Same.antt =====
-- naive.c beside no_alloc.c.
use libseff.Base.{ℕ, suc, ◌<◌, ◌≡◌, refl, sym, subst, ap, ◌∙◌, arith, none, some}
use libseff.Base.Memory.{update, update_self}
use libseff.Base.Result.{Result, ok}
use libseff.AdBench.{
  Double, Op1, negate_op, Op2, add_op, multiply_op, Prog, ret, ap0, ap1, ap2, ◌>>=◌, Prop, Store,
  push, pop, start, apply1, apply2,
}
use libseff.AdBench
use libseff.AdBench.Sums.{
  Scoped, after-ret, after, backwards1, backwards2, after-ap0, after-ap1, after-ap2, evaluate-bind,
}
use libseff.AdBench.Forward.{example-Scoped}
use libseff.AdBench.Naive.{
  on, Heap, Arg, written, freed, free, enter, load, load_prop, back1, back2, example, handle, first,
  reverse, evaluate, run,
}
use libseff.AdBench.Naive.Plain.{the_arg, plain, plain-example, payload-the_arg}
use libseff.AdBench.Naive.Blocks.{
  x_prop, Agrees, enter-Agrees, store-written, free-freed, eval, back1-Agrees, back2-Agrees,
}

module _ {D : Type 0} (d : Double D) where
  abbrev prop_at : ℕ → D → Prop D
  prop_at n v = record { v = v; dv = n }

  abbrev store_at : (ℕ → D) → ℕ → Store D
  store_at c n = record { cell = c; next = n }

  -- A response that was stored is read.
  entered :
      {B : Type 0} (h : Heap D) (v : D) (f : Prop D → Prog D D D (Result B))
      → load_prop d ((enter d h v).prop h.next) f ≡ f (prop_at h.next v)
  entered h v f = rw (update_self h.prop h.next (some (prop_at h.next v))) refl

  -- `handle` ends with no fault; the blocks in use are those that it was given, with the numbers of
  -- no_alloc.c, and `result`.
  abbrev Ends : Prog D (Arg D) (Prop D) (Prop D) → Heap D → (ℕ → D) → Type 0
  Ends p h c =
      (h' : Heap D) × (eval d (handle d p h) ≡ ok h')
      × Agrees d h' (after d (plain d p) (store_at c h.next)).cell h.next
      × (r : Prop D) × (h'.result ≡ some r)

  -- The rest of a call of `handle`, which frees its blocks.
  frees :
      (p : Prog D (Arg D) (Prop D) (Prop D)) (h h' : Heap D) (c : ℕ → D) (u : Store D)
      → Agrees d h' u.cell (suc h.next)
      → after d (plain d p) (store_at c h.next) ≡ pop d u
      → eval d (handle d p h) ≡ free d h' h.next h.next
      → (r : Prop D) × (h'.result ≡ some r)
      → Ends p h c
  frees p h h' c u v e run_eq res =
      let (freed_eq, v') = free-freed d h' u.cell h.next v in
      (
        freed d h' h.next h.next,
        run_eq ∙ freed_eq,
        subst (λ (z : Store D). Agrees d (freed d h' h.next h.next) z.cell h.next) (sym e) v',
        res.0,
        res.1,
      )

  -- The parts of one call of `handle`, one after the other.
  -- After the payload of an operation: the rest of the coroutine, and the way back.
  then-back :
      (k : Prop D → Prog D (Arg D) (Prop D) (Prop D)) (h : Heap D) (v : D)
      (back : Heap D → Prog D D D (Result (Heap D))) (h' h'' : Heap D)
      → eval d (handle d (k (prop_at h.next v)) (enter d h v)) ≡ ok h'
      → eval d (back h') ≡ ok h''
      → eval d (
          load_prop d ((enter d h v).prop h.next) (λ r. handle d (k r) (enter d h v)) >>= λ out.
          (on d back out >>= λ out'. on d (λ u. ret (free d u h.next h.next)) out'))
        ≡ free d h'' h.next h.next
  unfolding AdBench.evaluate
  then-back k h v back h' h'' e e' =
      evaluate-bind d (load_prop d ((enter d h v).prop h.next) (λ r. handle d (k r) (enter d h v)))
        _
      ∙ rw (entered h v (λ r. handle d (k r) (enter d h v)), e)
          (evaluate-bind d (back h') _ ∙ rw e' refl)

  then-ap1 :
      (op : Op1) (x : Arg D) (k : Prop D → Prog D (Arg D) (Prop D) (Prop D)) (h h' h'' : Heap D)
      → h.prop 0 ≡ some (x_prop d)
      → eval d (
          handle d
            (k (prop_at h.next (apply1 d op (the_arg d x).v)))
            (enter d h (apply1 d op (the_arg d x).v)))
        ≡ ok h'
      → eval d (back1 d op (the_arg d x) h.next h') ≡ ok h''
      → eval d (handle d (ap1 op x k) h) ≡ free d h'' h.next h.next
  unfolding handle AdBench.evaluate
  then-ap1 negate_op x k h h' h'' x_block e e' =
      ap (eval d) (payload-the_arg d h x _ x_block)
      ∙ then-back k h (d.neg (the_arg d x).v) (back1 d negate_op (the_arg d x) h.next) h' h'' e e'

  then-ap2 :
      (op : Op2) (x y : Arg D) (k : Prop D → Prog D (Arg D) (Prop D) (Prop D)) (h h' h'' : Heap D)
      → h.prop 0 ≡ some (x_prop d)
      → eval d (
          handle d
            (k (prop_at h.next (apply2 d op (the_arg d x).v (the_arg d y).v)))
            (enter d h (apply2 d op (the_arg d x).v (the_arg d y).v)))
        ≡ ok h'
      → eval d (back2 d op (the_arg d x) (the_arg d y) h.next h') ≡ ok h''
      → eval d (handle d (ap2 op x y k) h) ≡ free d h'' h.next h.next
  unfolding handle AdBench.evaluate
  then-ap2 add_op x y k h h' h'' x_block e e' =
      ap (eval d) (payload-the_arg d h x _ x_block ∙ payload-the_arg d h y _ x_block)
      ∙ then-back k h (d.add (the_arg d x).v (the_arg d y).v)
          (back2 d add_op (the_arg d x) (the_arg d y) h.next) h' h'' e e'
  then-ap2 multiply_op x y k h h' h'' x_block e e' =
      ap (eval d) (payload-the_arg d h x _ x_block ∙ payload-the_arg d h y _ x_block)
      ∙ then-back k h (d.mul (the_arg d x).v (the_arg d y).v)
          (back2 d multiply_op (the_arg d x) (the_arg d y) h.next) h' h'' e e'

  handle-Ends :
      (p : Prog D (Arg D) (Prop D) (Prop D)) (h : Heap D) (c : ℕ → D)
      → 0 < h.next
      → Scoped d (plain d p) h.next
      → Agrees d h c h.next
      → Ends p h c
  unfolding handle AdBench.evaluate
  handle-Ends (ret x) h c pos scoped v =
      let h0 = record h { result = some x } in
      let v0 : Agrees d h0 c h.next = record {
        live = v.live;
        live_prop = v.live_prop;
        x_block = v.x_block;
        dead = v.dead;
        dead_prop = v.dead_prop;
      } in
      let (stored, v') = store-written d h0 c h.next x.dv d.one v0 scoped in
      (
        _,
        stored,
        subst (λ (z : Store D). Agrees d (written d h0 x.dv d.one) z.cell h.next)
            (sym (after-ret d x (store_at c h.next))) v',
        x,
        refl,
      )
  handle-Ends (ap0 w k) h c pos scoped v =
      let (h', eq, v', r, stays) =
        handle-Ends (k (prop_at h.next w)) (enter d h w) (update c h.next d.nought) (omega arith)
          (scoped w) (enter-Agrees d h c w pos v) in
      frees (ap0 w k) h h' c _ v' (after-ap0 d w (λ r. plain d (k r)) (store_at c h.next))
        (evaluate-bind d
            (load_prop d ((enter d h w).prop h.next) (λ r. handle d (k r) (enter d h w))) _
          ∙ rw (entered h w (λ r. handle d (k r) (enter d h w)), eq) refl)
        (r, stays)
  handle-Ends (ap1 op arg k) h c pos scoped v =
      let x = the_arg d arg in
      let w = apply1 d op x.v in
      let (h', eq, v', r, stays) =
        handle-Ends (k (prop_at h.next w)) (enter d h w) (update c h.next d.nought) (omega arith)
          (scoped.1 w) (enter-Agrees d h c w pos v) in
      let u = after d (plain d (k (prop_at h.next w))) (push d (store_at c h.next)) in
      let (h'', eq', v'', same) = back1-Agrees d op x h' u h.next v' scoped.0 in
      frees (ap1 op arg k) h h'' c (backwards1 d op x h.next u) v''
        (after-ap1 d op x (λ r. plain d (k r)) (store_at c h.next))
        (then-ap1 op arg k h h' h'' (v.x_block pos) eq eq') (r, same ∙ stays)
  handle-Ends (ap2 op arg1 arg2 k) h c pos scoped v =
      let x = the_arg d arg1 in
      let y = the_arg d arg2 in
      let w = apply2 d op x.v y.v in
      let (h', eq, v', r, stays) =
        handle-Ends (k (prop_at h.next w)) (enter d h w) (update c h.next d.nought) (omega arith)
          (scoped.2 w) (enter-Agrees d h c w pos v) in
      let u = after d (plain d (k (prop_at h.next w))) (push d (store_at c h.next)) in
      let (h'', eq', v'', same) = back2-Agrees d op x y h' u h.next v' scoped.0 scoped.1 in
      frees (ap2 op arg1 arg2 k) h h'' c (backwards2 d op x y h.next u) v''
        (after-ap2 d op x y (λ r. plain d (k r)) (store_at c h.next))
        (then-ap2 op arg1 arg2 k h h' h'' (v.x_block pos) eq eq') (r, same ∙ stays)

  -- While its block is in use, `evaluate` is that of no_alloc.c, and frees the block.
  evaluate-frees :
      {B : Type 0} (p : Prog D D D B) (w : D)
      → evaluate d p (some w) ≡ ok (AdBench.evaluate d p, none)
  unfolding evaluate AdBench.evaluate
  evaluate-frees (ret b) w = refl
  evaluate-frees (ap0 v k) w = evaluate-frees (k v) v
  evaluate-frees (ap1 op x k) w = evaluate-frees (k (apply1 d op x)) (apply1 d op x)
  evaluate-frees (ap2 op x y k) w = evaluate-frees (k (apply2 d op x y)) (apply2 d op x y)

  -- What `reverse` prints and leaves, once its effects are handled.
  reverse-frees :
      (iters : ℕ)
      → (h : Heap D) × (eval d (reverse d iters) ≡ ok (AdBench.run d iters, h))
        × ((a : ℕ) → (h.double a ≡ none) × (h.prop a ≡ none))
        × (r : Prop D) × (h.result ≡ some r)
  unfolding reverse AdBench.run AdBench.reverse
  reverse-frees iters =
      let v0 : Agrees d (first d) (λ a. d.nought) 1 = record {
        live = λ i lt. ground arith;
        live_prop = λ i lt. (prop_at 0 d.half, ground arith);
        x_block = λ _. refl;
        dead = λ i le. ground arith;
        dead_prop = λ i le. ground arith;
      } in
      let scoped : Scoped d (plain d (example d iters)) 1 =
        subst (λ p. Scoped d p 1) (sym (plain-example d iters))
          (example-Scoped d iters 1 (x_prop d) (omega arith)) in
      let (h, eq, v, r, stays) =
        handle-Ends (example d iters) (first d) (λ a. d.nought) (omega arith) scoped v0 in
      let (freed_eq, v') = free-freed d h _ 0 v in
      (
        freed d h 0 0,
        evaluate-bind d (handle d (example d iters) (first d)) _
            ∙ rw eq (
                rw (v.x_block (omega arith), v.live 0 (omega arith), freed_eq, load)
                  (ap
                      (λ (p : Prog D (Prop D) (Prop D) (Prop D)).
                        ok ((after d p (start d)).cell 0, freed d h 0 0))
                      (plain-example d iters)
                    ∙ ap (λ w. ok (w, freed d h 0 0))
                        (sym (
                          evaluate-bind d
                            (AdBench.handle d (AdBench.example d iters (prop_at 0 d.half))
                              (start d))
                            (λ s. ret (s.cell 0)))))),
        λ a. (v'.dead a (omega arith), v'.dead_prop a (omega arith)),
        r,
        stays,
      )

  -- For any number of rounds, and whatever the operations on doubles do, naive.c reads, writes and frees
  -- only blocks in use, prints what no_alloc.c prints, and at its end no derivative, no response, no `x`
  -- and not the `value` of `evaluate` is left in use; but the block of the global `result` is.
  pub run-frees :
      (iters : ℕ)
      → (h : Heap D) × (run d iters ≡ ok (AdBench.run d iters, h, none))
        × ((a : ℕ) → (h.double a ≡ none) × (h.prop a ≡ none))
        × (r : Prop D) × (h.result ≡ some r)
  unfolding run
  run-frees iters =
      let (h, eq, none_left, r, stays) = reverse-frees iters in
      (h, rw (run, evaluate-frees (reverse d iters) d.nought, eq) refl, none_left, r, stays)
