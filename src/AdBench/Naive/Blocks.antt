-- ===== src/AdBench/Naive/Blocks.antt =====
-- Reads, writes and frees of blocks in use.
use libseff.Base.{ℕ, suc, ◌<◌, ◌≤◌, ◌≡◌, refl, ap, ◌∙◌, arith, none, some, ℕ_discrete}
use libseff.Base.Memory.{update}
use libseff.Base.Result.{Result, ok}
use libseff.AdBench.{
  Double, Op1, negate_op, Op2, add_op, multiply_op, Prog, ◌>>=◌, Prop, Store, evaluate,
}
use libseff.AdBench.Sums.{backwards1, backwards2, evaluate-bind}
use libseff.AdBench.Naive.{Heap, written, store, freed, free, enter, add_to, on, back1, back2}

module _ {D : Type 0} (d : Double D) where
  -- The contents of `x`.
  abbrev pub x_prop : Prop D
  x_prop = record { v = d.half; dv = 0 }

  -- The blocks in use are those below `n`, with the numbers `c`.
  pub record Agrees (h : Heap D) (c : ℕ → D) (n : ℕ) : Type 0 where
    pub live : (i : ℕ) → i < n → h.double i ≡ some (c i)
    pub live_prop : (i : ℕ) → i < n → (x : Prop D) × (h.prop i ≡ some x)
    pub x_block : 0 < n → h.prop 0 ≡ some x_prop
    pub dead : (i : ℕ) → n ≤ i → h.double i ≡ none
    pub dead_prop : (i : ℕ) → n ≤ i → h.prop i ≡ none

  pub enter-Agrees :
      (h : Heap D) (c : ℕ → D) (v : D)
      → 0 < h.next
      → Agrees h c h.next
      → Agrees (enter d h v) (update c h.next d.nought) (suc h.next)
  enter-Agrees h c v pos a = record {
    live = λ i lt. ground (arith, a.live i);
    live_prop = λ i lt. elim (ℕ_discrete h.next i) [
      | yes e ↦ (record { v = v; dv = h.next }, ground arith)
      | no ne ↦ ((a.live_prop i (omega arith)).0, ground (arith, (a.live_prop i (omega arith)).1))
    ];
    x_block = λ _. ground (arith, pos, a.x_block pos);
    dead = λ i le. ground (arith, a.dead i);
    dead_prop = λ i le. ground (arith, a.dead_prop i);
  }

  pub store-written :
      (h : Heap D) (c : ℕ → D) (n a : ℕ) (w : D)
      → Agrees h c n
      → a < n
      → (store d h a w ≡ ok (written d h a w)) × Agrees (written d h a w) (update c a w) n
  store-written h c n a w g lt = (
    rw (g.live a lt, store),
    record {
      live = λ i h'. ground (arith, g.live i);
      live_prop = g.live_prop;
      x_block = g.x_block;
      dead = λ i le. ground (arith, g.dead i);
      dead_prop = g.dead_prop;
    },
  )

  pub free-freed :
      (h : Heap D) (c : ℕ → D) (n : ℕ)
      → Agrees h c (suc n)
      → (free d h n n ≡ ok (freed d h n n)) × Agrees (freed d h n n) c n
  free-freed h c n g = (
    rw (g.live n (omega arith), (g.live_prop n (omega arith)).1, free),
    record {
      live = λ i lt. ground (arith, g.live i);
      live_prop = λ i lt.
          ((g.live_prop i (omega arith)).0, ground (arith, (g.live_prop i (omega arith)).1));
      x_block = λ pos. ground (arith, pos, g.x_block (omega arith));
      dead = λ i le. ground (arith, g.dead i);
      dead_prop = λ i le. ground (arith, g.dead_prop i);
    },
  )

  abbrev pub eval : {A : Type 0} → Prog D D D A → A
  eval p = evaluate d p

  add_to-written :
      (h : Heap D) (c : ℕ → D) (n a : ℕ) (g : D)
      → Agrees h c n
      → a < n
      → eval (add_to d h a g) ≡ ok (written d h a (d.add (c a) g))
  unfolding evaluate
  add_to-written h c n a g v lt =
      rw (v.live a lt, add_to) ((store-written h c n a (d.add (c a) g) v lt).0)

  pub back1-Agrees :
      (op : Op1) (x : Prop D) (h : Heap D) (s : Store D) (n : ℕ)
      → Agrees h s.cell (suc n)
      → x.dv < n
      → (h' : Heap D) × (eval (back1 d op x n h) ≡ ok h')
        × Agrees h' (backwards1 d op x n s).cell (suc n)
        × (h'.result ≡ h.result)
  unfolding evaluate
  back1-Agrees negate_op x h s n v lt =
      let w = d.add (s.cell x.dv) (d.neg (s.cell n)) in
      let (stored, v') = store-written h s.cell (suc n) x.dv w v (omega arith) in
      (
        written d h x.dv w,
        rw (v.live n (omega arith), back1, v.live x.dv (omega arith)) stored,
        v',
        refl,
      )

  -- The first of two writes, and on.
  add_to-bind :
      (h : Heap D) (c : ℕ → D) (n a : ℕ) (g : D) (f : Heap D → Prog D D D (Result (Heap D)))
      → Agrees h c n
      → a < n
      → eval (add_to d h a g >>= on d f) ≡ eval (f (written d h a (d.add (c a) g)))
  add_to-bind h c n a g f v lt =
      evaluate-bind d (add_to d h a g) (on d f)
      ∙ ap (λ out. eval (on d f out)) (add_to-written h c n a g v lt)

  pub back2-Agrees :
      (op : Op2) (x y : Prop D) (h : Heap D) (s : Store D) (n : ℕ)
      → Agrees h s.cell (suc n)
      → x.dv < n
      → y.dv < n
      → (h' : Heap D) × (eval (back2 d op x y n h) ≡ ok h')
        × Agrees h' (backwards2 d op x y n s).cell (suc n)
        × (h'.result ≡ h.result)
  unfolding evaluate
  back2-Agrees add_op x y h s n v lt lt' =
      let w = d.add (s.cell x.dv) (s.cell n) in
      let (_, v') = store-written h s.cell (suc n) x.dv w v (omega arith) in
      let h' = written d h x.dv w in
      let c' = update s.cell x.dv w in
      let w' = d.add (c' y.dv) (c' n) in
      let (_, v'') = store-written h' c' (suc n) y.dv w' v' (omega arith) in
      (
        written d h' y.dv w',
        rw (v.live n (omega arith), back2)
            (add_to-bind h s.cell (suc n) x.dv (s.cell n) _ v (omega arith)
              ∙ rw (v'.live n (omega arith))
                  (add_to-written h' c' (suc n) y.dv (c' n) v' (omega arith))),
        v'',
        refl,
      )
  back2-Agrees multiply_op x y h s n v lt lt' =
      let g = d.mul y.v (s.cell n) in
      let w = d.add (s.cell x.dv) g in
      let (_, v') = store-written h s.cell (suc n) x.dv w v (omega arith) in
      let h' = written d h x.dv w in
      let c' = update s.cell x.dv w in
      let w' = d.add (c' y.dv) (d.mul x.v (c' n)) in
      let (_, v'') = store-written h' c' (suc n) y.dv w' v' (omega arith) in
      (
        written d h' y.dv w',
        rw (v.live n (omega arith), back2)
            (add_to-bind h s.cell (suc n) x.dv g _ v (omega arith)
              ∙ rw (v'.live n (omega arith))
                  (add_to-written h' c' (suc n) y.dv (d.mul x.v (c' n)) v' (omega arith))),
        v'',
        refl,
      )
