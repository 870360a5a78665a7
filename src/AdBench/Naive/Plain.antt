-- ===== src/AdBench/Naive/Plain.antt =====
-- The coroutine `example` of naive.c beside that of no_alloc.c.
use libseff.Base.{ℕ, zero, suc, ◌≡◌, refl, ap, some}
use mathlib.Core.Path.{fun_ext}
use libseff.Base.Result.{Result}
use libseff.AdBench.{Double, negate_op, add_op, multiply_op, Prog, ret, ap0, ap1, ap2, Prop}
use libseff.AdBench
use libseff.AdBench.Naive.{Heap, Arg, given, star_x, payload, loop, example}
use libseff.AdBench.Naive.Blocks.{x_prop}

module _ {D : Type 0} (d : Double D) where
  -- The coroutine of no_alloc.c: `*x` is the first block of `prop_t`.
  abbrev pub the_arg : Arg D → Prop D
  the_arg (given a) = a
  the_arg star_x = x_prop d

  abbrev pub plain : Prog D (Arg D) (Prop D) (Prop D) → Prog D (Prop D) (Prop D) (Prop D)
  plain (ret r) = ret r
  plain (ap0 c k) = ap0 c λ r. plain (k r)
  plain (ap1 op x k) = ap1 op (the_arg x) λ r. plain (k r)
  plain (ap2 op x y k) = ap2 op (the_arg x) (the_arg y) λ r. plain (k r)

  plain-loop :
      (rounds : ℕ) (acc prev : Prop D)
      → plain (loop d rounds acc prev) ≡ AdBench.loop d rounds (x_prop d) acc prev
  unfolding loop AdBench.loop
  plain-loop zero acc prev = refl
  plain-loop (suc rounds) acc prev = ap (ap0 d.minus_one) (
      fun_ext λ c. ap (ap2 add_op (x_prop d) c) (
        fun_ext λ s. ap (ap1 negate_op s) (
          fun_ext λ n.
            ap (ap2 multiply_op prev n)
              (fun_ext λ p. ap (ap2 add_op acc p) (fun_ext λ a. plain-loop rounds a p)))))

  pub plain-example : (iters : ℕ) → plain (example d iters) ≡ AdBench.example d iters (x_prop d)
  unfolding example AdBench.example
  plain-example iters =
      ap (ap0 d.one) (fun_ext λ acc. ap (ap0 d.one) (fun_ext λ prev. plain-loop iters acc prev))

  pub payload-the_arg :
      {B : Type 0} (h : Heap D) (x : Arg D) (f : Prop D → Prog D D D (Result B))
      → h.prop 0 ≡ some (x_prop d)
      → payload d h x f ≡ f (the_arg x)
  payload-the_arg h (given a) f e = refl
  payload-the_arg h star_x f e = rw e refl
