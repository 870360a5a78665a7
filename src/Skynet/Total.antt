-- ===== src/Skynet/Total.antt =====
-- What the leaves yield, in their order, and its sum.
use native.Mathlib.Nat.{
  mul-suc, suc-mul, add-mul, mul_assoc, pow-suc, pow-succ', mul-le-mul, one-mul, zero-mul,
  mul-le-mul_left, pow-le-pow_right, one-le-pow,
}
use libseff.Base.{
  ℕ, zero, suc, ◌+◌, ◌-◌, ◌*◌, ◌^◌, ◌<◌, ◌≤◌, ◌≡◌, refl, sym, subst, ap, ap₂, ◌∙◌, arith, leb, ltb,
  Bool, true, false, if◌then◌else◌, some, List, [], ◌∷◌, ◌++◌,
}
use libseff.Base.Memory.{update, update_ne}
use libseff.Base.Result.{ok}
use libseff.Skynet.{Run, Sweep, sweep, sweeps, skynet, layers, add_up, bench}

-- The numbers from `a` on.
abbrev from : ℕ → ℕ → List ℕ
from a zero = []
from a (suc n) = a ∷ from (suc a) n

from-append : (a n m : ℕ) → from a n ++ from (a + n) m ≡ from a (n + m)
from-append a zero m =
    let first : a + 0 ≡ a = omega arith in let all : m ≡ 0 + m = omega arith in ap₂ from first all
from-append a (suc n) m =
    let start : a + suc n ≡ suc a + n = omega arith in
    let all : suc (n + m) ≡ suc n + m = omega arith in
    ap (λ l. a ∷ l) (ap (λ b. from (suc a) n ++ from b m) start ∙ from-append (suc a) n m)
    ∙ ap (from a) all

swept :
    (d : ℕ → Bool) {n m : ℕ} {l l' : List ℕ}
    → n ≡ m
    → l ≡ l'
    → ◌≡◌ {A = Run Sweep}
        (some (ok (record { is_finished = d; finished = n; yielded = l })))
        (some (ok (record { is_finished = d; finished = m; yielded = l' })))
swept d e e' = ap₂ (λ n l. some (ok (record { is_finished = d; finished = n; yielded = l }))) e e'

module _ (child : ℕ → Run (List ℕ)) (a w : ℕ)
    (yields : (i : ℕ) → i < 10 → child i ≡ some (ok (from (a + i * w) w))) where
  next-from :
      (i k : ℕ) → from (a + i * w) w ++ from (a + suc i * w) (k * w) ≡ from (a + i * w) (suc k * w)
  next-from i k =
      let here : a + suc i * w ≡ a + i * w + w = omega (arith, suc-mul i w) in
      let all : w + k * w ≡ suc k * w = omega (arith, suc-mul k w) in
      ap (λ b. from (a + i * w) w ++ from b (k * w)) here
      ∙ from-append (a + i * w) w (k * w)
      ∙ ap (from (a + i * w)) all

  -- A sweep over children that have not started finishes them all.
  sweep-yields :
      (k i : ℕ) (done : ℕ → Bool) (n : ℕ)
      → i + k ≡ 10
      → ((j : ℕ) → i ≤ j → done j ≡ false)
      → (d : ℕ → Bool) × (sweep child k i done n
          ≡ some (
              ok
                (record { is_finished = d; finished = n + k; yielded = from (a + i * w) (k * w) })))
  unfolding sweep
  sweep-yields zero i done n e fresh = (
    done,
    let nothing : 0 ≡ 0 * w = omega arith in
        swept done (omega arith) (ap (from (a + i * w)) nothing),
  )
  sweep-yields (suc k) i done n e fresh =
      let (d, eq) =
        sweep-yields k (suc i) (update done i true) (n + 1) (omega arith)
          (λ j le. update_ne done i true j (omega arith) ∙ fresh j (omega arith)) in
      (
        d,
        rw (fresh i (omega arith), yields i (omega arith), eq)
            (swept _ (omega arith) (next-from i k)),
      )

  sweeps-yields : (fuel : ℕ) → sweeps (suc fuel) child (λ i. false) 0 ≡ some (ok (from a (10 * w)))
  unfolding sweeps
  sweeps-yields fuel =
      let (d, eq) = sweep-yields 10 0 (λ i. false) 0 refl (λ j le. refl) in
      rw (sweeps, eq) (ap (λ b. some (ok (from b (10 * w)))) first)
    where
      first : a + 0 * w ≡ a
      first = omega arith

second_branch :
    (first second : Bool) (x y z r : Run (List ℕ))
    → first ≡ false
    → second ≡ true
    → y ≡ r
    → (if first then x else if second then y else z) ≡ r
second_branch first second x y z r e e' there = rw (e, e') there

-- What a node yields that stands `d` from the first of its layer, `r` layers above the last.
skynet-yields :
    (fuel r q d last_layer : ℕ)
    → r < fuel
    → 0 < q
    → d < 9 * q
    → last_layer ≡ q * 10 ^ r
    → last_layer ≤ 10 ^ 9
    → skynet fuel last_layer (q + d) ≡ some (ok (from (d * 10 ^ r) (10 ^ r)))
unfolding skynet
skynet-yields zero r q d last_layer lt pos small e few = absurd (omega arith)
skynet-yields (suc fuel) zero q d last_layer lt pos small e few =
    let leaf : leb last_layer (q + d) ≡ true = ground (arith, e) in
    let value : q + d - last_layer ≡ d * 1 = omega (arith, e) in
    rw leaf (ap (λ v. some (ok (v ∷ []))) value)
skynet-yields (suc fuel) (suc r) q d last_layer lt pos small e few =
    let w = 10 ^ r in
    let up : 10 ^ suc r ≡ 10 * w = pow-succ' 10 r in
    let far : q * 10 ≤ q * 10 ^ suc r = mul-le-mul_left q (omega (arith, up, one-le-pow r 10)) in
    let inner : leb last_layer (q + d) ≡ false = ground (arith, e, far) in
    let child = λ (i : ℕ). skynet fuel last_layer ((q + d) * 10 + i) in
    let a = d * 10 * w in
    let yields : (i : ℕ) → i < 10 → child i ≡ some (ok (from (a + i * w) w)) = λ i small_i.
      let at : (q + d) * 10 + i ≡ q * 10 + (d * 10 + i) = omega arith in
      ap (skynet fuel last_layer) at
      ∙ skynet-yields fuel r (q * 10) (d * 10 + i) last_layer (omega arith) (omega arith)
          (omega arith) (e ∙ ap (λ z. q * z) up ∙ sym (mul_assoc q 10 w)) few
      ∙ ap (λ b. some (ok (from b w))) (add-mul (d * 10) i w) in
    let in_range : ltb ((q + d) * 10 + 9) (2 ^ 63) ≡ true = ground (arith, e, far, few) in
    second_branch (leb last_layer (q + d)) (ltb ((q + d) * 10 + 9) (2 ^ 63)) _
      (sweeps 10 child (λ i. false) 0) _ _ inner in_range
      (sweeps-yields child a w yields 9
        ∙ ap₂ (λ b c. some (ok (from b c))) (mul_assoc d 10 w ∙ ap (λ z. d * z) (sym up)) (sym up))

layers_lem : (n : ℕ) → n ≤ 9 → layers n ≡ ok (10 ^ n)
layers_lem zero small = refl
layers_lem (suc n) small =
    let few : 10 ^ n ≤ 10 ^ 9 = pow-le-pow_right (omega arith) {i = n} {j = 9} (omega arith) in
    let in_range : ltb (10 ^ n * 10) (2 ^ 63) ≡ true = ground (arith, few) in
    rw (layers_lem n (omega arith), in_range) (ap ok (sym (pow-suc 10 n)))

-- The sum of the numbers below `n`.
abbrev sum_below : ℕ → ℕ
sum_below zero = 0
sum_below (suc n) = sum_below n + n

sum_below_lem : (n : ℕ) → 2 * sum_below n + n ≡ n * n
sum_below_lem zero = refl
sum_below_lem (suc n) = omega (arith, sum_below_lem n, suc-mul n (suc n), mul-suc n n)

sum_below_monotone : (m n : ℕ) → sum_below m ≤ sum_below (m + n)
sum_below_monotone m zero =
    let same : m ≡ m + 0 = omega arith in subst (λ z. sum_below m ≤ sum_below z) same (omega arith)
sum_below_monotone m (suc n) =
    let next : suc (m + n) ≡ m + suc n = omega arith in
    subst (λ z. sum_below m ≤ sum_below z) next (omega (arith, sum_below_monotone m n))

add_up-from :
    (n a : ℕ)
    → sum_below (a + n) < 2 ^ 63
    → add_up (sum_below a) (from a n) ≡ ok (sum_below (a + n))
add_up-from zero a small = let same : a ≡ a + 0 = omega arith in ap (λ z. ok (sum_below z)) same
add_up-from (suc n) a small =
    let next : suc a + n ≡ a + suc n = omega arith in
    let fits : sum_below (suc a + n) < 2 ^ 63 =
      subst (λ z. sum_below z < 2 ^ 63) (sym next) small in
    let one : ltb (sum_below a + a) (2 ^ 63) ≡ true =
      ground (arith, sum_below_monotone (suc a) n, fits) in
    rw one (add_up-from n (suc a) fits ∙ ap (λ z. ok (sum_below z)) next)

add_up_below : (n : ℕ) → sum_below n < 2 ^ 63 → add_up 0 (from 0 n) ≡ ok (sum_below n)
add_up_below n small =
    let same : 0 + n ≡ n = omega arith in
    add_up-from n 0 (subst (λ z. sum_below z < 2 ^ 63) (sym same) small)
    ∙ ap (λ z. ok (sum_below z)) same

-- For a depth from 1 to 10, bench ends, none of its int64_t (last_layer, the num of every coroutine with
-- that of its children, and the total) is out of range, and its total is the sum of the
-- numbers below the number of leaves, 10 to the depth less one: twice the total and the number of
-- leaves make its square.
pub bench-total :
    (depth : ℕ)
    → 0 < depth
    → depth ≤ 10
    → (total : ℕ) × (bench depth ≡ some (ok total))
      × (2 * total + 10 ^ (depth - 1) ≡ 10 ^ (depth - 1) * 10 ^ (depth - 1))
unfolding bench
bench-total depth pos small =
    let leaves = 10 ^ (depth - 1) in
    let few : leaves ≤ 10 ^ 9 =
      pow-le-pow_right (omega arith) {i = depth - 1} {j = 9} (omega arith) in
    let square : leaves * leaves ≤ 10 ^ 9 * 10 ^ 9 = mul-le-mul few few in
    let fits : sum_below leaves < 2 ^ 63 = omega (arith, square, sum_below_lem leaves) in
    let yields : skynet depth leaves 1 ≡ some (ok (from 0 leaves)) =
      skynet-yields depth (depth - 1) 1 0 leaves (omega arith) (omega arith) (omega arith)
        (sym (one-mul leaves)) few
      ∙ ap (λ a. some (ok (from a leaves))) (zero-mul leaves) in
    (
      sum_below leaves,
      rw (bench, layers_lem (depth - 1) (omega arith), yields) (ap some (add_up_below leaves fits)),
      sum_below_lem leaves,
    )
