-- ===== src/AdBench/Exact.antt =====
-- Numbers on which the operations are exact: a commutative ring. Those of a processor round; what is
-- said of exact numbers says what the algorithm computes, not how far rounding leads it away.
use libseff.Base.{◌≡◌, sym, ap, ◌∙◌}
use libseff.AdBench.{Double}

pub record IsRing {D : Type 0} (d : Double D) : Type 0 where
  pub add_comm : (a b : D) → d.add a b ≡ d.add b a
  pub add_assoc : (a b c : D) → d.add (d.add a b) c ≡ d.add a (d.add b c)
  pub add-nought : (a : D) → d.add a d.nought ≡ a
  pub add-neg : (a : D) → d.add a (d.neg a) ≡ d.nought
  pub mul_comm : (a b : D) → d.mul a b ≡ d.mul b a
  pub mul_assoc : (a b c : D) → d.mul (d.mul a b) c ≡ d.mul a (d.mul b c)
  pub mul-one : (a : D) → d.mul a d.one ≡ a
  pub mul-add : (a b c : D) → d.mul a (d.add b c) ≡ d.add (d.mul a b) (d.mul a c)
  pub minus_one_eq : d.minus_one ≡ d.neg d.one

module _ {D : Type 0} {d : Double D} (r : IsRing d) where
  open d use {nought, one, add, mul, neg}
  open r use {add_comm, add_assoc, add-nought, add-neg, mul_comm, mul_assoc, mul-one, mul-add}

  pub nought-add : (a : D) → add nought a ≡ a
  nought-add a = add_comm nought a ∙ add-nought a

  pub one-mul : (a : D) → mul one a ≡ a
  one-mul a = mul_comm one a ∙ mul-one a

  pub add-mul : (a b c : D) → mul (add a b) c ≡ add (mul a c) (mul b c)
  add-mul a b c = rw (mul_comm (add a b) c, mul_comm a c, mul_comm b c) (mul-add c a b)

  -- The last of three summands first.
  pub add_right_comm : (a b c : D) → add (add a b) c ≡ add (add a c) b
  add_right_comm a b c = add_assoc a b c ∙ ap (add a) (add_comm b c) ∙ sym (add_assoc a c b)

  -- A number that adds up with `a` to nought is its negative.
  pub neg_unique : (a b : D) → add a b ≡ nought → b ≡ neg a
  neg_unique a b e =
      sym (nought-add b)
      ∙ ap (λ z. add z b) (sym (add_comm (neg a) a ∙ add-neg a))
      ∙ add_assoc (neg a) a b
      ∙ ap (add (neg a)) e
      ∙ add-nought (neg a)

  cancel : (a : D) → add a a ≡ a → a ≡ nought
  cancel a e =
      sym (add-nought a)
      ∙ ap (add a) (sym (add-neg a))
      ∙ sym (add_assoc a a (neg a))
      ∙ ap (λ z. add z (neg a)) e
      ∙ add-neg a

  pub mul-nought : (a : D) → mul a nought ≡ nought
  mul-nought a =
      cancel (mul a nought) (sym (mul-add a nought nought) ∙ ap (mul a) (add-nought nought))

  pub nought-mul : (a : D) → mul nought a ≡ nought
  nought-mul a = mul_comm nought a ∙ mul-nought a

  pub mul-neg : (a b : D) → mul a (neg b) ≡ neg (mul a b)
  mul-neg a b =
      neg_unique (mul a b) (mul a (neg b))
        (sym (mul-add a b (neg b)) ∙ ap (mul a) (add-neg b) ∙ mul-nought a)

  pub neg-mul : (a b : D) → mul (neg a) b ≡ neg (mul a b)
  neg-mul a b = mul_comm (neg a) b ∙ mul-neg b a ∙ ap neg (mul_comm b a)
