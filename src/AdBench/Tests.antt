-- ===== src/AdBench/Tests.antt =====
-- The programs of ad_bench on numbers modulo 2, and on two rounds of the loop.
use libseff.Base.{ℕ, ◌≡◌, refl, Bool, true, false, not, none, some}
use libseff.AdBench.{Double, Prop, example, start}
use libseff.AdBench
use libseff.AdBench.Exact.{IsRing}
use libseff.AdBench.Forward.{forwards, run-derivative}
use libseff.AdBench.Cast.{Cast}
use libseff.AdBench.Naive.{Heap}
use libseff.AdBench.Naive.Same.{run-frees}
use libseff.Base.Result.{ok}

abbrev add2 : Bool → Bool → Bool
add2 false b = b
add2 true b = not b

abbrev mul2 : Bool → Bool → Bool
mul2 false b = false
mul2 true b = b

abbrev modulo2 : Double Bool
modulo2 = record {
  nought = false;
  one = true;
  minus_one = true;
  half = true;
  add = add2;
  mul = mul2;
  neg = λ a. a;
}

add2_comm : (a b : Bool) → add2 a b ≡ add2 b a
add2_comm false false = refl
add2_comm false true = refl
add2_comm true false = refl
add2_comm true true = refl

add2_assoc : (a b c : Bool) → add2 (add2 a b) c ≡ add2 a (add2 b c)
add2_assoc false false false = refl
add2_assoc false false true = refl
add2_assoc false true false = refl
add2_assoc false true true = refl
add2_assoc true false false = refl
add2_assoc true false true = refl
add2_assoc true true false = refl
add2_assoc true true true = refl

add2-false : (a : Bool) → add2 a false ≡ a
add2-false false = refl
add2-false true = refl

add2_self : (a : Bool) → add2 a a ≡ false
add2_self false = refl
add2_self true = refl

mul2_comm : (a b : Bool) → mul2 a b ≡ mul2 b a
mul2_comm false false = refl
mul2_comm false true = refl
mul2_comm true false = refl
mul2_comm true true = refl

mul2_assoc : (a b c : Bool) → mul2 (mul2 a b) c ≡ mul2 a (mul2 b c)
mul2_assoc false b c = refl
mul2_assoc true b c = refl

mul2-true : (a : Bool) → mul2 a true ≡ a
mul2-true false = refl
mul2-true true = refl

mul2-add2 : (a b c : Bool) → mul2 a (add2 b c) ≡ add2 (mul2 a b) (mul2 a c)
mul2-add2 false b c = refl
mul2-add2 true b c = refl

modulo2-IsRing : IsRing modulo2
modulo2-IsRing = record {
  add_comm = add2_comm;
  add_assoc = add2_assoc;
  add-nought = add2-false;
  add-neg = add2_self;
  mul_comm = mul2_comm;
  mul_assoc = mul2_assoc;
  mul-one = mul2-true;
  mul-add = mul2-add2;
  minus_one_eq = refl;
}

not-not : (a : Bool) → not (not a) ≡ a
not-not false = refl
not-not true = refl

abbrev x_prop : Prop Bool
x_prop = record { v = true; dv = 0 }

-- On numbers modulo 2 and two rounds.
run2 : AdBench.run modulo2 2 ≡ true
unfolding AdBench.run AdBench.reverse AdBench.handle example AdBench.loop AdBench.evaluate
run2 = refl

run-derivative_example :
    AdBench.run modulo2 2 ≡ (forwards modulo2 (example modulo2 2 (true, true))).1
run-derivative_example = run-derivative modulo2 2 modulo2-IsRing

-- The union, where the pointer is the other truth value.
abbrev flip : Cast Bool Bool
flip = record { ptr = not; dbl = not; dbl-ptr = not-not }

run-frees_example :
    (h : Heap Bool) × (libseff.AdBench.Naive.run modulo2 2 ≡ ok (AdBench.run modulo2 2, h, none))
    × ((a : ℕ) → (h.double a ≡ none) × (h.prop a ≡ none))
    × (r : Prop Bool) × (h.result ≡ some r)
run-frees_example = run-frees modulo2 2
