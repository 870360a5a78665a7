-- ===== src/Chameneos/Spelling.antt =====
-- `int_pow` and `spell_int` of bench/chameneos_bench/chameneos_common.h.
use native.Mathlib.Nat.{
  pow-suc, pow-zero, one-le-pow, mul_assoc, mul_comm, mod-lt, div-add-mod', div-lt_iff_lt-mul,
  le-div_iff_mul-le, one-mul,
}
use libseff.Base.{
  ℕ, zero, suc, ◌+◌, ◌*◌, ◌/◌, ◌%◌, ◌^◌, ◌<◌, ◌≤◌, ◌≡◌, refl, sym, ap, subst, ◌∙◌, arith, ltb,
  lt→ltb, ◌==◌, true, false, List, [], ◌∷◌, length, All, ℕ_discrete,
}
use libseff.Base.Result.{ok}
use libseff.Chameneos.{int_pow_from, int_pow, spell_from, spell_int}

pow-add : (b m n : ℕ) → b ^ (m + n) ≡ b ^ m * b ^ n
pow-add b m zero = rw (pow-zero b) (omega (arith, m_eq))
  where
    m_eq : b ^ (m + 0) ≡ b ^ m
    m_eq = ap (λ k. b ^ k) (omega arith)
pow-add b m (suc n) =
    ap (λ k. b ^ k) sum_suc
    ∙ pow-suc b (m + n)
    ∙ ap (λ k. k * b) (pow-add b m n)
    ∙ mul_assoc (b ^ m) (b ^ n) b
    ∙ ap (λ k. b ^ m * k) (sym (pow-suc b n))
  where
    sum_suc : m + suc n ≡ suc (m + n)
    sum_suc = omega arith

int_pow_from-halves :
    (fuel base e : ℕ)
    → int_pow_from fuel base (suc (suc e) / 2) ≡ base ^ (suc (suc e) / 2)
    → int_pow_from (suc fuel) base (suc (suc e)) ≡ base ^ suc (suc e)
unfolding int_pow_from
int_pow_from-halves fuel base e prev = elim (ℕ_discrete (suc (suc e) % 2) 0) [
  | yes even ↦
      let test : (suc (suc e) % 2 == 0) ≡ true = ground arith in
      let twice : half + half ≡ suc (suc e) = omega arith in
      rw (big, bigger, test, prev) (sym (pow-add base half half) ∙ ap (λ k. base ^ k) twice)
  | no odd ↦
      let test : (suc (suc e) % 2 == 0) ≡ false = ground arith in
      let twice : suc (half + half) ≡ suc (suc e) = omega arith in
      rw (big, bigger, test, prev)
        (ap (λ k. k * base) (sym (pow-add base half half))
          ∙ sym (pow-suc base (half + half))
          ∙ ap (λ k. base ^ k) twice)
]
  where
    half : ℕ
    half = suc (suc e) / 2

    big : (suc (suc e) == 0) ≡ false
    big = ground arith

    bigger : (suc (suc e) == 1) ≡ false
    bigger = ground arith

-- `int_pow` computes powers.
pub int_pow_from-pow : (fuel base exp : ℕ) → exp ≤ fuel → int_pow_from fuel base exp ≡ base ^ exp
unfolding int_pow_from
int_pow_from-pow zero base zero le = sym (pow-zero base)
int_pow_from-pow zero base (suc exp) le = absurd (omega arith)
int_pow_from-pow (suc fuel) base zero le = sym (pow-zero base)
int_pow_from-pow (suc fuel) base (suc zero) le =
    sym (pow-suc base 0 ∙ ap (λ k. k * base) (pow-zero base) ∙ one-mul base)
int_pow_from-pow (suc fuel) base (suc (suc e)) le =
    int_pow_from-halves fuel base e (int_pow_from-pow fuel base (suc (suc e) / 2) (omega arith))

-- The number that a list of digits writes.
abbrev pub value : List ℕ → ℕ
value [] = 0
value (d ∷ digits) = d * 10 ^ length digits + value digits

pow_pos : (base : ℕ) → 0 < 10 ^ base
pow_pos base = omega (arith, one-le-pow base 10)

-- What the loop is to print for a number: its digits.
abbrev Spells : ℕ → ℕ → List ℕ → Type 0
Spells base a digits =
    (spell_from base a ≡ ok digits)
    × (value digits ≡ a)
    × (length digits ≡ base)
    × All (λ d. d < 10) digits

-- One digit, with what the loop prints behind it.
leading :
    (base a : ℕ)
    → a < 10 ^ suc base
    → (rest : (digits : List ℕ) × Spells base (a % 10 ^ base) digits)
    → Spells (suc base) a (a / 10 ^ base ∷ rest.0)
unfolding spell_from int_pow
leading base a small (digits, (e, v, l, all)) = (
  rw (power, one_digit, e) refl,
  rw (l, v) (div-add-mod' a (10 ^ base)),
  ap suc l,
  (small_digit, all),
)
  where
    power : int_pow_from base 10 base ≡ 10 ^ base
    power = int_pow_from-pow base 10 base (omega arith)

    small_digit : a / 10 ^ base < 10
    small_digit =
        (div-lt_iff_lt-mul (pow_pos base)).1
          (omega (arith, pow-suc 10 base, mul_comm 10 (10 ^ base)))

    one_digit : ltb (a / 10 ^ base) 10 ≡ true
    one_digit = lt→ltb _ _ small_digit

-- What the loop prints for a number below 10^base.
spell_from-value : (base a : ℕ) → a < 10 ^ base → (digits : List ℕ) × Spells base a digits
unfolding spell_from
spell_from-value zero a small = ([], (refl, omega (arith, pow-zero 10), refl, tt))
spell_from-value (suc base) a small =
    let rest = spell_from-value base (a % 10 ^ base) (mod-lt a (pow_pos base)) in
    (a / 10 ^ base ∷ rest.0, leading base a small rest)

-- For an int above 0, if `floor_log10` is the number of its decimal digits less one, `spell_int` does not
-- abort: it prints the digits of the int, the first of them not 0.
pub spell_int-value :
    (floor_log10 : ℕ → ℕ) (a : ℕ)
    → 0 < a
    → 10 ^ floor_log10 a ≤ a
    → a < 10 ^ (floor_log10 a + 1)
    → (first : ℕ) × (digits : List ℕ) × (spell_int floor_log10 a ≡ ok (first ∷ digits))
      × (value (first ∷ digits) ≡ a)
      × (0 < first)
      × All (λ d. d < 10) (first ∷ digits)
unfolding spell_int
spell_int-value floor_log10 zero pos low high = absurd (omega arith)
spell_int-value floor_log10 (suc a) pos low high =
    let f = floor_log10 (suc a) in
    let rest = spell_from-value f (suc a % 10 ^ f) (mod-lt (suc a) (pow_pos f)) in
    let (e, v, l, all) = leading f (suc a) (subst (λ k. suc a < 10 ^ k) one_more high) rest in
    (
      suc a / 10 ^ f,
      rest.0,
      ap (λ k. spell_from k (suc a)) one_more ∙ e,
      v,
      (le-div_iff_mul-le (pow_pos f)).1 (omega (arith, one-mul (10 ^ f), low)),
      all,
    )
  where
    one_more : floor_log10 (suc a) + 1 ≡ suc (floor_log10 (suc a))
    one_more = omega arith

-- What `spell_int` prints for an int, which may be 0.
pub spell_int-digits :
    (floor_log10 : ℕ → ℕ) (a : ℕ)
    → (0 < a → (10 ^ floor_log10 a ≤ a) × (a < 10 ^ (floor_log10 a + 1)))
    → (digits : List ℕ) × (spell_int floor_log10 a ≡ ok digits)
      × (value digits ≡ a)
      × All (λ d. d < 10) digits
unfolding spell_int
spell_int-digits floor_log10 zero log = (0 ∷ [], refl, omega arith, (omega arith, tt))
spell_int-digits floor_log10 (suc a) log =
    let (low, high) = log (omega arith) in
    let (first, digits, e, v, _, all) =
      spell_int-value floor_log10 (suc a) (omega arith) low high in
    (first ∷ digits, e, v, all)
