-- ===== src/CircularArray/Window.antt =====
-- Reads and writes of a circular array as a window on an unbounded sequence of cells.
use native.Mathlib.Nat.{mod-add-mod, mod-eq_of_lt, mod-eq-sub-mod, mod-lt, one-le-pow, add-zero}
use libseff.Base.{
  ℕ, zero, suc, ◌+◌, ◌-◌, ◌%◌, ◌^◌, ◌≤◌, ◌<◌, ◌≡◌, ◌≢◌, refl, sym, ap, ap₂, ◌∙◌, List, [], ◌∷◌,
  ◌++◌, arith, dec_lt, length,
}
use libseff.Base.Memory.{update_self, update_ne}
use libseff.Base.Bits.{bit_and_mask}
use libseff.CircularArray.{Elt, CircularArray, index, get, set_elt}

-- The size is a power of two, and the mask is one less.
pub record IsValid (arr : CircularArray) : Type 0 where
  pub log_size : ℕ
  pub size_eq : arr.size ≡ 2 ^ log_size
  pub mask_eq : arr.mask ≡ arr.size - 1

pub size_pos : {arr : CircularArray} → IsValid arr → 0 < arr.size
size_pos v = omega (arith, v.size_eq, one-le-pow v.log_size 2)

pub index_lem : {arr : CircularArray} → IsValid arr → (i : ℕ) → index arr i ≡ i % arr.size
index_lem {arr} v i = rw (v.mask_eq, v.size_eq) (bit_and_mask v.log_size i)

-- Every masked index lies in the buffer.
pub index-lt-size : {arr : CircularArray} → IsValid arr → (i : ℕ) → index arr i < arr.size
index-lt-size {arr} v i = rw (index_lem v i) (mod-lt i (size_pos v))

-- Two indices less than the size apart have different cells.
pub mod-ne : (s i d : ℕ) → 0 < d → d < s → (i + d) % s ≢ i % s
mod-ne s i d pos small = elim (dec_lt (i % s + d) s) [
  | yes p ↦ omega (arith, e, mod-eq_of_lt p)
  | no p ↦ omega (
    arith,
    e,
    r,
    mod-eq-sub-mod {n = i % s + d} {m = s} (omega arith),
    mod-eq_of_lt {n = i % s + d - s} {m = s} (omega (arith, r)),
  )
]
  where
    r : i % s < s
    r = mod-lt i (omega arith)

    e : (i + d) % s ≡ (i % s + d) % s
    e = sym (mod-add-mod i s d)

pub index-ne :
    {arr : CircularArray}
    → IsValid arr
    → (i j : ℕ) → i < j
    → j < i + arr.size
    → index arr i ≢ index arr j
index-ne {arr} v i j lt near e =
    mod-ne arr.size i (j - i) (omega arith) (omega arith)
      (ap (λ k. k % arr.size) (omega arith) ∙ sym (index_lem v j) ∙ sym e ∙ index_lem v i)

module _ (arr : CircularArray) where
  pub set_elt-IsValid : IsValid arr → (i : ℕ) (x : Elt) → IsValid (set_elt arr i x)
  unfolding set_elt
  set_elt-IsValid v i x = record { log_size = v.log_size; size_eq = v.size_eq; mask_eq = v.mask_eq }

  pub get-set_elt_self : (i : ℕ) (x : Elt) → get (set_elt arr i x) i ≡ x
  unfolding get set_elt
  get-set_elt_self i x = update_self arr.buffer (index arr i) x

  pub get-set_elt_ne :
      (i j : ℕ) (x : Elt) → index arr i ≢ index arr j → get (set_elt arr i x) j ≡ get arr j
  unfolding get set_elt
  get-set_elt_ne i j x h = update_ne arr.buffer (index arr i) x (index arr j) h

-- The `n` cells from index `i` on.
abbrev pub window : CircularArray → ℕ → ℕ → List Elt
window arr i zero = []
window arr i (suc n) = get arr i ∷ window arr (i + 1) n

pub length-window : (arr : CircularArray) (i n : ℕ) → length (window arr i n) ≡ n
length-window arr i zero = refl
length-window arr i (suc n) = ap suc (length-window arr (i + 1) n)

-- A window is determined by its reads.
pub window_ext :
    (a b : CircularArray) (i n : ℕ)
    → ((j : ℕ) → i ≤ j → j < i + n → get a j ≡ get b j)
    → window a i n ≡ window b i n
window_ext a b i zero h = refl
window_ext a b i (suc n) h =
    ap₂ ◌∷◌ (h i (omega arith) (omega arith))
      (window_ext a b (i + 1) n (λ j p q. h j (omega arith) (omega arith)))

pub window-suc :
    (arr : CircularArray) (i n : ℕ)
    → window arr i (suc n) ≡ window arr i n ++ (get arr (i + n) ∷ [])
window-suc arr i zero = rw add-zero
window-suc arr i (suc n) =
    ap (λ t. get arr i ∷ t)
      (window-suc arr (i + 1) n ∙ ap (λ k. window arr (i + 1) n ++ (get arr k ∷ [])) (omega arith))

pub window_uncons :
    (arr : CircularArray) (i n : ℕ)
    → 0 < n
    → window arr i n ≡ get arr i ∷ window arr (i + 1) (n - 1)
window_uncons arr i zero h = absurd (omega arith)
window_uncons arr i (suc n) h = ap (λ k. window arr i (suc k)) (omega arith)

-- A write one past a window that leaves a cell free appends to the window.
pub window-set_elt :
    {arr : CircularArray}
    → IsValid arr
    → (i n : ℕ) (x : Elt) → n < arr.size
    → window (set_elt arr (i + n) x) i (suc n) ≡ window arr i n ++ (x ∷ [])
window-set_elt {arr} v i n x room =
    window-suc (set_elt arr (i + n) x) i n
    ∙ ap₂ (λ w e. w ++ (e ∷ []))
        (window_ext (set_elt arr (i + n) x) arr i n (λ j p q.
          get-set_elt_ne arr (i + n) j x (λ e. index-ne v j (i + n) q (omega arith) (sym e))))
        (get-set_elt_self arr (i + n) x)

pub size-set_elt : (arr : CircularArray) (i : ℕ) (x : Elt) → (set_elt arr i x).size ≡ arr.size
unfolding set_elt
size-set_elt arr i x = refl

-- The cells between two indices of a queue: an append at the back, a removal at the front.
pub window_append :
    {arr : CircularArray} (head tail : ℕ) (x : Elt)
    → IsValid arr
    → head ≤ tail
    → tail - head < arr.size
    → window (set_elt arr tail x) head (tail + 1 - head) ≡ window arr head (tail - head) ++ (x ∷ [])
window_append {arr} head tail x v le room =
    ap₂ (λ t n. window (set_elt arr t x) head n) tail_eq count_eq
    ∙ window-set_elt v head (tail - head) x room
  where
    tail_eq : tail ≡ head + (tail - head)
    tail_eq = omega arith

    count_eq : tail + 1 - head ≡ suc (tail - head)
    count_eq = omega arith

pub window_front :
    (arr : CircularArray) (head tail : ℕ)
    → head < tail
    → window arr head (tail - head) ≡ get arr head ∷ window arr (head + 1) (tail - (head + 1))
window_front arr head tail lt =
    window_uncons arr head (tail - head) (omega arith)
    ∙ ap (λ n. get arr head ∷ window arr (head + 1) n) (omega arith)

pub window_none :
    (arr : CircularArray) (head tail : ℕ) → head ≡ tail → window arr head (tail - head) ≡ []
window_none arr head tail e = ap (window arr head) none_left
  where
    none_left : tail - head ≡ 0
    none_left = omega arith
