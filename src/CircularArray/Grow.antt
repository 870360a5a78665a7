-- ===== src/CircularArray/Grow.antt =====
-- `circular_array_new` and `circular_array_resize`: what they build, and when they fail.
use native.Mathlib.Nat.{pow-suc}
use libseff.Base.{
  ℕ, zero, suc, ◌+◌, ◌-◌, ◌*◌, ◌^◌, ◌≤◌, ◌<◌, ◌≡◌, refl, sym, ap, subst, ◌∙◌, ◌⊎◌, inl, inr, arith,
  none, some, dec_lt, lt→ltb,
}
use libseff.Base.Bits.{two_pow_half}
use libseff.Base.Result.{Fault, ok, err}
use libseff.CircularArray.{
  Elt, CircularArray, Block, from_block, new, get, set_elt, copy, resize, reserve,
}
use libseff.CircularArray.Window.{
  IsValid, size_pos, index-ne, set_elt-IsValid, get-set_elt_self, get-set_elt_ne, window,
  window_ext,
}

-- An array of `n` cells that satisfies the representation invariant.
pub record Fresh (n : ℕ) (arr : CircularArray) : Type 0 where
  pub valid : IsValid arr
  pub size_eq : arr.size ≡ n

-- With memory, a logarithm below 31 gives an array of that size.
pub new-ok :
    (k : ℕ) (b : ℕ → Elt)
    → k < 31
    → (arr : CircularArray) × (new k (some b) ≡ ok arr) × Fresh (2 ^ k) arr
unfolding new from_block
new-ok k b h = (
  record { size = 2 ^ k; mask = 2 ^ k - 1; buffer = b },
  ground arith,
  record { valid = record { log_size = k; size_eq = refl; mask_eq = refl }; size_eq = refl },
)

-- From 31 on the shift has no meaning, although the assertion lets it pass below 64.
pub new-undefined : (k : ℕ) (block : Block) → 31 ≤ k → k < 64 → new k block ≡ err Fault.undefined
unfolding new
new-undefined k block lo hi = ground arith

set_elt-Fresh : {m : ℕ} {a : CircularArray} (i : ℕ) (x : Elt) → Fresh m a → Fresh m (set_elt a i x)
unfolding set_elt
set_elt-Fresh {a} i x f = record { valid = set_elt-IsValid a f.valid i x; size_eq = f.size_eq }

module _ (arr : CircularArray) where
  copy-Fresh : (n i m : ℕ) (a : CircularArray) → Fresh m a → Fresh m (copy n i arr a)
  unfolding copy
  copy-Fresh zero i m a f = f
  copy-Fresh (suc n) i m a f =
      copy-Fresh n (i + 1) m (set_elt a i (get arr i)) (set_elt-Fresh i (get arr i) f)

  -- The rounds from `i` on leave an earlier index alone.
  get-copy_before :
      (n i j m : ℕ) (a : CircularArray)
      → Fresh m a
      → j < i
      → i + n ≤ j + m
      → get (copy n i arr a) j ≡ get a j
  unfolding copy
  get-copy_before zero i j m a f lt near = refl
  get-copy_before (suc n) i j m a f lt near =
      get-copy_before n (i + 1) j m (set_elt a i (get arr i)) (set_elt-Fresh i (get arr i) f)
        (omega arith) (omega arith)
      ∙ get-set_elt_ne a i j (get arr i)
          (λ e. index-ne f.valid j i lt (omega (arith, f.size_eq)) (sym e))

  -- An index that a round reaches holds what the old array holds there.
  get-copy :
      (n i j m : ℕ) (a : CircularArray)
      → Fresh m a
      → i ≤ j
      → j < i + n
      → n ≤ m
      → get (copy n i arr a) j ≡ get arr j
  unfolding copy
  get-copy zero i j m a f lo hi fits = absurd (omega arith)
  get-copy (suc n) i j m a f lo hi fits = elim (dec_lt i j) [
    | yes p ↦ get-copy n (i + 1) j m next fresh (omega arith) (omega arith) (omega arith)
    | no p ↦ rw (same p) (
        get-copy_before n (i + 1) i m next fresh (omega arith) (omega arith)
        ∙ get-set_elt_self a i (get arr i))
  ]
    where
      next : CircularArray
      next = set_elt a i (get arr i)

      fresh : Fresh m next
      fresh = set_elt-Fresh i (get arr i) f

      same : ¬ (i < j) → j ≡ i
      same p = omega arith

-- A new array, twice as large, that holds the `n` elements from `head` on.
pub record Grown (arr : CircularArray) (head n : ℕ) (arr' : CircularArray) : Type 0 where
  pub fresh : Fresh (arr.size * 2) arr'
  pub reads : (j : ℕ) → head ≤ j → j < head + n → get arr' j ≡ get arr j

-- The block that `malloc` gave, with the fields of an array twice as large.
abbrev pub doubled : CircularArray → (ℕ → Elt) → CircularArray
doubled arr b = record { size = arr.size * 2; mask = arr.size * 2 - 1; buffer = b }

copy-Grown :
    (arr : CircularArray) (b : ℕ → Elt) (head n : ℕ)
    → IsValid arr
    → n ≤ arr.size * 2
    → Grown arr head n (copy n head arr (doubled arr b))
copy-Grown arr b head n v fits = record {
  fresh = copy-Fresh arr n head (arr.size * 2) (doubled arr b) fresh;
  reads = λ j lo hi. get-copy arr n head j (arr.size * 2) (doubled arr b) fresh lo hi fits;
}
  where
    fresh : Fresh (arr.size * 2) (doubled arr b)
    fresh = record {
      valid = record {
        log_size = suc v.log_size;
        size_eq = ground (arith, v.size_eq, pow-suc 2 v.log_size);
        mask_eq = refl;
      };
      size_eq = refl;
    }

-- On a valid array of at most 2^30 cells, with memory for the new one, and at most as many elements
-- from `head` on as there are cells, the resized array is valid, twice as large, and holds the same
-- elements at the same indices.
pub resize-Grown :
    (arr : CircularArray) (b : ℕ → Elt) (head n : ℕ)
    → IsValid arr
    → arr.size < 2 ^ 31
    → n ≤ arr.size
    → (arr' : CircularArray) × (resize arr (head + n) head (some b) ≡ ok arr')
      × Grown arr head n arr'
unfolding resize from_block
resize-Grown arr b head n v small fits = (
  copy n head arr (doubled arr b),
  ground (arith, size_pos v),
  copy-Grown arr b head n v (omega arith),
)

resize_inv :
    (arr : CircularArray) (b : ℕ → Elt) (bottom top : ℕ) (arr' : CircularArray)
    → resize arr bottom top (some b) ≡ ok arr'
    → arr' ≡ copy (bottom - top) top arr (doubled arr b)
unfolding resize from_block
resize_inv arr b bottom top arr' h = ground arith

-- Whatever `circular_array_resize` returns holds the elements from `top` to below `bottom`.
pub resized-Grown :
    (arr : CircularArray) (b : ℕ → Elt) (bottom top : ℕ) (arr' : CircularArray)
    → IsValid arr
    → bottom - top ≤ arr.size
    → resize arr bottom top (some b) ≡ ok arr'
    → Grown arr top (bottom - top) arr'
resized-Grown arr b bottom top arr' v fits h =
    subst (Grown arr top (bottom - top)) (sym (resize_inv arr b bottom top arr' h))
      (copy-Grown arr b top (bottom - top) v (omega arith))

-- What `reserve` hands on: an array with a free cell past `tail`, and the same elements.
pub record Roomy (arr : CircularArray) (head tail : ℕ) (arr' : CircularArray) : Type 0 where
  pub valid : IsValid arr'
  pub room : tail - head < arr'.size
  pub larger : (arr'.size ≡ arr.size) ⊎ ((arr'.size ≡ arr.size * 2) × (tail ≡ head + arr.size))
  pub small : arr.size ≤ 2 ^ 31 → arr'.size ≤ 2 ^ 31
  pub same : window arr' head (tail - head) ≡ window arr head (tail - head)

-- A full array is doubled, any other is kept; with memory this succeeds up to 2^30 cells.
pub reserve-Roomy :
    (arr : CircularArray) (b : ℕ → Elt) (head tail : ℕ)
    → IsValid arr
    → head ≤ tail
    → tail - head ≤ arr.size
    → (tail - head < arr.size) ⊎ (arr.size < 2 ^ 31)
    → (arr' : CircularArray) × (reserve arr tail head (some b) ≡ ok arr') × Roomy arr head tail arr'
unfolding reserve
reserve-Roomy arr b head tail v le fits memory = elim (dec_lt (tail - head) arr.size) [
  | yes p ↦ (
    arr,
    ground arith,
    record { valid = v; room = p; larger = inl refl; small = λ h. h; same = refl },
  )
  | no p ↦
      let (arr', e, g) = resize-Grown arr b head (tail - head) v (omega arith) fits in
      (
        arr',
        rw (lt→ltb (arr.size + head) (tail + 1) (omega arith))
            (ap (λ t. resize arr t head (some b)) (omega arith) ∙ e),
        record {
          valid = g.fresh.valid;
          room = omega (arith, g.fresh.size_eq, size_pos v);
          larger = inr (g.fresh.size_eq, omega arith);
          small = λ h. omega (arith, g.fresh.size_eq, v.size_eq, two_pow_half v.log_size 31);
          same = window_ext arr' arr head (tail - head) g.reads;
        },
      )
]

-- A full array and no memory: the store through NULL.
pub reserve-null :
    (arr : CircularArray) (head tail : ℕ)
    → IsValid arr
    → arr.size < 2 ^ 31
    → tail ≡ head + arr.size
    → reserve arr tail head none ≡ err Fault.null_pointer
unfolding reserve resize from_block
reserve-null arr head tail v small e = ground (arith, size_pos v)
