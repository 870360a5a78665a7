-- ===== src/Lookups/Single.antt =====
-- Lookups one after another: `SeffEffectSingleLookup` of
-- bench/prefetching_lookups_bench/libseff_effect_naive.c. The calls of `seff_coroutine_new_sized` succeed.
use native.Mathlib.Nat.{pow-suc}
use libseff.Base.{
  ℕ, zero, suc, ◌+◌, ◌-◌, ◌/◌, ◌^◌, ◌<◌, ◌≤◌, ◌≡◌, refl, sym, ap, ap₂, subst, ◌∙◌, arith, Bool,
  if◌then◌else◌, Option, none, some, List, [], ◌∷◌, length,
}
use libseff.Base.Result.{Result, ok, err}
use libseff.Lookups.Search.{
  SearchArgs, Search, Resumption, Word, zero_word, word_of, read_int, seff_effect_binary_search,
}
use libseff.Lookups.Scan.{
  IsSorted, elem, scan, hits, half, middle_of, InRange, Follows, read_int-eq, due, range,
  loop_head-Follows, after_read-Follows,
}

-- The loop of one lookup on fuel, where `none` means that the fuel ran out.
unfoldable pub single_search : ℕ → List ℕ → Search → Word → Option (Result Bool)
unfolding seff_effect_binary_search read_int
single_search zero v coro last_read = none
single_search (suc fuel) v coro last_read = elim (seff_effect_binary_search coro last_read) [
  | Resumption.returned found ↦ some (ok found)
  | Resumption.waits next addr ↦ elim (read_int v addr) [
    | err why ↦ some (err why)
    | ok x ↦ single_search fuel v next (word_of x)
  ]
]

-- The loop over the keys, with `found_count` and `not_found_count`.
unfoldable pub single_loop : ℕ → List ℕ → ℕ → List ℕ → ℕ → ℕ → Option (Result (ℕ × ℕ))
single_loop fuel v v_size [] found_count not_found_count = some (ok (found_count, not_found_count))
single_loop fuel v v_size (key ∷ lookups) found_count not_found_count =
    let args : SearchArgs = record { first = 0; len = v_size; key = key } in
    elim (single_search fuel v (Search.entry args) zero_word) [
      | none ↦ none
      | some (err why) ↦ some (err why)
      | some (ok found) ↦
          let res = if found then 1 else 0 in
          single_loop fuel v v_size lookups (found_count + res) (not_found_count + (1 - res))
    ]

-- `SeffEffectSingleLookup`
unfoldable pub seff_effect_single_lookup : ℕ → List ℕ → ℕ → List ℕ → Option (Result (ℕ × ℕ))
unfolding single_loop single_search
seff_effect_single_lookup fuel v v_size lookups = single_loop fuel v v_size lookups 0 0

goes_on :
    (k : ℕ) (v : List ℕ) (s next : Search) {middle x : ℕ} (w : Word)
    → seff_effect_binary_search s w ≡ Resumption.waits next middle
    → read_int v middle ≡ ok x
    → single_search (suc k) v s w ≡ single_search k v next (word_of x)
unfolding single_search
goes_on k v s next w e r = rw (single_search, e, r) refl

hits-le : (v : List ℕ) (n : ℕ) (keys : List ℕ) → hits v n keys ≤ length keys
hits-le v n [] = omega arith
hits-le v n (key ∷ keys) = ground (arith, hits-le v n keys)

module _ (v : List ℕ) (n : ℕ) (sorted : IsSorted v n) (fits : n ≤ length v) where
  -- A waiting search of fewer than 2^k elements takes k resumes at most.
  abbrev Due : ℕ → Type 0
  Due k =
      (first len val : ℕ)
      → first + len ≤ n
      → 0 < len
      → len < 2 ^ k
      → single_search k v (Search.waiting first len val) (word_of (elem v (first + len / 2)))
        ≡ some (ok (scan v val first len))

  turn_due :
      (k : ℕ)
      → Due k
      → (s : Search) (w : Word) (turn : Resumption) → seff_effect_binary_search s w ≡ turn
      → Follows v n s turn
      → half s < 2 ^ k
      → single_search (suc k) v s w ≡ some (ok (due v s))
  unfolding single_search
  turn_due k rest s w (Resumption.returned found) e f small = rw (single_search, e, f) refl
  turn_due k rest s w (Resumption.waits next middle) e (first, len, val, n_eq, r, m_eq, d, l, h)
        small =
      goes_on k v s next w e read_middle
      ∙ ap (λ t. single_search k v t (word_of (elem v (first + len / 2)))) n_eq
      ∙ rest first len val bounds.0 bounds.1 (omega (arith, ap range n_eq))
      ∙ ap (λ b. some (ok b)) (ap (due v) (sym n_eq) ∙ d)
    where
      bounds : (first + len ≤ n) × (0 < len)
      bounds = subst (InRange n) n_eq r

      read_middle : read_int v middle ≡ ok (elem v (first + len / 2))
      read_middle =
          ap (read_int v) (m_eq ∙ ap middle_of n_eq)
          ∙ read_int-eq v (first + len / 2) (omega (arith, bounds.0, bounds.1, fits))

  waiting-Due : (k : ℕ) → Due k
  unfolding seff_effect_binary_search
  waiting-Due zero first len val bound pos small = absurd (omega arith)
  waiting-Due (suc k) first len val bound pos small =
      turn_due k (waiting-Due k) _ _ _ refl (after_read-Follows v n sorted first len val bound pos)
        (omega (arith, pow-suc 2 k))

  entry_due :
      (k key : ℕ)
      → n < 2 ^ k
      → single_search (suc k) v (Search.entry (record { first = 0; len = n; key = key })) zero_word
        ≡ some (ok (scan v key 0 n))
  unfolding seff_effect_binary_search
  entry_due k key small =
      turn_due k (waiting-Due k) (Search.entry (record { first = 0; len = n; key = key })) zero_word
        _ refl
        (loop_head-Follows v n (Search.entry (record { first = 0; len = n; key = key })) 0 n key
          (omega arith) refl (omega arith) (omega arith))
        small

  single_loop-counts :
      (k : ℕ) (lookups : List ℕ) (found not_found : ℕ)
      → n < 2 ^ k
      → single_loop (suc k) v n lookups found not_found
        ≡ some (ok (found + hits v n lookups, not_found + (length lookups - hits v n lookups)))
  unfolding single_loop
  single_loop-counts k [] found not_found small =
      ap₂ (λ a b. some (ok (a, b))) (omega arith) (omega arith)
  single_loop-counts k (key ∷ lookups) found not_found small =
      rw (single_loop, entry_due k key small)
        (single_loop-counts k lookups _ _ small ∙ ground (arith, hits-le v n lookups))

  -- For an array of fewer than 2^k ints, all allocated and in order, `SeffEffectSingleLookup` ends
  -- without a fault, with k + 1 resumes for each key at most, so at most k elements are read; it
  -- returns how many of the keys stand in the array, and the others are in `not_found_count`.
  pub single_lookup-hits :
      (k : ℕ) (lookups : List ℕ)
      → n < 2 ^ k
      → seff_effect_single_lookup (suc k) v n lookups
        ≡ some (ok (hits v n lookups, length lookups - hits v n lookups))
  unfolding seff_effect_single_lookup
  single_lookup-hits k lookups small = single_loop-counts k lookups 0 0 small ∙ ground arith
