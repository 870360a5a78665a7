-- ===== src/Lookups/Scan.antt =====
-- What one resume of a searching coroutine of bench/prefetching_lookups_bench does to the search of a
-- sorted array.
use libseff.Base.{
  ℕ, zero, suc, ◌+◌, ◌-◌, ◌/◌, ◌<◌, ◌≤◌, ◌≡◌, ◌≢◌, refl, sym, ap, ◌∙◌, arith, Bool, true, false,
  ◌||◌, ◌==◌, ltb, if◌then◌else◌, List, [], ◌∷◌, length, sum_of, get_or, dec_lt, ℕ_discrete,
}
use libseff.Base.Result.{ok}
use libseff.Lookups.Search.{Search, Resumption, read_int, loop_head, after_read}

or_assoc : (x y z : Bool) → (x || (y || z)) ≡ (x || y || z)
or_assoc true y z = refl
or_assoc false y z = refl

or-true : (x : Bool) → (x || true) ≡ true
or-true true = refl
or-true false = refl

or-false : (x : Bool) → (x || false) ≡ x
or-false true = refl
or-false false = refl

module _ (v : List ℕ) where
  abbrev pub elem : ℕ → ℕ
  elem i = get_or v i 0

  -- The first `n` elements are in order.
  abbrev pub IsSorted : ℕ → Type 0
  IsSorted n = (i j : ℕ) → i ≤ j → j < n → elem i ≤ elem j

  -- Whether one of `len` elements from `first` on is `val`, one by one.
  pub scan : ℕ → ℕ → ℕ → Bool
  scan val first zero = false
  scan val first (suc len) = (elem first == val) || scan val (first + 1) len

  scan_split :
      (val first a b : ℕ) → scan val first (a + b) ≡ (scan val first a || scan val (first + a) b)
  unfolding scan
  scan_split val first zero b = rw (left, right) refl
    where
      left : 0 + b ≡ b
      left = omega arith

      right : first + 0 ≡ first
      right = omega arith
  scan_split val first (suc a) b =
      rw (left, right, scan_split val (first + 1) a b) (or_assoc (elem first == val) _ _)
    where
      left : suc a + b ≡ suc (a + b)
      left = omega arith

      right : first + suc a ≡ first + 1 + a
      right = omega arith

  scan-false :
      (val first len : ℕ)
      → ((i : ℕ) → first ≤ i → i < first + len → elem i ≢ val)
      → scan val first len ≡ false
  unfolding scan
  scan-false val first zero h = refl
  scan-false val first (suc len) h =
      rw (here, scan-false val (first + 1) len (λ i low high. h i (omega arith) (omega arith))) refl
    where
      here : (elem first == val) ≡ false
      here = ground (arith, h first)

  scan-true :
      (val first len i : ℕ) → first ≤ i → i < first + len → elem i ≡ val → scan val first len ≡ true
  unfolding scan
  scan-true val first zero i low high e = absurd (omega arith)
  scan-true val first (suc len) i low high e = elim (ℕ_discrete first i) [
    | yes same ↦ let here : (elem first == val) ≡ true = rw (same, e) (ground arith) in rw here refl
    | no other ↦ rw (scan-true val (first + 1) len i (omega arith) (omega arith) e) (or-true _)
  ]

pub read_int-eq : (v : List ℕ) (i : ℕ) → i < length v → read_int v i ≡ ok (elem v i)
unfolding read_int
read_int-eq [] i small = elim small [ ]
read_int-eq (x ∷ v) zero small = refl
read_int-eq (x ∷ v) (suc i) small = read_int-eq v i (omega arith)

-- How many of the keys stand among the first `n` elements of `v`, searched one by one.
abbrev pub hits : List ℕ → ℕ → List ℕ → ℕ
hits v n lookups = sum_of (λ key. if scan v key 0 n then 1 else 0) lookups

-- What is left of a search: the range, the key, the rounds at most, and the answer due.
abbrev pub low : Search → ℕ
low (Search.entry arg) = arg.first
low (Search.waiting first len val) = first

abbrev pub range : Search → ℕ
range (Search.entry arg) = arg.len
range (Search.waiting first len val) = len

abbrev pub key_of : Search → ℕ
key_of (Search.entry arg) = arg.key
key_of (Search.waiting first len val) = val

abbrev pub rounds : Search → ℕ
rounds (Search.entry arg) = arg.len + 1
rounds (Search.waiting first len val) = len

abbrev pub due : List ℕ → Search → Bool
due v s = scan v (key_of s) (low s) (range s)

-- What is left of the range at most after a resume.
abbrev pub half : Search → ℕ
half (Search.entry arg) = arg.len
half (Search.waiting first len val) = len / 2

-- The range lies in the first `n` elements, and is not empty where an element of it is waited for.
abbrev pub InRange : ℕ → Search → Type 0
InRange n (Search.entry arg) = arg.first + arg.len ≤ n
InRange n (Search.waiting first len val) = (first + len ≤ n) × (0 < len)

-- The element that a waiting search asked for.
abbrev pub middle_of : Search → ℕ
middle_of s = low s + range s / 2

module _ (v : List ℕ) (n : ℕ) where
  -- The turn goes on with the search of the same answer, or gives it.
  abbrev pub Follows : Search → Resumption → Type 0
  Follows s (Resumption.waits next middle) =
      (first len val : ℕ) × (next ≡ Search.waiting first len val)
      × (InRange n next)
      × (middle ≡ middle_of next)
      × (due v next ≡ due v s)
      × (rounds next < rounds s)
      × (range next ≤ half s)
  Follows s (Resumption.returned found) = found ≡ due v s

  pub loop_head-Follows :
      (s : Search) (first len val : ℕ)
      → first + len ≤ n
      → scan v val first len ≡ due v s
      → len < rounds s
      → len ≤ half s
      → Follows s (loop_head first len val)
  unfolding loop_head scan
  loop_head-Follows s first zero val bound e fewer less = e
  loop_head-Follows s first (suc len) val bound e fewer less =
      rw some_left (first, suc len, val, refl, (bound, omega arith), refl, e, fewer, less)
    where
      some_left : (suc len == 0) ≡ false
      some_left = ground arith

  module _ (sorted : IsSorted v n) (first len val : ℕ) (bound : first + len ≤ n)
      (some_left : 0 < len) where
    below :
        elem v (first + len / 2) < val
        → scan v val (first + len / 2 + 1) (len - len / 2 - 1) ≡ scan v val first len
    below less = sym (
        ap (scan v val first) parts
        ∙ scan_split v val first (len / 2 + 1) (len - len / 2 - 1)
        ∙ rw smaller (ap (λ i. scan v val i (len - len / 2 - 1)) next))
      where
        parts : len ≡ len / 2 + 1 + (len - len / 2 - 1)
        parts = omega arith

        next : first + (len / 2 + 1) ≡ first + len / 2 + 1
        next = omega arith

        smaller : scan v val first (len / 2 + 1) ≡ false
        smaller =
            scan-false v val first (len / 2 + 1)
              (λ i from to e. omega (arith, sorted i (first + len / 2) (omega arith) (omega arith)))

    above : val < elem v (first + len / 2) → scan v val first (len / 2) ≡ scan v val first len
    above more = sym (
        ap (scan v val first) parts
        ∙ scan_split v val first (len / 2) (len - len / 2)
        ∙ rw larger (or-false _))
      where
        parts : len ≡ len / 2 + (len - len / 2)
        parts = omega arith

        larger : scan v val (first + len / 2) (len - len / 2) ≡ false
        larger =
            scan-false v val (first + len / 2) (len - len / 2)
              (λ i from to e. omega (arith, sorted (first + len / 2) i from (omega arith)))

    pub after_read-Follows :
        Follows (Search.waiting first len val) (after_read first len val (elem v (first + len / 2)))
    unfolding after_read
    after_read-Follows = elim (dec_lt (elem v (first + len / 2)) val) [
      | yes less ↦
          let test : ltb (elem v (first + len / 2)) val ≡ true = ground arith in
          let other : (elem v (first + len / 2) == val) ≡ false = ground arith in
          rw (test, other)
            (loop_head-Follows (Search.waiting first len val) _ _ val (omega arith) (below less)
              (omega arith) (omega arith))
      | no more ↦ elim (ℕ_discrete (elem v (first + len / 2)) val) [
        | yes same ↦
            let test : (elem v (first + len / 2) == val) ≡ true = ground arith in
            rw test
              (sym (scan-true v val first len (first + len / 2) (omega arith) (omega arith) same))
        | no other ↦
            let test : ltb (elem v (first + len / 2)) val ≡ false = ground arith in
            let differs : (elem v (first + len / 2) == val) ≡ false = ground arith in
            rw (test, differs)
              (loop_head-Follows (Search.waiting first len val) _ _ val (omega arith)
                (above (omega arith)) (omega arith) (omega arith))
      ]
    ]
