-- ===== src/Stack/Choose.antt =====
-- The segment that `seff_mem_allocate_frame` chooses: the next one if it is large enough, and a new
-- one otherwise.
use libseff.Base.{
  ℕ, ◌+◌, ◌<◌, ◌≤◌, ◌^◌, ◌≡◌, ◌≢◌, refl, ap, arith, List, [], ◌∷◌, ◌==◌, ltb, true, false, dec_lt,
  ◌⊎◌, inl, inr,
}
use libseff.Base.Result.{ok}
use libseff.Runtime.{Ptr, null, u64}
use libseff.Stack.{Segment, header_size, block_size, init_segment, new_size, next_segment}
use libseff.Stack.Links.{Segments, last, between, last_new, between_new}
use libseff.Stack.Insert.{IsFresh, last-Segments, between-Segments, move_up-Segments}

-- The size of the block that a new segment asks of `malloc`.
abbrev pub request : ℕ → ℕ → ℕ
request min_segment_size needed = new_size min_segment_size needed + header_size

-- There is a segment above, and the next one is large enough.
abbrev pub NextFits : (Ptr → Segment) → List Ptr → ℕ → Type 0
NextFits seg [] needed = ⊥
NextFits seg (d ∷ above) needed = needed ≤ (seg d).size

-- The segment `n` with the links `seg'`, and `above'` that stay above it.
pub record IsChosen (min_segment_size : ℕ) (malloc : ℕ → Ptr) (seg : Ptr → Segment) (c : Ptr)
    (below above : List Ptr) (needed n : ℕ) (seg' : Ptr → Segment) (above' : List Ptr)
    : Type 0 where
  pub chosen : next_segment min_segment_size malloc seg c needed ≡ ok (n, seg')
  pub linked : Segments seg' n (c ∷ below) above'
  pub room : needed ≤ (seg' n).size
  pub fits : (seg' n).size < u64
  pub reused_or_new :
      (NextFits seg above needed × (n ∷ above' ≡ above) × (seg' ≡ seg))
      ⊎ ((¬ NextFits seg above needed)
          × (above' ≡ above)
          × (n ≡ malloc (request min_segment_size needed)))

module _ (min_segment_size : ℕ) (malloc : ℕ → Ptr) (seg : Ptr → Segment) (c : Ptr)
    (below : List Ptr) (needed : ℕ) (sizes : (x : Ptr) → (seg x).size < u64) where
  pub next_segment-reused :
      (d : Ptr) (above : List Ptr)
      → Segments seg c below (d ∷ above)
      → needed ≤ (seg d).size
      → IsChosen min_segment_size malloc seg c below (d ∷ above) needed d seg above
  unfolding next_segment
  next_segment-reused d above v le = record {
    chosen = rw (v.up.0, d_null, larger) refl;
    linked = move_up-Segments v;
    room = le;
    fits = sizes d;
    reused_or_new = inl (le, refl, refl);
  }
    where
      d_null : (d == null) ≡ false
      d_null = ground (arith, v.no_null)

      larger : ltb (seg d).size needed ≡ false
      larger = ground arith

module _ (min_segment_size : ℕ) (malloc : ℕ → Ptr) (seg : Ptr → Segment) (c : Ptr)
    (below : List Ptr) (needed : ℕ) (small : request min_segment_size needed < 2 ^ 31)
    (sizes : (x : Ptr) → (seg x).size < u64) where
  abbrev new : Ptr
  new = malloc (request min_segment_size needed)

  abbrev header : Segment
  header = record { prev = null; next = null; size = new_size min_segment_size needed }

  init_segment-new :
      new ≢ null → init_segment malloc (new_size min_segment_size needed) ≡ ok (new, header)
  unfolding init_segment
  init_segment-new n = rw block_eq (ground arith)
    where
      block_eq : block_size (new_size min_segment_size needed) ≡ request min_segment_size needed
      block_eq = omega arith

  new_room : needed ≤ new_size min_segment_size needed
  new_room = ground arith

  module _ {above : List Ptr} (v : Segments seg c below above) (f : IsFresh new c below above) where
    n_c : new ≢ c
    n_c = ground (arith, f.unused)

  next_segment-last :
      Segments seg c below []
      → IsFresh new c below []
      → IsChosen min_segment_size malloc seg c below [] needed new (last seg new c header) []
  unfolding next_segment
  next_segment-last v f = record {
    chosen = rw (v.up, init_segment-new f.not_null) refl;
    linked = last-Segments seg c below new header v f refl;
    room = omega (arith, new_room, size_eq);
    fits = omega (arith, size_eq);
    reused_or_new = inr ((λ nothing. nothing), refl, refl);
  }
    where
      size_eq : (last seg new c header new).size ≡ new_size min_segment_size needed
      size_eq = ap (λ (s : Segment). s.size) (last_new seg new c header (n_c v f))

  next_segment-between :
      (d : Ptr) (above : List Ptr)
      → Segments seg c below (d ∷ above)
      → IsFresh new c below (d ∷ above)
      → (seg d).size < needed
      → IsChosen min_segment_size malloc seg c below
          (d ∷ above)
          needed
          new
          (between seg new c d header)
          (d ∷ above)
  unfolding next_segment
  next_segment-between d above v f le = record {
    chosen = rw (v.up.0, d_null, smaller, init_segment-new f.not_null) refl;
    linked = between-Segments seg c d below above new header v f;
    room = omega (arith, new_room, size_eq);
    fits = omega (arith, size_eq);
    reused_or_new = inr ((λ large. omega arith), refl, refl);
  }
    where
      d_null : (d == null) ≡ false
      d_null = ground (arith, v.no_null)

      smaller : ltb (seg d).size needed ≡ true
      smaller = ground arith

      size_eq : (between seg new c d header new).size ≡ new_size min_segment_size needed
      size_eq =
          ap (λ (s : Segment). s.size)
            (between_new seg new c header (n_c v f) d (ground (arith, f.unused))
              (ground (arith, v.distinct c)))

  pub next_segment-IsChosen :
      (above : List Ptr)
      → Segments seg c below above
      → IsFresh new c below above
      → (n : Ptr) × (seg' : Ptr → Segment) × (above' : List Ptr) × IsChosen min_segment_size malloc
          seg c below above needed n seg' above'
  next_segment-IsChosen [] v f = (_, _, _, next_segment-last v f)
  next_segment-IsChosen (d ∷ above) v f = elim (dec_lt (seg d).size needed) [
    | yes lt ↦ (_, _, _, next_segment-between d above v f lt)
    | no ge ↦ (
      _,
      _,
      _,
      next_segment-reused min_segment_size malloc seg c below needed sizes d above v (omega arith),
    )
  ]
