-- ===== src/Stack/Insert.antt =====
-- A new segment above the one in use, and moves from one segment to the next, on the list of
-- segments.
use libseff.Base.{◌+◌, ◌%◌, ◌≡◌, ◌≢◌, ap, ◌∙◌, arith, List, [], ◌∷◌, count}
use libseff.Runtime.{Ptr, null}
use libseff.Stack.{Segment}
use libseff.Stack.Links.{
  Segments, Below-frame, Above-frame, last, last_new, last_current, last_other, between,
  between_new, between_current, between_next, between_other,
}

-- An address that `malloc` gave, which no segment of the list has.
pub record IsFresh (n c : Ptr) (below above : List Ptr) : Type 0 where
  pub not_null : n ≢ null
  pub is_aligned : n % 16 ≡ 0
  pub unused : count n below + count n (c ∷ above) ≡ 0

abbrev pub next_of : Segment → Ptr
next_of s = s.next

abbrev pub prev_of : Segment → Ptr
prev_of s = s.prev

pub last-Segments :
    (seg : Ptr → Segment) (c : Ptr) (below : List Ptr) (n : Ptr) (h : Segment)
    → Segments seg c below []
    → IsFresh n c below []
    → h.next ≡ null
    → Segments (last seg n c h) n (c ∷ below) []
last-Segments seg c below n h v f e = record {
  down = (
    ap prev_of (last_new seg n c h n_c),
    ap next_of (last_current seg n c h n_c),
    Below-frame seg (last seg n c h) c below (ap prev_of (last_current seg n c h n_c))
        (λ x i.
          last_other seg n c h n_c x (ground (arith, f.unused)) (ground (arith, v.distinct c)))
        v.down,
  );
  up = ap next_of (last_new seg n c h n_c) ∙ e;
  distinct = λ x. ground (arith, v.distinct x, f.unused);
  no_null = ground (arith, v.no_null, f.not_null);
  is_aligned = λ x i. ground (arith, v.is_aligned x, f.is_aligned);
}
  where
    n_c : n ≢ c
    n_c = ground (arith, f.unused)

pub between-Segments :
    (seg : Ptr → Segment) (c d : Ptr) (below above : List Ptr) (n : Ptr) (h : Segment)
    → Segments seg c below (d ∷ above)
    → IsFresh n c below (d ∷ above)
    → Segments (between seg n c d h) n (c ∷ below) (d ∷ above)
between-Segments seg c d below above n h v f = record {
  down = (
    ap prev_of (between_new seg n c h n_c d n_d c_d),
    ap next_of (between_current seg n c h n_c d n_d c_d),
    Below-frame seg (between seg n c d h) c below
        (ap prev_of (between_current seg n c h n_c d n_d c_d))
        (λ x i.
          between_other seg n c h n_c d n_d c_d x (ground (arith, f.unused))
            (ground (arith, v.distinct c)) (ground (arith, v.distinct d)))
        v.down,
  );
  up = (
    ap next_of (between_new seg n c h n_c d n_d c_d),
    ap prev_of (between_next seg n c h n_c d n_d c_d),
    Above-frame seg (between seg n c d h) d above
        (ap next_of (between_next seg n c h n_c d n_d c_d))
        (λ x i.
          between_other seg n c h n_c d n_d c_d x (ground (arith, f.unused))
            (ground (arith, v.distinct c)) (ground (arith, v.distinct d)))
        v.up.2,
  );
  distinct = λ x. ground (arith, v.distinct x, f.unused);
  no_null = ground (arith, v.no_null, f.not_null);
  is_aligned = λ x i. ground (arith, v.is_aligned x, f.is_aligned);
}
  where
    n_c : n ≢ c
    n_c = ground (arith, f.unused)

    n_d : n ≢ d
    n_d = ground (arith, f.unused)

    c_d : c ≢ d
    c_d = ground (arith, v.distinct c)

pub move_up-Segments :
    {seg : Ptr → Segment} {c d : Ptr} {below above : List Ptr}
    → Segments seg c below (d ∷ above)
    → Segments seg d (c ∷ below) above
move_up-Segments v = record {
  down = (v.up.1, v.up.0, v.down);
  up = v.up.2;
  distinct = λ x. omega (arith, v.distinct x);
  no_null = omega (arith, v.no_null);
  is_aligned = λ x h. v.is_aligned x (omega arith);
}

pub move_down-Segments :
    {seg : Ptr → Segment} {b c : Ptr} {below above : List Ptr}
    → Segments seg c (b ∷ below) above
    → Segments seg b below (c ∷ above)
move_down-Segments v = record {
  down = v.down.2;
  up = (v.down.1, v.down.0, v.up);
  distinct = λ x. omega (arith, v.distinct x);
  no_null = omega (arith, v.no_null);
  is_aligned = λ x h. v.is_aligned x (omega arith);
}
