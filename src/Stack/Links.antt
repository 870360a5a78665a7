-- ===== src/Stack/Links.antt =====
-- The list of a coroutine's segments, seen from the one in use: those below it, which its frames
-- fill, and those above it, which it has left for later.
use libseff.Base.{◌+◌, ◌<◌, ◌≤◌, ◌%◌, ◌≡◌, ◌≢◌, ap, ◌∙◌, arith, List, [], ◌∷◌, count}
use libseff.Base.Memory.{update}
use libseff.Runtime.{Ptr, null}
use libseff.Stack.{Segment, link}

-- From `a` down by `prev`, and up by `next`; each link has its inverse.
abbrev pub Below : (Ptr → Segment) → Ptr → List Ptr → Type 0
Below seg a [] = (seg a).prev ≡ null
Below seg a (b ∷ l) = ((seg a).prev ≡ b) × ((seg b).next ≡ a) × Below seg b l

abbrev pub Above : (Ptr → Segment) → Ptr → List Ptr → Type 0
Above seg a [] = (seg a).next ≡ null
Above seg a (b ∷ l) = ((seg a).next ≡ b) × ((seg b).prev ≡ a) × Above seg b l

-- The segments `below`, `c` in use, and those `above`: linked both ways, at different addresses that
-- are aligned and not NULL.
pub record Segments (seg : Ptr → Segment) (c : Ptr) (below above : List Ptr) : Type 0 where
  pub down : Below seg c below
  pub up : Above seg c above
  pub distinct : (x : Ptr) → count x below + count x (c ∷ above) ≤ 1
  pub no_null : count null below + count null (c ∷ above) ≡ 0
  pub is_aligned : (x : Ptr) → 0 < count x below + count x (c ∷ above) → x % 16 ≡ 0

-- A list of links reads the segments of the list, and one link of the first.
pub Below-frame :
    (seg seg' : Ptr → Segment) (a : Ptr) (l : List Ptr)
    → (seg' a).prev ≡ (seg a).prev
    → ((x : Ptr) → 0 < count x l → seg' x ≡ seg x)
    → Below seg a l
    → Below seg' a l
Below-frame seg seg' a [] e same d = e ∙ d
Below-frame seg seg' a (b ∷ l) e same d = (
  e ∙ d.0,
  ap (λ (s : Segment). s.next) here ∙ d.1,
  Below-frame seg seg' b l (ap (λ (s : Segment). s.prev) here) (λ x h. same x (omega arith)) d.2,
)
  where
    here : seg' b ≡ seg b
    here = same b (ground arith)

pub Above-frame :
    (seg seg' : Ptr → Segment) (a : Ptr) (l : List Ptr)
    → (seg' a).next ≡ (seg a).next
    → ((x : Ptr) → 0 < count x l → seg' x ≡ seg x)
    → Above seg a l
    → Above seg' a l
Above-frame seg seg' a [] e same d = e ∙ d
Above-frame seg seg' a (b ∷ l) e same d = (
  e ∙ d.0,
  ap (λ (s : Segment). s.prev) here ∙ d.1,
  Above-frame seg seg' b l (ap (λ (s : Segment). s.next) here) (λ x h. same x (omega arith)) d.2,
)
  where
    here : seg' b ≡ seg b
    here = same b (ground arith)

-- The links once the new segment `n`, with the header `h`, is put above `c`, last or before `d`.
abbrev pub last : (Ptr → Segment) → Ptr → Ptr → Segment → Ptr → Segment
last seg n c h = link (update seg n h) c n

abbrev pub between : (Ptr → Segment) → Ptr → Ptr → Ptr → Segment → Ptr → Segment
between seg n c d h = link (link (update seg n h) n d) c n

module _ (seg : Ptr → Segment) (n c : Ptr) (h : Segment) (n_c : n ≢ c) where
  pub last_new : last seg n c h n ≡ record h { prev = c }
  last_new = ground arith

  pub last_current : last seg n c h c ≡ record (seg c) { next = n }
  last_current = ground arith

  pub last_other : (x : Ptr) → n ≢ x → c ≢ x → last seg n c h x ≡ seg x
  last_other x n_x c_x = ground arith

  module _ (d : Ptr) (n_d : n ≢ d) (c_d : c ≢ d) where
    pub between_new : between seg n c d h n ≡ record { prev = c; next = d; size = h.size }
    between_new = ground arith

    pub between_current : between seg n c d h c ≡ record (seg c) { next = n }
    between_current = ground arith

    pub between_next : between seg n c d h d ≡ record (seg d) { prev = n }
    between_next = ground arith

    pub between_other : (x : Ptr) → n ≢ x → c ≢ x → d ≢ x → between seg n c d h x ≡ seg x
    between_other x n_x c_x d_x = ground arith
