-- ===== src/Stack/Release.antt =====
-- `seff_coroutine_release` of src/seff.c on a coroutine's list of segments.
use libseff.Base.{
  ℕ, zero, suc, ◌+◌, ◌<◌, ◌≤◌, ◌≡◌, ◌≢◌, refl, arith, List, [], ◌∷◌, count, length, ◌==◌, some,
  false,
}
use libseff.Runtime.{Ptr, null}
use libseff.Stack.{Segment, Stack, rewind, free_all, release}
use libseff.Stack.Links.{Below, Above, Segments}

-- The lowest segment, and the others above it, from the bottom up: the segments below `c` turned
-- around, with `above` behind them.
abbrev pub bottom : Ptr → List Ptr → Ptr
bottom c [] = c
bottom c (b ∷ below) = bottom b below

abbrev pub upwards : Ptr → List Ptr → List Ptr → List Ptr
upwards c [] above = above
upwards c (b ∷ below) above = upwards b below (c ∷ above)

rewind-bottom :
    (fuel : ℕ) (seg : Ptr → Segment) (c : Ptr) (below : List Ptr)
    → Below seg c below
    → c ≢ null
    → count null below ≡ 0
    → length below < fuel
    → rewind fuel seg c ≡ some (bottom c below)
unfolding rewind
rewind-bottom zero seg c below d n z h = absurd (omega arith)
rewind-bottom (suc fuel) seg c [] d n z h = ground arith
rewind-bottom (suc fuel) seg c (b ∷ below) d n z h =
    rw (d.0, c_null, b_null)
      (rewind-bottom fuel seg b below d.2 (ground arith) (ground arith) (omega arith))
  where
    c_null : (c == null) ≡ false
    c_null = ground arith

    b_null : (b == null) ≡ false
    b_null = ground arith

Above-bottom :
    (seg : Ptr → Segment) (c : Ptr) (below above : List Ptr)
    → Below seg c below
    → Above seg c above
    → Above seg (bottom c below) (upwards c below above)
Above-bottom seg c [] above d u = u
Above-bottom seg c (b ∷ below) above d u = Above-bottom seg b below (c ∷ above) d.2 (d.1, d.0, u)

free_all-Above :
    (fuel : ℕ) (seg : Ptr → Segment) (c : Ptr) (above : List Ptr)
    → Above seg c above
    → c ≢ null
    → count null above ≡ 0
    → length above + 1 < fuel
    → free_all fuel seg c ≡ some (c ∷ above)
unfolding free_all
free_all-Above zero seg c above u n z h = absurd (omega arith)
free_all-Above (suc zero) seg c above u n z h = absurd (omega arith)
free_all-Above (suc (suc fuel)) seg c [] u n z h = rw (u, c_null) refl
  where
    c_null : (c == null) ≡ false
    c_null = ground arith
free_all-Above (suc fuel) seg c (b ∷ above) u n z h =
    rw
      (u.0, c_null, free_all-Above fuel seg b above u.2 (ground arith) (ground arith) (omega arith))
      refl
  where
    c_null : (c == null) ≡ false
    c_null = ground arith

count-upwards :
    (x c : Ptr) (below above : List Ptr)
    → count x (bottom c below ∷ upwards c below above) ≡ count x below + count x (c ∷ above)
count-upwards x c [] above = omega arith
count-upwards x c (b ∷ below) above = omega (arith, count-upwards x b below (c ∷ above))

length-upwards :
    (c : Ptr) (below above : List Ptr)
    → length (upwards c below above) ≡ length below + length above
length-upwards c [] above = omega arith
length-upwards c (b ∷ below) above = omega (arith, length-upwards b below (c ∷ above))

-- With fuel above the number of the segments, `seff_coroutine_release` ends; it frees
-- each segment of the coroutine, those above the one in use too, exactly once, and nothing else.
pub release-freed :
    (fuel : ℕ) (st : Stack) (below above : List Ptr)
    → Segments st.segment st.frame_ptr below above
    → length below + length above + 1 < fuel
    → (freed : List Ptr) × (release fuel st ≡ some freed)
      × ((x : Ptr) → count x freed ≡ count x below + count x (st.frame_ptr ∷ above))
      × ((x : Ptr) → count x freed ≤ 1)
unfolding release
release-freed fuel st below above v h = (
  bottom st.frame_ptr below ∷ upwards st.frame_ptr below above,
  rw
      (
        release,
        rewind-bottom fuel st.segment st.frame_ptr below v.down not_null (omega (arith, v.no_null))
            (omega arith),
      )
      (free_all-Above fuel st.segment (bottom st.frame_ptr below) (upwards st.frame_ptr below above)
        (Above-bottom st.segment st.frame_ptr below above v.down v.up) (ground (arith, counts null))
        (ground (arith, counts null)) (omega (arith, length-upwards st.frame_ptr below above))),
  counts,
  λ x. omega (arith, counts x, v.distinct x),
)
  where
    counts :
        (x : Ptr)
        → count x (bottom st.frame_ptr below ∷ upwards st.frame_ptr below above)
          ≡ count x below + count x (st.frame_ptr ∷ above)
    counts x = count-upwards x st.frame_ptr below above

    not_null : st.frame_ptr ≢ null
    not_null = ground (arith, v.no_null)
