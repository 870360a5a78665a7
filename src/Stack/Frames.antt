-- ===== src/Stack/Frames.antt =====
-- `seff_mem_allocate_frame` and `seff_mem_release_frame` of src/mem/seff_mem_segmented.c: a call that
-- needs more stack moves to a segment with space, and its return moves back.
use libseff.Base.{
  ℕ, zero, suc, ◌+◌, ◌-◌, ◌<◌, ◌≤◌, ◌%◌, ◌≡◌, refl, ap, ◌∙◌, arith, List, ◌∷◌, ◌==◌, true, false,
  ◌⊎◌,
}
use libseff.Base.Result.{ok}
use libseff.Runtime.{Ptr, null, u64}
use libseff.Stack.{
  Segment, header_size, Stack, align_down, Frame, frame_in, moved_to, place, allocate_frame,
  release_frame,
}
use libseff.Stack.Links.{Segments}
use libseff.Stack.Insert.{move_down-Segments}
use libseff.Stack.Choose.{request, NextFits, IsChosen, next_segment-reused}

align_down-eq : (a : ℕ) → align_down a ≡ a - a % 16
unfolding align_down
align_down-eq zero = refl
align_down-eq (suc a) = ground (arith, align_down-eq a)

-- The frame lies in its segment: aligned, with as much space as reported but for the alignment, and
-- below a copy of the parameters.
pub record IsPlaced (st : Stack) (frame_size old_stack param_size : ℕ) (frame : Frame) (st' : Stack)
    : Type 0 where
  pub enough : frame_size ≤ frame.frame_size
  pub is_aligned : frame.new_stack % 16 ≡ 0
  pub above_header : st'.frame_ptr + header_size ≤ frame.new_stack
  pub in_segment :
      frame.new_stack + param_size ≤ st'.frame_ptr + header_size + (st'.segment st'.frame_ptr).size
  pub space : st'.frame_ptr + header_size + frame.frame_size ≤ frame.new_stack + 15
  pub params : (i : ℕ) → i < param_size → st'.bytes (frame.new_stack + i) ≡ st.bytes (old_stack + i)
  pub others : (a : ℕ) → a < frame.new_stack → st'.bytes a ≡ st.bytes a

module _ (st : Stack) (frame_size old_stack param_size n : ℕ) (seg : Ptr → Segment)
    (aligned : n % 16 ≡ 0) (room : frame_size + param_size ≤ (seg n).size)
    (fits : (seg n).size < u64) where
  abbrev pub frame : Frame
  frame = frame_in param_size (seg n).size n

  abbrev pub moved : Stack
  moved = moved_to st old_stack param_size frame n seg

  new_stack_eq :
      frame.new_stack
      ≡ (n + header_size + (seg n).size - param_size)
        - (n + header_size + (seg n).size - param_size) % 16
  new_stack_eq = align_down-eq (n + header_size + (seg n).size - param_size)

  pub moved-IsPlaced : IsPlaced st frame_size old_stack param_size frame moved
  moved-IsPlaced = record {
    enough = omega arith;
    is_aligned = omega (arith, new_stack_eq);
    above_header = omega (arith, new_stack_eq);
    in_segment = omega (arith, new_stack_eq);
    space = omega (arith, new_stack_eq);
    params = λ i h. ground arith;
    others = λ a h. ground arith;
  }

  pub place-moved : place st old_stack param_size (n, seg) ≡ ok (frame, moved)
  unfolding place
  place-moved = rw test refl
    where
      test : (frame.new_stack % 16 == 0) ≡ true
      test = ground (arith, new_stack_eq)

-- The frame of a call that needs more stack, and the state in which it runs: in a segment above the
-- one in use, which is the next one if that is large enough, and otherwise a new one with the others
-- above it.
pub record IsGrown (min_segment_size : ℕ) (malloc : ℕ → Ptr) (st : Stack)
    (frame_size old_stack param_size : ℕ) (below above above' : List Ptr) (frame : Frame)
    (st' : Stack) : Type 0 where
  pub returns :
      allocate_frame min_segment_size malloc st frame_size old_stack param_size ≡ ok (frame, st')
  pub placed : IsPlaced st frame_size old_stack param_size frame st'
  pub linked : Segments st'.segment st'.frame_ptr (st.frame_ptr ∷ below) above'
  pub reused_or_new :
      (NextFits st.segment above (frame_size + param_size)
        × (st'.frame_ptr ∷ above' ≡ above)
        × (st'.segment ≡ st.segment))
      ⊎ ((¬ NextFits st.segment above (frame_size + param_size))
          × (above' ≡ above)
          × (st'.frame_ptr ≡ malloc (request min_segment_size (frame_size + param_size))))

-- One `seff_mem_allocate_frame` on a chosen segment.
allocate_frame-chosen :
    (min_segment_size : ℕ) (malloc : ℕ → Ptr) (st : Stack) (frame_size old_stack param_size : ℕ)
    (below above above' : List Ptr) (n : Ptr) (seg' : Ptr → Segment)
    → Segments st.segment st.frame_ptr below above
    → frame_size + param_size < u64
    → IsChosen min_segment_size malloc st.segment st.frame_ptr below above
        (frame_size + param_size)
        n
        seg'
        above'
    → (frame : Frame) × (st' : Stack) × IsGrown min_segment_size malloc st frame_size old_stack
        param_size below above above' frame st'
      × (st'.frame_ptr ≡ n)
      × (st'.segment ≡ seg')
unfolding allocate_frame
allocate_frame-chosen min_segment_size malloc st frame_size old_stack param_size below above above'
      n seg' v small w =
    (
      frame st frame_size old_stack param_size n seg' aligned w.room w.fits,
      moved st frame_size old_stack param_size n seg' aligned w.room w.fits,
      record {
        returns =
            rw (not_null, needed_eq, w.chosen)
              (place-moved st frame_size old_stack param_size n seg' aligned w.room w.fits);
        placed = moved-IsPlaced st frame_size old_stack param_size n seg' aligned w.room w.fits;
        linked = w.linked;
        reused_or_new = w.reused_or_new;
      },
      refl,
      refl,
    )
  where
    aligned : n % 16 ≡ 0
    aligned = w.linked.is_aligned n (ground arith)

    not_null : (st.frame_ptr == null) ≡ false
    not_null = ground (arith, v.no_null)

    needed_eq : (frame_size + param_size) % u64 ≡ frame_size + param_size
    needed_eq = omega arith

release_frame-eq :
    (st : Stack) (b : Ptr)
    → (st.segment st.frame_ptr).prev ≡ b
    → release_frame st ≡ (b + header_size, record st { frame_ptr = b })
unfolding release_frame
release_frame-eq st b e = rw e refl

-- A return moves to the segment below, whose stack ends after its header, and keeps the segment that
-- it leaves; a later call that fits there uses it again, whatever `malloc` does.
pub release_frame-allocate :
    (st : Stack) (b : Ptr) (below above : List Ptr) (min_segment_size : ℕ) (malloc : ℕ → Ptr)
    (frame_size old_stack param_size : ℕ)
    → Segments st.segment st.frame_ptr (b ∷ below) above
    → ((x : Ptr) → (st.segment x).size < u64)
    → frame_size + param_size ≤ (st.segment st.frame_ptr).size
    → (release_frame st ≡ (b + header_size, record st { frame_ptr = b }))
      × Segments st.segment b below (st.frame_ptr ∷ above)
      × (frame : Frame) × (st' : Stack) × (allocate_frame min_segment_size malloc
            (release_frame st).1
            frame_size
            old_stack
            param_size
          ≡ ok (frame, st'))
      × (st'.frame_ptr ≡ st.frame_ptr)
      × (st'.segment ≡ st.segment)
release_frame-allocate st b below above min_segment_size malloc frame_size old_stack param_size v
      sizes le =
    let back = record st { frame_ptr = b } in
    let v' = move_down-Segments v in
    let (frame, st', grown, same_frame, same) =
      allocate_frame-chosen min_segment_size malloc back frame_size old_stack param_size below
        (st.frame_ptr ∷ above) above st.frame_ptr st.segment v' (small sizes le)
        (next_segment-reused min_segment_size malloc st.segment b below (frame_size + param_size)
          sizes st.frame_ptr above v' le) in
    (
      release_frame-eq st b v.down.0,
      v',
      frame,
      st',
      ap
            (λ (r : ℕ × Stack).
              allocate_frame min_segment_size malloc r.1 frame_size old_stack param_size)
            (release_frame-eq st b v.down.0)
          ∙ grown.returns,
      same_frame,
      same,
    )
  where
    small :
        ((x : Ptr) → (st.segment x).size < u64)
        → frame_size + param_size ≤ (st.segment st.frame_ptr).size
        → frame_size + param_size < u64
    small s h = omega (arith, s st.frame_ptr)
