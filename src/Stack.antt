-- ===== src/Stack.antt =====
-- Segmented stacks: src/mem/seff_mem_segmented.c, and `seff_coroutine_release` of src/seff.c, in the
-- debug build. A segment is a block of memory whose header is the record here; the stack grows down
-- from the end of the block to the header.
pub mod Links
pub mod Insert
pub mod Choose
pub mod Frames
pub mod Release
pub mod Tests
use libseff.Base.{
  ℕ, zero, suc, ◌+◌, ◌-◌, ◌%◌, ◌^◌, ◌==◌, ltb, leb, ◌&&◌, not, if◌then◌else◌, Option, none, some,
  List, [], ◌∷◌,
}
use mathlib.Core.Option
use libseff.Base.Memory.{update}
use libseff.Base.Result.{Fault, Result, ok, err, ◌>>=◌, ◌>>◌, guard}
use libseff.Runtime.{Ptr, null, u64}

-- `seff_stack_segment_t`, less the canary and the padding that the size counts.
pub record Segment : Type 0 where
  pub prev : Ptr
  pub next : Ptr
  pub size : ℕ

-- `sizeof(seff_stack_segment_t)`: four words and 128 bytes of padding.
abbrev pub header_size : ℕ
header_size = 160

-- The argument of `malloc` in `init_segment`.
abbrev pub block_size : ℕ → ℕ
block_size frame_size = (frame_size + header_size) % u64

-- `init_segment`, where `malloc` tells the block that each request gets; the loop that fills the
-- block counts with an `int`.
unfoldable pub init_segment : (ℕ → Ptr) → ℕ → Result (Ptr × Segment)
init_segment malloc frame_size =
    if malloc (block_size frame_size) == null
    then err Fault.exited
    else (guard (ltb (block_size frame_size) (2 ^ 31)) Fault.undefined
        >> ok (
          malloc (block_size frame_size),
          record { prev = null; next = null; size = frame_size },
        ))

-- The end of a segment, where its stack begins.
abbrev pub stack_end : Ptr × Segment → ℕ
stack_end (p, segment) = p + header_size + segment.size

-- The segments by their addresses, the current coroutine's `frame_ptr`, and the bytes of the stacks,
-- apart from the headers.
pub record Stack : Type 0 where
  pub segment : Ptr → Segment
  pub frame_ptr : Ptr
  pub bytes : ℕ → ℕ

-- `LINK`
abbrev pub link : (Ptr → Segment) → Ptr → Ptr → Ptr → Segment
link segment first second =
    let linked = update segment first (record (segment first) { next = second }) in
    update linked second (record (linked second) { prev = first })

-- `new_size`
abbrev pub new_size : ℕ → ℕ → ℕ
new_size min_segment_size needed = if ltb needed min_segment_size then min_segment_size else needed

-- The choice of `new_segment` in `seff_mem_allocate_frame`, for a frame and its parameters of
-- `needed` bytes.
pub next_segment : ℕ → (ℕ → Ptr) → (Ptr → Segment) → Ptr → ℕ → Result (Ptr × (Ptr → Segment))
next_segment min_segment_size malloc segment current needed =
    let next = (segment current).next in
    if next == null
    then (do
      (new, header) ← init_segment malloc (new_size min_segment_size needed)
      ok (new, link (update segment new header) current new))
    else if ltb (segment next).size needed
    then (do
      (new, header) ← init_segment malloc (new_size min_segment_size needed)
      ok (new, link (link (update segment new header) new next) current new))
    else ok (next, segment)

-- The loop that aligns the stack.
pub align_down : ℕ → ℕ
align_down zero = zero
align_down (suc a) = let rest = align_down a in if not (suc a % 16 == 0) then rest else suc a

-- `memcpy`
abbrev pub memcpy : (ℕ → ℕ) → ℕ → ℕ → ℕ → ℕ → ℕ
memcpy bytes dst src n a = if leb dst a && ltb a (dst + n) then bytes (src + (a - dst)) else bytes a

-- A frame as `seff_mem_allocate_frame` gives it: the size that it reports, and the stack pointer.
pub record Frame : Type 0 where
  pub frame_size : ℕ
  pub new_stack : ℕ

-- The end of `seff_mem_allocate_frame`, once the segment `new` of so many bytes is chosen.
abbrev pub frame_in : ℕ → ℕ → Ptr → Frame
frame_in param_size size new = record {
  frame_size = (size + u64 - param_size) % u64;
  new_stack = align_down (new + header_size + size - param_size);
}

abbrev pub moved_to : Stack → ℕ → ℕ → Frame → Ptr → (Ptr → Segment) → Stack
moved_to st old_stack param_size frame new segment = record {
  segment = segment;
  frame_ptr = new;
  bytes = memcpy st.bytes frame.new_stack old_stack param_size;
}

pub place : Stack → ℕ → ℕ → Ptr × (Ptr → Segment) → Result (Frame × Stack)
place st old_stack param_size (new, segment) =
    let frame = frame_in param_size (segment new).size new in
    guard (frame.new_stack % 16 == 0) Fault.assertion
    >> ok (frame, moved_to st old_stack param_size frame new segment)

-- `seff_mem_allocate_frame`
pub allocate_frame : ℕ → (ℕ → Ptr) → Stack → ℕ → ℕ → ℕ → Result (Frame × Stack)
allocate_frame min_segment_size malloc st frame_size old_stack param_size =
    guard (not (st.frame_ptr == null)) Fault.assertion
    >> (next_segment min_segment_size malloc st.segment st.frame_ptr
          ((frame_size + param_size) % u64)
        >>= place st old_stack param_size)

-- `seff_mem_release_frame` returns the new top of the stack.
pub release_frame : Stack → ℕ × Stack
release_frame st =
    let prev = (st.segment st.frame_ptr).prev in
    (prev + header_size, record st { frame_ptr = prev })

-- The first loop of `seff_coroutine_release` of src/seff.c, on fuel.
unfoldable pub rewind : ℕ → (Ptr → Segment) → Ptr → Option Ptr
rewind zero segment a = none
rewind (suc fuel) segment a =
    let rest = rewind fuel segment (segment a).prev in
    if not (a == null) && not ((segment a).prev == null) then rest else some a

-- The second loop: what it frees, in order.
unfoldable pub free_all : ℕ → (Ptr → Segment) → Ptr → Option (List Ptr)
free_all zero segment a = none
free_all (suc fuel) segment a =
    let rest = free_all fuel segment (segment a).next in
    if not (a == null) then Option.map (λ l. a ∷ l) rest else some []

-- `seff_coroutine_release`
unfoldable pub release : ℕ → Stack → Option (List Ptr)
unfolding rewind free_all
release fuel st = elim (rewind fuel st.segment st.frame_ptr) [
  | none ↦ none
  | some first ↦ free_all fuel st.segment first
]
