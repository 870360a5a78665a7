-- ===== src/Runtime/Init.antt =====
-- New coroutines: `seff_coroutine_init_sized` of src/seff.c on the segmented stacks of
-- src/mem/seff_mem_segmented.c.
use libseff.Base.{ℕ, ◌+◌, ◌-◌, ◌%◌, ◌^◌, ◌<◌, ◌≤◌, ◌≡◌, ◌≢◌, refl, arith, true, ◌==◌}
use libseff.Base.Result.{Fault, Result, ok, ◌>>=◌, ◌>>◌, guard}
use libseff.Stack.{Segment, header_size, block_size, init_segment, stack_end}
use libseff.Runtime.{Ptr, null, u64, State, Coroutine, Machine, resume}

-- What `coroutine_prelude` needs for its call.
abbrev pub overhead : ℕ
overhead = 16

-- The coroutine once its stack is allocated; `old` is what the memory held, and the fields that are
-- not set keep it.
abbrev pub started : Coroutine → Ptr → Ptr → Ptr → Ptr → ℕ → Ptr × Segment → Coroutine
started old k prelude fn arg frame_size (stack, segment) =
    let rsp = stack_end (stack, segment) in
    record old {
      frame_ptr = stack;
      state = State.paused;
      resume_point = record {
        stack_top = rsp - frame_size - overhead;
        current_coroutine = k;
        registers = record {
          rsp = rsp - rsp % 16;
          rbp = null;
          ip = prelude;
          rbx = 3402283963;
          r12 = 3402240530;
          r13 = k;
          r14 = arg;
          r15 = fn;
        };
      };
    }

-- The assertion at the end.
unfoldable pub on_stack : Coroutine → Ptr → Ptr → Ptr → Ptr → ℕ → Ptr × Segment → Result Coroutine
on_stack old k prelude fn arg frame_size block =
    let co = started old k prelude fn arg frame_size block in
    guard (co.resume_point.registers.rsp % 16 == 0) Fault.assertion >> ok co

-- `seff_coroutine_init_sized`; `prelude` is the address of `coroutine_prelude`.
unfoldable pub init_sized : (ℕ → Ptr) → Coroutine → Ptr → Ptr → Ptr → Ptr → ℕ → Result Coroutine
unfolding init_segment
init_sized malloc old k prelude fn arg frame_size =
    init_segment malloc ((frame_size + overhead) % u64) >>= on_stack old k prelude fn arg frame_size

-- What a resume finds in a coroutine `k` that is to call `fn` on `arg`: its stack lies in the block
-- of `n` bytes at `frame_ptr`, behind the header, is aligned, and has `frame_size` bytes and one
-- more before `stack_top`.
pub record IsReady (k prelude fn arg : Ptr) (frame_size n : ℕ) (co : Coroutine) : Type 0 where
  pub paused : co.state ≡ State.paused
  pub own : co.resume_point.current_coroutine ≡ k
  pub starts : co.resume_point.registers.ip ≡ prelude
  pub self : co.resume_point.registers.r13 ≡ k
  pub argument : co.resume_point.registers.r14 ≡ arg
  pub function : co.resume_point.registers.r15 ≡ fn
  pub is_aligned : co.resume_point.registers.rsp % 16 ≡ 0
  pub top : co.resume_point.stack_top ≡ co.frame_ptr + header_size
  pub room : co.resume_point.stack_top + frame_size < co.resume_point.registers.rsp
  pub in_block : co.resume_point.registers.rsp ≤ co.frame_ptr + n

module _ (malloc : ℕ → Ptr) (old : Coroutine) (k prelude fn arg : Ptr) (frame_size : ℕ) where
  abbrev pub request : ℕ
  request = frame_size + overhead + header_size

  abbrev pub block : Ptr × Segment
  block = (malloc request, record { prev = null; next = null; size = frame_size + overhead })

  pub started-IsReady :
      IsReady k prelude fn arg frame_size request (started old k prelude fn arg frame_size block)
  started-IsReady = record {
    paused = refl;
    own = refl;
    starts = refl;
    self = refl;
    argument = refl;
    function = refl;
    is_aligned = omega arith;
    top = omega arith;
    room = omega arith;
    in_block = omega arith;
  }

  pub on_stack-started :
      on_stack old k prelude fn arg frame_size block
      ≡ ok (started old k prelude fn arg frame_size block)
  unfolding on_stack
  on_stack-started = rw aligned refl
    where
      aligned :
          ((started old k prelude fn arg frame_size block).resume_point.registers.rsp % 16 == 0)
          ≡ true
      aligned = ground arith

  pub frame_eq : request < u64 → (frame_size + overhead) % u64 ≡ frame_size + overhead
  frame_eq small = omega arith

  pub block_eq : request < u64 → block_size (frame_size + overhead) ≡ request
  block_eq small = omega arith

  pub init_segment-block :
      request < 2 ^ 31
      → malloc request ≢ null
      → init_segment malloc (frame_size + overhead) ≡ ok block
  unfolding init_segment
  init_segment-block small n = rw (block_eq (omega arith)) (ground arith)

-- The first resume of a coroutine that is ready enters `coroutine_prelude` with the coroutine, its
-- function and its argument in the registers, on its own aligned stack, as the current coroutine.
pub resume-IsReady :
    (m : Machine) (k prelude fn arg : Ptr) (frame_size n value handled : ℕ)
    → IsReady k prelude fn arg frame_size n (m.coroutine k)
    → ((resume m k value handled).registers.ip ≡ prelude)
      × ((resume m k value handled).registers.r13 ≡ k)
      × ((resume m k value handled).registers.r14 ≡ arg)
      × ((resume m k value handled).registers.r15 ≡ fn)
      × ((resume m k value handled).registers.rsp % 16 ≡ 0)
      × ((resume m k value handled).stack_top + frame_size
          < (resume m k value handled).registers.rsp)
      × ((resume m k value handled).current ≡ k)
unfolding resume
resume-IsReady m k prelude fn arg frame_size n value handled r =
    (r.starts, r.self, r.argument, r.function, r.is_aligned, r.room, r.own)
