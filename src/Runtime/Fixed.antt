-- ===== src/Runtime/Fixed.antt =====
-- Coroutines on stacks of a fixed size: `init_stack_frame` of src/mem/seff_mem_fixed.c, and
-- `seff_coroutine_init_sized` and `seff_coroutine_release` of src/seff.c as they are compiled for it, in
-- the debug build.
use libseff.Base.{ℕ, ◌+◌, ◌-◌, ◌%◌, ◌^◌, ◌<◌, ◌≤◌, ◌≡◌, ◌==◌, ltb, if◌then◌else◌, List, [], ◌∷◌}
use libseff.Base.Result.{Fault, Result, ok, err, ◌>>=◌, ◌>>◌, guard}
use libseff.Runtime.{Ptr, null, u64, State, Coroutine}
use libseff.Runtime.Init.{overhead}

-- `init_stack_frame`, with the stack pointer that it sets; the loop that fills the block counts with an
-- `int`.
unfoldable pub init_stack_frame : (ℕ → Ptr) → ℕ → Result (Ptr × ℕ)
init_stack_frame malloc frame_size =
    if malloc frame_size == null
    then err Fault.exited
    else (guard (ltb frame_size (2 ^ 31)) Fault.undefined
        >> ok (malloc frame_size, malloc frame_size + frame_size))

-- The coroutine once its stack is allocated; there is no `stack_top` to set.
abbrev pub started_fixed : Coroutine → Ptr → Ptr → Ptr → Ptr → Ptr × ℕ → Coroutine
started_fixed old k prelude fn arg (stack, rsp) = record old {
  frame_ptr = stack;
  state = State.paused;
  resume_point = record (old.resume_point) {
    current_coroutine = k;
    registers = record {
      rsp = rsp - rsp % 16;
      rbp = null;
      ip = prelude;
      rbx = 3402283963;
      r12 = 3402240530;
      r13 = k;
      r14 = arg;
      r15 = fn;
    };
  };
}

unfoldable pub on_fixed_stack : Coroutine → Ptr → Ptr → Ptr → Ptr → Ptr × ℕ → Result Coroutine
on_fixed_stack old k prelude fn arg block =
    let co = started_fixed old k prelude fn arg block in
    guard (co.resume_point.registers.rsp % 16 == 0) Fault.assertion >> ok co

-- `seff_coroutine_init_sized`
unfoldable pub init_sized_fixed :
    (ℕ → Ptr) → Coroutine → Ptr → Ptr → Ptr → Ptr → ℕ → Result Coroutine
unfolding init_stack_frame on_fixed_stack
init_sized_fixed malloc old k prelude fn arg frame_size =
    init_stack_frame malloc ((frame_size + overhead) % u64) >>= on_fixed_stack old k prelude fn arg

-- `seff_coroutine_release`: what it frees.
unfoldable pub release_fixed : Coroutine → List Ptr
release_fixed co = co.frame_ptr ∷ []

-- What a resume finds: a stack that is aligned, within its block of `n` bytes, and has at least
-- `frame_size` bytes; a release frees that block.
pub record IsReadyFixed (k prelude fn arg block : Ptr) (frame_size n : ℕ) (co : Coroutine)
    : Type 0 where
  pub paused : co.state ≡ State.paused
  pub own : co.resume_point.current_coroutine ≡ k
  pub starts : co.resume_point.registers.ip ≡ prelude
  pub self : co.resume_point.registers.r13 ≡ k
  pub argument : co.resume_point.registers.r14 ≡ arg
  pub function : co.resume_point.registers.r15 ≡ fn
  pub is_aligned : co.resume_point.registers.rsp % 16 ≡ 0
  pub room : block + frame_size < co.resume_point.registers.rsp
  pub in_block : co.resume_point.registers.rsp ≤ block + n
  pub released : release_fixed co ≡ block ∷ []

module _ (malloc : ℕ → Ptr) (old : Coroutine) (k prelude fn arg : Ptr) (frame_size : ℕ) where
  wanted : ℕ
  wanted = frame_size + overhead

  abbrev fixed_block : Ptr × ℕ
  fixed_block =
      (malloc (frame_size + overhead), malloc (frame_size + overhead) + (frame_size + overhead))
