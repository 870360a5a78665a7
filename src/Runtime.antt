-- ===== src/Runtime.antt =====
-- The coroutine runtime: the structures of src/seff_types.h (as decls/seff_types.py declares them
-- for x86-64 and segmented stacks), and the context switches of asm/seff.S. A machine is what the
-- switches read and write: the registers that a callee must preserve, those that carry results, the
-- thread-local variables, the words of the stacks, and the coroutines at their addresses. Scratch
-- registers are left out: the switches overwrite them, and no caller may rely on them.
pub mod Handlers
pub mod Init
pub mod Create
pub mod Settings
pub mod Fixed
pub mod CreateTests
pub mod Switch
pub mod Scope
pub mod Defaults
pub mod Tests
use libseff.Base.{ℕ, ◌+◌, ◌-◌, ◌^◌, ◌==◌, if◌then◌else◌, ◌≡◌}
use libseff.Base.Memory.{update}

abbrev pub Ptr : Type 0
Ptr = ℕ

abbrev pub null : Ptr
null = 0

-- `seff_coroutine_state_t`
pub data State : Type 0 where
  finished paused running : State

-- The registers that a callee preserves, and the stack and instruction pointers.
pub record Registers : Type 0 where
  pub rsp : ℕ
  pub rbp : ℕ
  pub ip : ℕ
  pub rbx : ℕ
  pub r12 : ℕ
  pub r13 : ℕ
  pub r14 : ℕ
  pub r15 : ℕ

-- `seff_cont_t`
pub record Cont : Type 0 where
  pub stack_top : ℕ
  pub current_coroutine : Ptr
  pub registers : Registers

-- `seff_coroutine_t`
pub record Coroutine : Type 0 where
  pub frame_ptr : Ptr
  pub resume_point : Cont
  pub state : State
  pub parent_coroutine : Ptr
  pub handled_effects : ℕ

-- `stack_top` is the word at %fs:0x70; `rax` and `rdx` carry a `seff_request_t`.
pub record Machine : Type 0 where
  pub registers : Registers
  pub rax : ℕ
  pub rdx : ℕ
  pub stack_top : ℕ
  pub current : Ptr
  pub system_stack : ℕ
  pub memory : ℕ → ℕ
  pub coroutine : Ptr → Coroutine

abbrev pub u64 : ℕ
u64 = 2 ^ 64

abbrev pub return_effect_id : ℕ
return_effect_id = 2 ^ 64 - 1

-- `popq %r11`: the return address, and the registers once it is off the stack and the caller is
-- about to go on from it.
abbrev pub returned : Machine → Registers
returned m = record (m.registers) { rsp = m.registers.rsp + 8; ip = m.memory m.registers.rsp }

-- `seff_resume`, entered by a call: the return address is on top of the stack.
pub resume : Machine → Ptr → ℕ → ℕ → Machine
resume m k arg handled =
    let co = m.coroutine k in
    let saved = returned m in
    record m {
      registers = co.resume_point.registers;
      rax = arg;
      rdx = handled;
      stack_top = co.resume_point.stack_top;
      current = co.resume_point.current_coroutine;
      system_stack = if m.current == null then saved.rsp else m.system_stack;
      coroutine = update m.coroutine k (record co {
        handled_effects = handled;
        parent_coroutine = m.current;
        resume_point = record (co.resume_point) { stack_top = m.stack_top; registers = saved };
      });
    }

-- `seff_yield`, entered by a call.
pub yield : Machine → Ptr → ℕ → ℕ → Machine
yield m self effect payload =
    let co = m.coroutine self in
    record m {
      registers = co.resume_point.registers;
      rax = effect;
      rdx = payload;
      stack_top = co.resume_point.stack_top;
      current = co.parent_coroutine;
      coroutine = update m.coroutine self (record co {
        resume_point = record {
          stack_top = m.stack_top;
          current_coroutine = m.current;
          registers = returned m;
        };
      });
    }

-- `seff_exit`, in the debug build, which cleans up three of the saved registers. `swap_registers`
-- leaves the others of the coroutine that ends in its resume point.
pub exit : Machine → Ptr → ℕ → ℕ → Machine
exit m k effect result =
    let co = m.coroutine k in
    record m {
      registers = co.resume_point.registers;
      rax = effect;
      rdx = result;
      stack_top = co.resume_point.stack_top;
      current = co.parent_coroutine;
      coroutine = update m.coroutine k (record co {
        state = State.finished;
        resume_point = record (co.resume_point) {
          registers = record (m.registers) { ip = 0; rbp = 0; rsp = 0 };
        };
      });
    }

-- `pushq %rax` at the end of `coroutine_prelude`.
abbrev pub push_result : Machine → ℕ → Machine
push_result m result = record m {
  registers = record (m.registers) { rsp = m.registers.rsp - 8 };
  memory = update m.memory (m.registers.rsp - 8) result;
}

-- The end of `coroutine_prelude`, which the coroutine's function returns to: the result is pushed,
-- and the coroutine in %r13 exits with the return effect.
pub finish : Machine → ℕ → Machine
unfolding exit
finish m result = exit (push_result m result) m.registers.r13 return_effect_id result
