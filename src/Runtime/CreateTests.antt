-- ===== src/Runtime/CreateTests.antt =====
-- Coroutines made, deleted and resumed on small memories, and settings read.
use libseff.Base.{ℕ, ◌≡◌, refl, arith, none, some, [], ◌∷◌}
use libseff.Base.Result.{Fault, ok, err}
use libseff.Stack.{Segment}
use libseff.Runtime.{Ptr, null, State, Registers, Coroutine, Machine}
use libseff.Runtime.Handlers.{locate_handler}
use libseff.Runtime.Init.{IsReady, started}
use libseff.Runtime.Scope.{outside}
use libseff.Runtime.Create.{
  new_sized, delete, alone, new_sized-delete, resume_handling_all, resume_handling_all-handles,
}
use libseff.Runtime.Settings.{Scan, Sizes, mem_global_init}

abbrev registers : Registers
registers = record { rsp = 8000; rbp = 8; ip = 66; rbx = 1; r12 = 2; r13 = 3; r14 = 4; r15 = 5 }

abbrev old : Coroutine
old = record {
  frame_ptr = 7;
  resume_point = record { stack_top = 9; current_coroutine = 300; registers = registers };
  state = State.finished;
  parent_coroutine = null;
  handled_effects = 0;
}

abbrev memory : ℕ → Ptr
memory n = 4096

new_sized-delete_example :
    (co : Coroutine) × (header : Segment) × (new_sized memory old 300 50 60 70 1001
      ≡ ok (co, header))
    × IsReady 300 50 60 70 1001 1177 co
    × (delete 2 (alone co.frame_ptr header) 300 ≡ some (4096 ∷ 300 ∷ []))
new_sized-delete_example =
    new_sized-delete memory old 300 50 60 70 1001 (omega arith) (omega arith) (omega arith)

no_coroutine : new_sized memory old null 50 60 70 1001 ≡ err Fault.null_pointer
unfolding new_sized
no_coroutine = refl

abbrev main_program : Machine
main_program = record {
  registers = registers;
  rax = 0;
  rdx = 0;
  stack_top = 0;
  current = null;
  system_stack = 0;
  memory = λ a. 0;
  coroutine = λ k. started old 300 50 60 70 1001 (4096, record { prev = 0; next = 0; size = 1017 });
}

resume_handling_all-handles_example :
    locate_handler 2 (resume_handling_all main_program 300 8) 63 ≡ some 300
resume_handling_all-handles_example =
    resume_handling_all-handles 2 main_program 300 8 63 [] (omega arith) refl (outside refl) tt
      (omega arith) (omega arith)

abbrev defaults : Sizes
defaults = record { min_segment_size = 0; syscall_segment_size = 8192; default_frame_size = 1024 }

one_set :
    mem_global_init
      (record {
        libseff_min_segment_size = none;
        libseff_syscall_segment_size = some (Scan.stored 4096);
        libseff_default_frame_size = none;
      })
      defaults
    ≡ ok (record { min_segment_size = 0; syscall_segment_size = 4096; default_frame_size = 1024 })
unfolding mem_global_init
one_set = refl

-- A variable that is set to the empty text.
empty_set :
    mem_global_init
      (record {
        libseff_min_segment_size = some Scan.at_end;
        libseff_syscall_segment_size = none;
        libseff_default_frame_size = none;
      })
      defaults
    ≡ err Fault.undefined
unfolding mem_global_init
empty_set = refl
