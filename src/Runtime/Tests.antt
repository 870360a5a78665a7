-- ===== src/Runtime/Tests.antt =====
-- Runs on small machines: two coroutines, at the addresses 100 and 200.
use libseff.Base.{ℕ, ◌+◌, ◌≡◌, refl, arith, ◌==◌, if◌then◌else◌, some, [], ◌∷◌}
use libseff.Base.Result.{Fault, ok, err}
use libseff.Stack.{init_segment}
use libseff.Runtime.{Ptr, null, State, Registers, Coroutine, Machine, resume, yield}
use libseff.Runtime.Switch.{Resumes, yield-Resumes, resume-Resumes}
use libseff.Runtime.Handlers.{Table, initial_table, locate_handler, switched, perform, throw}
use libseff.Runtime.Scope.{Chain, outside, inside, locate_handler-first}
use libseff.Runtime.Defaults.{perform_lem, unhandled_null}
use libseff.Runtime.Init.{init_sized, IsReady, started, started-IsReady}

abbrev registers_at : ℕ → ℕ → Registers
registers_at rsp ip = record {
  rsp = rsp;
  rbp = rsp + 8;
  ip = ip;
  rbx = 1;
  r12 = 2;
  r13 = 100;
  r14 = 4;
  r15 = 5;
}

abbrev coroutine_at : Ptr → ℕ → Coroutine
coroutine_at k parent = record {
  frame_ptr = k + 1000;
  resume_point = record {
    stack_top = k + 1160;
    current_coroutine = k;
    registers = registers_at (k + 1900) 77;
  };
  state = State.paused;
  parent_coroutine = parent;
  handled_effects = if k == 100 then 5 else 2;
}

-- Coroutine 200 runs inside coroutine 100.
abbrev coroutines : Ptr → Coroutine
coroutines k = if k == 200 then coroutine_at 200 100 else coroutine_at k 0

abbrev machine : Ptr → Machine
machine current = record {
  registers = registers_at 8000 66;
  rax = 0;
  rdx = 0;
  stack_top = 0;
  current = current;
  system_stack = 0;
  memory = λ a. a + 1;
  coroutine = coroutines;
}

-- Code that ran and left other values in its registers, but preserved %r13.
abbrev ran : Machine → Machine
ran m = record m { registers = registers_at 7000 55; rax = 9; memory = λ a. 0 }

yield-Resumes_example : Resumes (machine 0) 2 8 (yield (ran (resume (machine 0) 100 3 5)) 100 2 8)
yield-Resumes_example =
    yield-Resumes (machine 0) 100 3 5 (ran (resume (machine 0) 100 3 5)) 2 8 refl

resume-Resumes_example :
    Resumes (machine 100) 3 5 (resume (ran (yield (machine 100) 100 2 8)) 100 3 5)
    × (((resume (ran (yield (machine 100) 100 2 8)) 100 3 5).coroutine 100).parent_coroutine
        ≡ (ran (yield (machine 100) 100 2 8)).current)
    × (((resume (ran (yield (machine 100) 100 2 8)) 100 3 5).coroutine 100).handled_effects ≡ 5)
resume-Resumes_example =
    resume-Resumes (machine 100) 100 2 8 (ran (yield (machine 100) 100 2 8)) 3 5 refl

running : Chain coroutines 200 (200 ∷ 100 ∷ [])
running = inside (omega arith) (inside (omega arith) (outside refl))

-- Effect 2 is handled by coroutine 100, outside coroutine 200.
locate_handler-first_example : locate_handler 3 (machine 200) 2 ≡ some 100
locate_handler-first_example =
    locate_handler-first 3 (machine 200) 2 (200 ∷ 100 ∷ []) running (omega arith)

abbrev table : Table
table = initial_table 44

perform_lem_example :
    perform 3 table (machine 200) 2 8 ≡ some (ok (switched (yield (machine 200) 100 2 8)))
perform_lem_example =
    perform_lem 3 table (machine 200) 2 8 (200 ∷ 100 ∷ []) running (omega arith) (omega arith)

unhandled_null_example :
    (perform 3 table (machine 200) 3 8 ≡ some (err Fault.null_pointer))
    × (throw 3 table (machine 200) 3 8 ≡ some (err Fault.null_pointer))
unhandled_null_example =
    unhandled_null 3 44 table (machine 200) 3 8 (200 ∷ 100 ∷ []) running (omega arith) (omega arith)
      (omega arith) refl refl

-- `malloc` that gives every request the block at 4096, and one that has no memory.
abbrev memory : ℕ → Ptr
memory n = 4096

abbrev no_memory : ℕ → Ptr
no_memory n = null

abbrev old : Coroutine
old = coroutine_at 300 0

no_memory_exits : init_sized no_memory old 100 50 60 70 1001 ≡ err Fault.exited
unfolding init_sized init_segment
no_memory_exits = refl

abbrev fresh : Machine
fresh = record (machine 0) {
  coroutine = λ k. started old 100 50 60 70 1001 (4096, record { prev = 0; next = 0; size = 1017 });
}

fresh-IsReady : IsReady 100 50 60 70 1001 1177 (fresh.coroutine 100)
fresh-IsReady = started-IsReady memory old 100 50 60 70 1001
