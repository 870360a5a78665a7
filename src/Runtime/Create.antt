-- ===== src/Runtime/Create.antt =====
-- Making and deleting coroutines, and resuming with every effect handled: src/seff.c on the segmented
-- stacks of src/mem/seff_mem_segmented.c.
use mathlib.Core.Option
use libseff.Base.{
  ℕ, zero, suc, ℕ_discrete, Bool, ◌&&◌, ◌+◌, ◌-◌, ◌%◌, ◌^◌, ◌<◌, ◌≡◌, ◌≢◌, refl, ◌∙◌, arith, not,
  ◌==◌, true, false, bit_and, Option, some, List, [], ◌∷◌, ◌++◌, length,
}
use libseff.Base.Result.{Fault, Result, ok, err, ◌>>=◌, ◌>>◌, guard}
use libseff.Stack.{Segment, Stack, init_segment, release, rewind, free_all}
use libseff.Runtime.{Ptr, null, u64, Coroutine, Machine, resume}
use libseff.Runtime.Init.{
  overhead, started, on_stack, IsReady, request, block, started-IsReady, on_stack-started, frame_eq,
  init_segment-block,
}
use libseff.Runtime.Handlers.{effect_mask, locate_handler, max_effects}
use libseff.Runtime.Scope.{Chain, AllNe, resumed_handler}

-- `~0`, as an `effect_set`
abbrev pub all_effects : ℕ
all_effects = 2 ^ 64 - 1

-- `seff_resume_handling_all`
unfoldable pub resume_handling_all : Machine → Ptr → ℕ → Machine
unfolding resume
resume_handling_all m k arg = resume m k arg all_effects

-- `seff_coroutine_new_sized`, where `k` is what malloc answers for the coroutine, with the header of
-- its stack; `seff_coroutine_init_sized` stores into the coroutine once the stack is there.
unfoldable pub new_sized :
    (ℕ → Ptr) → Coroutine → Ptr → Ptr → Ptr → Ptr → ℕ → Result (Coroutine × Segment)
unfolding init_segment on_stack
new_sized malloc old k prelude fn arg frame_size = do
  (stack, header) ← init_segment malloc ((frame_size + overhead) % u64)
  guard (not (k == null)) Fault.null_pointer
  co ← on_stack old k prelude fn arg frame_size (stack, header)
  ok (co, header)

-- `seff_coroutine_new`
unfoldable pub new :
    ℕ → (ℕ → Ptr) → Coroutine → Ptr → Ptr → Ptr → Ptr → Result (Coroutine × Segment)
unfolding new_sized
new default_frame_size malloc old k prelude fn arg =
    new_sized malloc old k prelude fn arg default_frame_size

-- `seff_coroutine_delete`: what it frees, in order.
unfoldable pub delete : ℕ → Stack → Ptr → Option (List Ptr)
unfolding release
delete fuel st k = Option.map (λ freed. freed ++ k ∷ []) (release fuel st)

-- The stack of one coroutine that is alone in memory.
abbrev pub alone : Ptr → Segment → Stack
alone stack header = record { segment = λ p. header; frame_ptr = stack; bytes = λ a. 0 }

module _ (malloc : ℕ → Ptr) (old : Coroutine) (k prelude fn arg : Ptr) (frame_size : ℕ) where
  new_sized-started :
      request malloc old k prelude fn arg frame_size < 2 ^ 31
      → malloc (request malloc old k prelude fn arg frame_size) ≢ null
      → k ≢ null
      → new_sized malloc old k prelude fn arg frame_size
        ≡ ok (
          started old k prelude fn arg frame_size (block malloc old k prelude fn arg frame_size),
          (block malloc old k prelude fn arg frame_size).1,
        )
  unfolding new_sized
  new_sized-started small some_stack some_coroutine =
      rw
        (
          frame_eq malloc old k prelude fn arg frame_size (omega arith),
          init_segment-block malloc old k prelude fn arg frame_size small some_stack,
          given,
          on_stack-started malloc old k prelude fn arg frame_size,
        )
        refl
    where
      given : (k == null) ≡ false
      given = ground arith

  rewind-alone :
      (stack : Ptr) (size : ℕ)
      → stack ≢ null
      → rewind 2 (alone stack (record { prev = null; next = null; size = size })).segment stack
        ≡ some stack
  unfolding rewind
  rewind-alone stack size some_stack = rw given refl
    where
      given : (stack == null) ≡ false
      given = ground arith

  free_all-alone :
      (stack : Ptr) (size : ℕ)
      → stack ≢ null
      → free_all 2 (alone stack (record { prev = null; next = null; size = size })).segment stack
        ≡ some (stack ∷ [])
  unfolding free_all
  free_all-alone stack size some_stack = rw given refl
    where
      given : (stack == null) ≡ false
      given = ground arith

  delete-alone :
      (stack : Ptr) (size : ℕ)
      → stack ≢ null
      → delete 2 (alone stack (record { prev = null; next = null; size = size })) k
        ≡ some (stack ∷ k ∷ [])
  unfolding delete
  delete-alone stack size some_stack =
      rw (release, rewind-alone stack size some_stack, free_all-alone stack size some_stack) refl

  -- With memory for a coroutine and for its stack, and a frame that with its header stays below 2^31
  -- bytes, `seff_coroutine_new_sized` makes a coroutine that is ready to run, and
  -- `seff_coroutine_delete` then frees the two blocks that were allocated, each once, and ends.
  pub new_sized-delete :
      request malloc old k prelude fn arg frame_size < 2 ^ 31
      → malloc (request malloc old k prelude fn arg frame_size) ≢ null
      → k ≢ null
      → (co : Coroutine) × (header : Segment) × (new_sized malloc old k prelude fn arg frame_size
          ≡ ok (co, header))
        × IsReady k prelude fn arg frame_size (request malloc old k prelude fn arg frame_size) co
        × (delete 2 (alone co.frame_ptr header) k
            ≡ some (malloc (request malloc old k prelude fn arg frame_size) ∷ k ∷ []))
  new_sized-delete small some_stack some_coroutine = (
    started old k prelude fn arg frame_size (block malloc old k prelude fn arg frame_size),
    (block malloc old k prelude fn arg frame_size).1,
    new_sized-started small some_stack some_coroutine,
    started-IsReady malloc old k prelude fn arg frame_size,
    delete-alone (malloc (request malloc old k prelude fn arg frame_size)) (frame_size + overhead)
        some_stack,
  )

  -- With memory for the stack but none for the coroutine, `seff_coroutine_new_sized` stores through
  -- NULL, for every frame that with its header stays below 2^31 bytes.
  pub new_sized-null :
      request malloc old k prelude fn arg frame_size < 2 ^ 31
      → malloc (request malloc old k prelude fn arg frame_size) ≢ null
      → k ≡ null
      → new_sized malloc old k prelude fn arg frame_size ≡ err Fault.null_pointer
  unfolding new_sized
  new_sized-null small some_stack no_coroutine =
      rw
        (
          frame_eq malloc old k prelude fn arg frame_size (omega arith),
          init_segment-block malloc old k prelude fn arg frame_size small some_stack,
          no_coroutine,
        )
        refl

-- The first `n` effects are in the set of all.
in_all : ℕ → Bool
in_all zero = true
in_all (suc n) = not (bit_and all_effects (effect_mask n) == 0) && in_all n

in_all-max_effects : in_all max_effects ≡ true
unfolding in_all
in_all-max_effects = refl

in_all-mask :
    (n effect : ℕ)
    → in_all n ≡ true
    → effect < n
    → (bit_and all_effects (effect_mask effect) == 0) ≡ false
unfolding in_all
in_all-mask zero effect e small = absurd (omega arith)
in_all-mask (suc n) effect e small = elim (ℕ_discrete effect n) [
  | yes last ↦ rw last (both _ _ e).0
  | no below ↦ in_all-mask n effect (both _ _ e).1 (omega arith)
]
  where
    both : (a b : Bool) → (not a && b) ≡ true → (a ≡ false) × (b ≡ true)
    both true b f = cc
    both false b f = (refl, f)

-- Every effect that a new coroutine performs is handled by the caller of
-- `seff_resume_handling_all`, from outside the other running coroutines: `seff_locate_handler` finds
-- the coroutine itself, for each of the 64 effects.
pub resume_handling_all-handles :
    (fuel : ℕ) (m : Machine) (k : Ptr) (arg effect : ℕ) (r : List Ptr)
    → k ≢ null
    → (m.coroutine k).resume_point.current_coroutine ≡ k
    → Chain m.coroutine m.current r
    → AllNe k r
    → length r + 1 < fuel
    → effect < max_effects
    → locate_handler fuel (resume_handling_all m k arg) effect ≡ some k
unfolding resume_handling_all
resume_handling_all-handles fuel m k arg effect r some_coroutine own chain other enough small =
    resumed_handler fuel m k arg all_effects effect r some_coroutine own chain other enough
      (omega arith)
    ∙ rw (in_all-mask max_effects effect in_all-max_effects small) refl
