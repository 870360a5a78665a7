-- ===== src/Runtime/Switch.antt =====
-- A switch into a coroutine and out of it again, seen from the one who made it.
use libseff.Base.{ℕ, ◌≡◌, ◌≢◌, refl, sym, subst, ap}
use libseff.Base.Memory.{update_self, update_ne}
use libseff.Runtime.{
  Ptr, State, Coroutine, Machine, returned, return_effect_id, resume, yield, exit, push_result,
  finish,
}

-- Between two switches the coroutine's code runs, and whatever else; it does not touch the record of
-- the coroutine but by switches.
abbrev pub Untouched : Machine → Machine → Ptr → Type 0
Untouched m m' k = m'.coroutine k ≡ m.coroutine k

-- The thread goes on as the machine `m` was when it called the switch, with a request in its result
-- registers: from the return address, with the stack and the preserved registers as they were.
pub record Resumes (m : Machine) (effect payload : ℕ) (m' : Machine) : Type 0 where
  pub registers : m'.registers ≡ returned m
  pub stack_top : m'.stack_top ≡ m.stack_top
  pub current : m'.current ≡ m.current
  pub effect_eq : m'.rax ≡ effect
  pub payload_eq : m'.rdx ≡ payload

module _ (m : Machine) (k : Ptr) (arg handled : ℕ) where
  resumed_coroutine : (resume m k arg handled).coroutine k ≡ record (m.coroutine k) {
    handled_effects = handled;
    parent_coroutine = m.current;
    resume_point = record ((m.coroutine k).resume_point) {
      stack_top = m.stack_top;
      registers = returned m;
    };
  }
  unfolding resume
  resumed_coroutine = update_self m.coroutine k _

  -- Whatever a resumed coroutine does, when it yields to its resumer, the resumer goes on from its
  -- call, with the yielded effect and payload.
  pub yield-Resumes :
      (m' : Machine) (effect payload : ℕ)
      → Untouched (resume m k arg handled) m' k
      → Resumes m effect payload (yield m' k effect payload)
  unfolding yield
  yield-Resumes m' effect payload same =
      rw (same, resumed_coroutine)
        (record {
          registers = refl;
          stack_top = refl;
          current = refl;
          effect_eq = refl;
          payload_eq = refl;
        })

  -- So it does when the coroutine exits, which leaves the coroutine finished.
  pub exit-Resumes :
      (m' : Machine) (effect result : ℕ)
      → Untouched (resume m k arg handled) m' k
      → Resumes m effect result (exit m' k effect result)
        × (((exit m' k effect result).coroutine k).state ≡ State.finished)
  unfolding exit
  exit-Resumes m' effect result same = (
    rw (same, resumed_coroutine)
        (record {
          registers = refl;
          stack_top = refl;
          current = refl;
          effect_eq = refl;
          payload_eq = refl;
        }),
    ap (λ (c : Coroutine). c.state) (update_self m'.coroutine k _),
  )

  -- So it does when the coroutine's function returns to `coroutine_prelude`, whose %r13 the function
  -- has preserved: the request is the return effect, with the function's result.
  pub finish-Resumes :
      (m' : Machine) (result : ℕ)
      → Untouched (resume m k arg handled) m' k
      → m'.registers.r13 ≡ k
      → Resumes m return_effect_id result (finish m' result)
  unfolding finish
  finish-Resumes m' result same r13 =
      subst
        (λ t.
          Resumes m return_effect_id result
            (exit (push_result m' result) t return_effect_id result))
        (sym r13) ((exit-Resumes (push_result m' result) return_effect_id result same).0)

module _ (m : Machine) (k : Ptr) (effect payload : ℕ) where
  -- A coroutine that yielded, once it is resumed, goes on from its call with the argument as the
  -- result, in the stack and the registers that it had; the innermost coroutine is again the one
  -- that yielded, and the resumer is the parent, with the effects that it handles.
  pub resume-Resumes :
      (m' : Machine) (arg handled : ℕ)
      → Untouched (yield m k effect payload) m' k
      → Resumes m arg handled (resume m' k arg handled)
        × (((resume m' k arg handled).coroutine k).parent_coroutine ≡ m'.current)
        × (((resume m' k arg handled).coroutine k).handled_effects ≡ handled)
  unfolding resume yield
  resume-Resumes m' arg handled same = (
    rw (same, update_self m.coroutine k)
        (record {
          registers = refl;
          stack_top = refl;
          current = refl;
          effect_eq = refl;
          payload_eq = refl;
        }),
    ap (λ (c : Coroutine). c.parent_coroutine) (update_self m'.coroutine k _),
    ap (λ (c : Coroutine). c.handled_effects) (update_self m'.coroutine k _),
  )

  -- `seff_resume` does not test the state: resuming a coroutine that has exited jumps to address 0.
  pub resume_finished :
      (m' : Machine) (arg handled : ℕ)
      → Untouched (exit m k effect payload) m' k
      → (resume m' k arg handled).registers.ip ≡ 0
  unfolding resume exit
  resume_finished m' arg handled same = rw (same, update_self m.coroutine k)

-- A switch changes the record of its coroutine alone.
module _ (m : Machine) (k j : Ptr) (a b : ℕ) (ne : k ≢ j) where
  pub resume_frame : (resume m k a b).coroutine j ≡ m.coroutine j
  unfolding resume
  resume_frame = update_ne m.coroutine k _ j ne

  pub yield_frame : (yield m k a b).coroutine j ≡ m.coroutine j
  unfolding yield
  yield_frame = update_ne m.coroutine k _ j ne
