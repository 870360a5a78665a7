-- ===== src/Runtime/Defaults.antt =====
-- Performing and throwing: which branch is taken, and what the default handlers hold.
use libseff.Base.{
  ℕ, ◌<◌, ◌≡◌, ◌≢◌, refl, ap, ◌∙◌, arith, false, ◌==◌, if◌then◌else◌, some, List, length,
}
use libseff.Base.Result.{Fault, ok, err}
use libseff.Base.Memory.{update}
use libseff.Runtime.{Ptr, null, Machine, return_effect_id, yield, exit}
use libseff.Runtime.Handlers.{
  effect_mask, handles, locate_handler, max_effects, Table, initial_table, get_default_handler,
  set_default_handler, switched, call, call_and_exit, call_pointer, perform_to, throw_to, perform,
  throw,
}
use libseff.Runtime.Scope.{Chain, first, locate_handler-first}

-- The coroutine that handles an effect, on a chain of running coroutines.
abbrev pub handler_in : Machine → ℕ → List Ptr → Ptr
handler_in m effect l = first (handles m.coroutine (effect_mask effect)) l

pub located :
    (fuel : ℕ) (m : Machine) (effect : ℕ) (l : List Ptr)
    → Chain m.coroutine m.current l
    → length l < fuel
    → effect < max_effects
    → locate_handler fuel m effect ≡ some (handler_in m effect l)
located fuel m effect l c h small = locate_handler-first fuel m effect l c h ∙ rw not_return refl
  where
    not_return : (effect == return_effect_id) ≡ false
    not_return = ground arith

perform_to_lem :
    (table : Table) (m : Machine) (handler : Ptr) (effect payload : ℕ)
    → effect < max_effects
    → perform_to table m handler effect payload ≡ (
        if handler == null
        then call_pointer call payload (table effect)
        else ok (switched (yield m handler effect payload)))
unfolding perform_to get_default_handler
perform_to_lem table m handler effect payload small = ground arith

throw_to_lem :
    (table : Table) (m : Machine) (handler : Ptr) (effect payload : ℕ)
    → effect < max_effects
    → throw_to table m handler effect payload ≡ (
        if handler == null
        then call_pointer call_and_exit payload (table effect)
        else ok (switched (exit m handler effect payload)))
unfolding throw_to get_default_handler
throw_to_lem table m handler effect payload small = ground arith

-- On a finite chain of running coroutines, with fuel above its length, performing an effect below 64
-- ends. If a coroutine of the chain handles it, the innermost such yields it; if none does, the default
-- handler is called in place, which is a call through NULL if the table has none.
pub perform_lem :
    (fuel : ℕ) (table : Table) (m : Machine) (effect payload : ℕ) (l : List Ptr)
    → Chain m.coroutine m.current l
    → length l < fuel
    → effect < max_effects
    → perform fuel table m effect payload
      ≡ some (
          if handler_in m effect l == null
          then call_pointer call payload (table effect)
          else ok (switched (yield m (handler_in m effect l) effect payload)))
unfolding perform
perform_lem fuel table m effect payload l c h small =
    rw (located fuel m effect l c h small, perform)
      (ap some (perform_to_lem table m (handler_in m effect l) effect payload small))

-- Throwing likewise exits the innermost such coroutine, or calls the default handler, after which the
-- process exits.
pub throw_lem :
    (fuel : ℕ) (table : Table) (m : Machine) (effect payload : ℕ) (l : List Ptr)
    → Chain m.coroutine m.current l
    → length l < fuel
    → effect < max_effects
    → throw fuel table m effect payload
      ≡ some (
          if handler_in m effect l == null
          then call_pointer call_and_exit payload (table effect)
          else ok (switched (exit m (handler_in m effect l) effect payload)))
unfolding throw
throw_lem fuel table m effect payload l c h small =
    rw (located fuel m effect l c h small, throw)
      (ap some (throw_to_lem table m (handler_in m effect l) effect payload small))

-- A default handler that was set is the one that is got, the others stay, and setting returns the
-- former one.
pub set-get_default :
    (table : Table) (effect other : ℕ) (handler : Ptr)
    → effect < max_effects
    → other < max_effects
    → (t : Table) × (set_default_handler table effect handler ≡ ok (table effect, t))
      × (get_default_handler t effect ≡ ok handler)
      × (effect ≢ other → get_default_handler t other ≡ get_default_handler table other)
unfolding set_default_handler get_default_handler
set-get_default table effect other handler lt lt' =
    (update table effect handler, ground arith, ground arith, λ ne. ground arith)

-- On a finite chain of running coroutines, with fuel above its length: an effect from 1 to 63 that none
-- of them handles, and whose entry in the table is as the initialiser left it, whatever the other
-- entries are, is performed, and thrown, through NULL.
pub unhandled_null :
    (fuel : ℕ) (unhandled : Ptr) (table : Table) (m : Machine) (effect payload : ℕ) (l : List Ptr)
    → Chain m.coroutine m.current l
    → length l < fuel
    → 0 < effect
    → effect < max_effects
    → handler_in m effect l ≡ null
    → table effect ≡ initial_table unhandled effect
    → (perform fuel table m effect payload ≡ some (err Fault.null_pointer))
      × (throw fuel table m effect payload ≡ some (err Fault.null_pointer))
unhandled_null fuel unhandled table m effect payload l c h pos small none_handles unset = (
  perform_lem fuel table m effect payload l c h small ∙ rw (none_handles, unset) (ground arith),
  throw_lem fuel table m effect payload l c h small ∙ rw (none_handles, unset) (ground arith),
)
