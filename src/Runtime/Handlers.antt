-- ===== src/Runtime/Handlers.antt =====
-- Effects in src/seff.c and src/seff.h: which coroutine handles an effect, what performing or
-- throwing it does, and the default handlers.
use libseff.Base.{
  ℕ, zero, suc, ◌%◌, ◌^◌, bit_and, Bool, not, ◌==◌, ltb, if◌then◌else◌, Option, none, some,
}
use libseff.Base.Result.{Fault, Result, ok, err, ◌>>=◌, guard}
use libseff.Base.Memory.{update}
use libseff.Runtime.{Ptr, null, Coroutine, Machine, return_effect_id, yield, exit}

-- `1UL << effect`: the processor takes the count of the shift modulo 64.
abbrev pub effect_mask : ℕ → ℕ
effect_mask effect = 2 ^ (effect % 64)

-- `k->handled_effects & mask`
abbrev pub handles : (Ptr → Coroutine) → ℕ → Ptr → Bool
handles co mask k = not (bit_and (co k).handled_effects mask == 0)

-- The loop of `seff_locate_handler`, on fuel; `none` means that the fuel ran out.
unfoldable pub find_handler : ℕ → (Ptr → Coroutine) → ℕ → Ptr → Option Ptr
find_handler zero co mask k = none
find_handler (suc fuel) co mask k =
    let outer = find_handler fuel co mask (co k).parent_coroutine in
    if k == null then some k else if not (handles co mask k) then outer else some k

-- `seff_locate_handler`; every coroutine handles the return effect.
unfoldable pub locate_handler : ℕ → Machine → ℕ → Option Ptr
unfolding find_handler
locate_handler fuel m effect =
    if not (effect == return_effect_id)
    then find_handler fuel m.coroutine (effect_mask effect) m.current
    else some m.current

abbrev pub max_effects : ℕ
max_effects = 64

-- The table `default_handlers`, of code addresses.
abbrev pub Table : Type 0
Table = ℕ → Ptr

-- The initialiser `{unhandled_effect_handler}` names the first entry; C fills the rest with NULL.
abbrev pub initial_table : Ptr → Table
initial_table unhandled effect = if effect == 0 then unhandled else null

-- `seff_get_default_handler`; an index past the table has no meaning.
unfoldable pub get_default_handler : Table → ℕ → Result Ptr
get_default_handler table effect =
    guard (ltb effect max_effects) Fault.undefined >>= λ _. ok (table effect)

-- `seff_set_default_handler` returns the former handler.
unfoldable pub set_default_handler : Table → ℕ → Ptr → Result (Ptr × Table)
set_default_handler table effect handler = guard (ltb effect max_effects) Fault.undefined >>= λ _.
    ok (table effect, update table effect handler)

-- What `seff_perform` and `seff_throw` do next: switch to a handler, or call a default handler in
-- place.
pub data Next : Type 0 where
  switched : Machine → Next
  call : (handler : Ptr) (payload : ℕ) → Next
  -- The process exits once the handler returns.
  call_and_exit : (handler : Ptr) (payload : ℕ) → Next

-- A call through a pointer to a function.
abbrev pub call_pointer : (Ptr → ℕ → Next) → ℕ → Ptr → Result Next
call_pointer next payload handler =
    if handler == null then err Fault.null_pointer else ok (next handler payload)

-- `seff_perform`, where `handler` is what `seff_locate_handler` found.
unfoldable pub perform_to : Table → Machine → Ptr → ℕ → ℕ → Result Next
unfolding get_default_handler
perform_to table m handler effect payload =
    if not (handler == null)
    then ok (switched (yield m handler effect payload))
    else (get_default_handler table effect >>= call_pointer call payload)

-- `seff_throw`, likewise.
unfoldable pub throw_to : Table → Machine → Ptr → ℕ → ℕ → Result Next
unfolding get_default_handler
throw_to table m handler effect payload =
    if not (handler == null)
    then ok (switched (exit m handler effect payload))
    else (get_default_handler table effect >>= call_pointer call_and_exit payload)

-- `seff_perform` and `seff_throw`; `none` means that the fuel of the search ran out.
unfoldable pub perform : ℕ → Table → Machine → ℕ → ℕ → Option (Result Next)
perform fuel table m effect payload = elim (locate_handler fuel m effect) [
  | none ↦ none
  | some handler ↦ some (perform_to table m handler effect payload)
]

unfoldable pub throw : ℕ → Table → Machine → ℕ → ℕ → Option (Result Next)
throw fuel table m effect payload = elim (locate_handler fuel m effect) [
  | none ↦ none
  | some handler ↦ some (throw_to table m handler effect payload)
]
