-- ===== src/CircularArray.antt =====
-- utils/circular_array.h: the growable buffer that every task queue stands on.
pub mod Window
pub mod Grow
pub mod Tests
use libseff.Base.{
  ℕ, zero, suc, ◌+◌, ◌-◌, ◌*◌, ◌%◌, ◌^◌, bit_and, Option, none, some, ltb, ◌==◌, not, if◌then◌else◌,
}
use libseff.Base.Result.{Fault, Result, ok, err, ◌>>=◌, ◌>>◌, guard}
use libseff.Base.Memory.{update}

-- `queue_elt_t`, a pointer to a task, as an address.
abbrev pub Elt : Type 0
Elt = ℕ

-- `EMPTY` is NULL, and `ABORT` is the pointer with all bits set.
abbrev pub empty : Elt
empty = 0

abbrev pub abort : Elt
abort = 2 ^ 64 - 1

-- `circular_array_t`; the flexible array member is read and written at masked indices only.
pub record CircularArray : Type 0 where
  pub size : ℕ
  pub mask : ℕ
  pub buffer : ℕ → Elt

-- What `malloc` answers: NULL, or a block whose contents are not determined.
abbrev pub Block : Type 0
Block = Option (ℕ → Elt)

-- The fields are stored through the answer of `malloc` with no test for NULL.
unfoldable pub from_block : ℕ → Block → Result CircularArray
from_block array_size none = err Fault.null_pointer
from_block array_size (some b) =
    ok (record { size = array_size; mask = array_size - 1; buffer = b })

-- `circular_array_new`. The shift `1 << log_size` is one of `int`: it has a meaning below 31 only.
unfoldable pub new : ℕ → Block → Result CircularArray
unfolding from_block
new log_size block = do
  guard (ltb log_size 64) Fault.assertion
  guard (ltb log_size 31) Fault.undefined
  from_block (2 ^ log_size) block

-- `idx & arr->mask`
abbrev pub index : CircularArray → ℕ → ℕ
index arr idx = bit_and idx arr.mask

-- `CA_GET`
unfoldable pub get : CircularArray → ℕ → Elt
get arr idx = arr.buffer (index arr idx)

-- `CA_SET`
unfoldable pub set_elt : CircularArray → ℕ → Elt → CircularArray
set_elt arr idx elt = record arr { buffer = update arr.buffer (index arr idx) elt }

-- The loop of `circular_array_resize`, from index `i`, with the rounds that are left.
unfoldable pub copy : ℕ → ℕ → CircularArray → CircularArray → CircularArray
copy zero i arr new_array = new_array
copy (suc n) i arr new_array = copy n (i + 1) arr (set_elt new_array i (get arr i))

-- `circular_array_resize`. `__builtin_clz` reads 32 bits: it has no meaning at 0, and is positive
-- below 2^31.
unfoldable pub resize : CircularArray → ℕ → ℕ → Block → Result CircularArray
unfolding from_block copy
resize arr bottom top block = do
  guard (not (arr.size % 2 ^ 32 == 0)) Fault.undefined
  guard (ltb (arr.size % 2 ^ 32) (2 ^ 31)) Fault.assertion
  new_array ← from_block (arr.size * 2) block
  ok (copy (bottom - top) top arr new_array)

-- The step that the three queues share: if `tail - head > arr->size - 1`, go on with an array of
-- twice the size. Stated without the subtractions, which are signed in the source.
unfoldable pub reserve : CircularArray → ℕ → ℕ → Block → Result CircularArray
unfolding resize
reserve arr tail head block =
    if ltb (arr.size + head) (tail + 1) then resize arr tail head block else ok arr
