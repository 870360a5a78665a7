-- ===== src/Lookups/Search.antt =====
-- The searching coroutines: `SeffBinarySearch` of bench/prefetching_lookups_bench/libseff.c, and
-- `SeffEffectBinarySearch` of libseff_effect_common.h beside it. A coroutine is what its locals hold
-- at the point where it waits. An `int` stands as the natural number 2^31 above it, which keeps `<`
-- and `==`; memory behind `first` is the list of the ints that the caller has allocated.
use libseff.Base.{
  ℕ, ◌+◌, ◌-◌, ◌/◌, ◌^◌, Bool, true, false, ltb, ◌==◌, if◌then◌else◌, none, some, List, get_elem?,
}
use libseff.Base.Result.{Fault, Result, ok, err, ◌>>=◌}

-- `search_args`; `first` is an index of the array.
pub record SearchArgs : Type 0 where
  pub first : ℕ
  pub len : ℕ
  pub key : ℕ

-- Not yet resumed, or waiting in a round of the loop for the element in the middle.
pub data Search : Type 0 where
  entry : (arg : SearchArgs) → Search
  waiting : (first len val : ℕ) → Search

-- How a resume of the coroutine ends: it waits for the element at `middle`, or returns.
pub data Resumption : Type 0 where
  waits : (next : Search) (middle : ℕ) → Resumption
  returned : (found : Bool) → Resumption

-- A load of an int; behind the allocated ones it is undefined.
unfoldable pub read_int : List ℕ → ℕ → Result ℕ
read_int v i = elim (get_elem? v i) [ none ↦ err Fault.undefined | some x ↦ ok x ]

-- From the test of the loop to the next wait.
unfoldable pub loop_head : ℕ → ℕ → ℕ → Resumption
loop_head first len val =
    if len == 0
    then Resumption.returned false
    else Resumption.waits (Search.waiting first len val) (first + len / 2)

-- The round of the loop once `x` is read.
unfoldable pub after_read : ℕ → ℕ → ℕ → ℕ → Resumption
unfolding loop_head
after_read first len val x =
    let half = len / 2 in
    let middle = first + half in
    let first' = if ltb x val then middle + 1 else first in
    let len' = if ltb x val then len - half - 1 else half in
    if x == val then Resumption.returned true else loop_head first' len' val

-- A resume of `SeffBinarySearch`, which reads the array itself.
unfoldable pub seff_binary_search : List ℕ → Search → Result Resumption
unfolding read_int after_read
seff_binary_search v (Search.entry arg) = ok (loop_head arg.first arg.len arg.key)
seff_binary_search v (Search.waiting first len val) =
    read_int v (first + len / 2) >>= λ x. ok (after_read first len val x)

-- An `int64_t` read from an array of ints, as the two ints of its bytes in their order.
pub record Word : Type 0 where
  pub low : ℕ
  pub high : ℕ

-- The word 0, in which each half is the int 0.
abbrev pub zero_word : Word
zero_word = record { low = 2 ^ 31; high = 2 ^ 31 }

-- The word of an int, with its sign in the high half: -1 or 0.
abbrev pub word_of : ℕ → Word
word_of x = record { low = x; high = if ltb x (2 ^ 31) then 2 ^ 31 - 1 else 2 ^ 31 }

-- A load of an `int64_t` at the address of an int.
unfoldable pub read64 : List ℕ → ℕ → Result Word
unfolding read_int
read64 v i = read_int v i >>= λ x. read_int v (i + 1) >>= λ y. ok (record { low = x; high = y })

-- A resume of `SeffEffectBinarySearch` with an answer, of which an int takes the low half.
unfoldable pub seff_effect_binary_search : Search → Word → Resumption
unfolding after_read
seff_effect_binary_search (Search.entry arg) answer = loop_head arg.first arg.len arg.key
seff_effect_binary_search (Search.waiting first len val) answer =
    after_read first len val answer.low
