-- ===== src/CircularArray/Tests.antt =====
-- The theorems of the circular array at concrete arrays.
use libseff.Base.{ℕ, ◌+◌, ◌≡◌, ◌^◌, refl, arith, some}
use libseff.Base.Result.{ok}
use libseff.CircularArray.{CircularArray, new, resize}
use libseff.CircularArray.Window
use libseff.CircularArray.Window.{index-lt-size}
use libseff.CircularArray.Grow.{new-ok, Fresh, Grown, resize-Grown}

abbrev memory : ℕ → ℕ
memory i = 0x13

abbrev four : CircularArray
four = record { size = 4; mask = 3; buffer = λ i. 10 + i }

four-IsValid : Window.IsValid four
four-IsValid = record { log_size = 2; size_eq = refl; mask_eq = refl }

new-ok_example : (arr : CircularArray) × (new 3 (some memory) ≡ ok arr) × Fresh (2 ^ 3) arr
new-ok_example = new-ok 3 memory (omega arith)

-- Indices 6 to 9 of a full array: the copy puts them at other cells.
resize-Grown_example :
    (arr : CircularArray) × (resize four (6 + 4) 6 (some memory) ≡ ok arr) × Grown four 6 4 arr
resize-Grown_example = resize-Grown four memory 6 4 four-IsValid (omega arith) (omega arith)
