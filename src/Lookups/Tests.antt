-- ===== src/Lookups/Tests.antt =====
-- Runs of the lookups on small arrays, and the theorems at concrete inputs.
use libseff.Base.{ℕ, zero, suc, ◌-◌, ◌≡◌, refl, arith, some, List, [], ◌∷◌, length}
use libseff.Base.Result.{Fault, ok, err}
use libseff.Lookups.Queue.{coro_queue_init}
use libseff.Lookups.Scan.{IsSorted, hits}
use libseff.Lookups.Multi.{seff_multi_lookup, seff_effect_multi_lookup}
use libseff.Lookups.Bounded.{Call, ring_run, list_run, ring_run-list_run}
use libseff.Lookups.Total.{enough_fuel, seff_multi_lookup-hits, seff_effect_multi_lookup-hits}
use libseff.Lookups.Single.{seff_effect_single_lookup, single_lookup-hits}

abbrev table : List ℕ
table = 2 ∷ 5 ∷ 7 ∷ 9 ∷ 12 ∷ []

abbrev keys : List ℕ
keys = 5 ∷ 6 ∷ 12 ∷ 13 ∷ 1 ∷ 2 ∷ []

three_found : seff_multi_lookup 60 table 5 keys 3 ≡ some (ok (3, 3))
unfolding seff_multi_lookup
three_found = refl

-- The load of eight bytes at the last int runs over the end of the array.
reads_behind : seff_effect_multi_lookup 60 table 5 keys 3 ≡ some (err Fault.undefined)
unfolding seff_effect_multi_lookup
reads_behind = refl

allocated_behind :
    seff_effect_multi_lookup 60 (2 ∷ 5 ∷ 7 ∷ 9 ∷ 12 ∷ 77 ∷ []) 5 keys 3 ≡ some (ok (3, 3))
unfolding seff_effect_multi_lookup
allocated_behind = refl

three_found_singly : seff_effect_single_lookup 4 table 5 keys ≡ some (ok (3, 3))
unfolding seff_effect_single_lookup
three_found_singly = refl

-- Without streams the empty queue gives NULL to resume.
no_streams : seff_multi_lookup 60 table 5 keys 0 ≡ some (err Fault.null_pointer)
unfolding seff_multi_lookup
no_streams = refl

abbrev sought : List ℕ
sought = 8 ∷ 4 ∷ 3 ∷ []

abbrev pair : List ℕ
pair = 3 ∷ 8 ∷ 1 ∷ []

pair-IsSorted : IsSorted pair 2
pair-IsSorted zero zero le small = omega arith
pair-IsSorted zero (suc zero) le small = omega arith
pair-IsSorted zero (suc (suc j)) le small = absurd (omega arith)
pair-IsSorted (suc i) zero le small = absurd (omega arith)
pair-IsSorted (suc zero) (suc zero) le small = omega arith
pair-IsSorted (suc (suc i)) (suc zero) le small = absurd (omega arith)
pair-IsSorted (suc i) (suc (suc j)) le small = absurd (omega arith)

seff_multi_lookup-hits_example :
    seff_multi_lookup (enough_fuel 2 sought) pair 2 sought 2
    ≡ some (ok (hits pair 2 sought, length sought - hits pair 2 sought))
seff_multi_lookup-hits_example =
    seff_multi_lookup-hits pair 2 sought 2 pair-IsSorted (omega arith) (omega arith) (omega arith)

seff_effect_multi_lookup-hits_example :
    seff_effect_multi_lookup (enough_fuel 2 sought) pair 2 sought 2
    ≡ some (ok (hits pair 2 sought, length sought - hits pair 2 sought))
seff_effect_multi_lookup-hits_example =
    seff_effect_multi_lookup-hits pair 2 sought 2 pair-IsSorted (omega arith) (omega arith)
      (omega arith)

single_lookup-hits_example :
    seff_effect_single_lookup 3 pair 2 sought
    ≡ some (ok (hits pair 2 sought, length sought - hits pair 2 sought))
single_lookup-hits_example =
    single_lookup-hits pair 2 pair-IsSorted (omega arith) 2 sought (omega arith)

abbrev calls : List (Call ℕ)
calls =
    Call.enqueue 7 ∷ Call.enqueue 8 ∷ Call.dequeue ∷ Call.size ∷ Call.dequeue ∷ Call.dequeue ∷ []

ring_run-list_run_example : ring_run 0 calls (coro_queue_init 0) ≡ list_run 0 calls []
ring_run-list_run_example = ring_run-list_run 0 calls
