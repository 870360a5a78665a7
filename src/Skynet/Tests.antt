-- ===== src/Skynet/Tests.antt =====
-- Skynet of three layers: 100 leaves.
use libseff.Base.{ℕ, ◌+◌, ◌*◌, ◌^◌, ◌≡◌, arith, some}
use libseff.Base.Result.{ok}
use libseff.Skynet.{bench}
use libseff.Skynet.Total.{bench-total}

bench-total_example :
    (total : ℕ) × (bench 3 ≡ some (ok total)) × (2 * total + 10 ^ 2 ≡ 10 ^ 2 * 10 ^ 2)
bench-total_example = bench-total 3 (omega arith) (omega arith)
