-- ===== src/Lookups.antt =====
-- bench/prefetching_lookups_bench: binary searches as coroutines, many of them interleaved. Queue is
-- libseff_infra.h, Search the coroutines, Multi libseff.c and libseff_effect_coro.c, Single
-- libseff_effect_naive.c; the other modules are about these.
pub mod Queue
pub mod Fifo
pub mod Bounded
pub mod Search
pub mod Scan
pub mod Multi
pub mod Single
pub mod Counts
pub mod Rounds
pub mod PhaseCost
pub mod Adding
pub mod Ends
pub mod Resumes
pub mod Total
pub mod Tests
