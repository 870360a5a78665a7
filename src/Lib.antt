-- ===== src/Lib.antt =====
-- libseff is a library of effect handlers for C: coroutines that yield effects to the coroutines that
-- resumed them, on stacks that grow by segments, and a scheduler that runs coroutines as tasks on
-- several threads over work-stealing queues. This library models its queues, the core of its
-- runtime and some of its utilities.
--
-- The parts, bottom up:
--
-- Base              shared names, signed integers, memory as a function, results with their faults
-- CircularArray     utils/circular_array.h, the growing buffer of every queue: `circular_array_new`
--                   (new, from_block), CA_GET (get), CA_SET (set_elt), `circular_array_resize`
--                   (resize, copy); the growth that two pushes share (reserve)
-- TaskQueue         the contract of a task queue, a slot and a line of tasks, and the interface by
--                   which a client uses any queue (TaskQueue/Impl)
-- TlQueue           utils/tl_queue.c and utils/tl_queue.h, the queue under a spin lock: one function
--                   for each C function, since each call holds the lock from its first access to its
--                   last. TlQueue/Refine and TlQueue/Client are about the contract
-- TkQueue           utils/tk_queue.c and utils/tk_queue.h, the queue without a lock, as a system of
--                   threads that take a step for each access to shared memory
-- ClQueue           utils/cl_queue.c and utils/cl_queue.h, the Chase-Lev deque, likewise
-- Scheduler         scheduler/scheff.c: `scheff_init` (init), `scheff_schedule` (schedule),
--                   `scheff_try_get_task` (try_get_task, and the steps takes and misses), and the
--                   loop of `scheff_worker_thread` as the moves of each worker (Turn) in any
--                   interleaving (Step). Its queues are the contract of TaskQueue, which is what
--                   tl_queue, the queue that scheduler/scheff.h chooses, implements. Scheduler/Search
--                   is about the search for a task, Scheduler/Invariant, Moves, Turns and Conserved
--                   count the tasks over all workers, for Scheduler/Safety
-- Stack             src/mem/seff_mem_segmented.c, the segments that hold the stacks of coroutines:
--                   `init_segment`, `seff_mem_allocate_frame` (allocate_frame, over next_segment and
--                   place), `seff_mem_release_frame` (release_frame); and `seff_coroutine_release` of
--                   src/seff.c (release). Stack/Links has the doubly linked list of segments
-- Runtime           the structures of decls/seff_types.py and the switches of asm/seff.S on a machine:
--                   `seff_resume` (resume), `seff_yield` (yield), `seff_exit` (exit) and the end of
--                   `coroutine_prelude` (finish). Runtime/Handlers has the handler search, performing,
--                   throwing and the default handlers of src/seff.c and src/seff.h, Runtime/Init
--                   `seff_coroutine_init_sized`, Runtime/Create the coroutines that are allocated and
--                   deleted, Runtime/Fixed coroutines on src/mem/seff_mem_fixed.c, Runtime/Settings the
--                   sizes that src/mem/seff_mem_common.h reads from the environment
-- Actors            utils/actors.c: the mailbox of an actor, `actor_init` (init), `actor_insert_msg`
--                   (insert_msg, and SenderMove as a thread), `actor_remove_msg` (remove_msg, and
--                   ReceiverMove). Actors/Mailbox is about calls one after the other,
--                   Actors/OneSender about one sender at a time, Actors/Overtaken about two
-- HttpResponse      utils/http_response.c: `build_response` over a `snprintf` with the laws of the C
--                   standard
-- Net               utils/net.c over the system calls: `await_send` and `await_send_all` in Net,
--                   `await_accept4` and `await_recv` in Net/Receive, `listen_tcp_socket` in Net/Listen
-- HttpServer        bench/http_server_bench/libscheff.c: `connection_fun` as rounds of its inner loop,
--                   over `await_recv` and `build_response`
-- AdBench           bench/ad_bench: reverse-mode differentiation by nested effect handlers. AdBench is
--                   no_alloc.c, AdBench/Naive naive.c, AdBench/Indirect indirect_prop_t.c and
--                   AdBench/Cast ptr_dbl_cast.c: `example`, `handle`, `reverse`, `evaluate`, and `main`
--                   (run). AdBench/Exact has the laws of exact numbers, AdBench/Sums what `handle`
--                   leaves once `evaluate` handles its effects
-- Lookups           bench/prefetching_lookups_bench: `coro_queue` in Lookups/Queue, the searching
--                   coroutines in Lookups/Search, `SeffMultiLookup` and `SeffEffectMultiLookup` in
--                   Lookups/Multi, `SeffEffectSingleLookup` in Lookups/Single; the other modules
--                   follow the interleaved searches to their end
-- Chameneos         bench/chameneos_bench: `complement`, `int_pow` and `spell_int` of
--                   chameneos_common.h, the coroutine `chameneos` of chameneos_effect.h, and `execute` of
--                   chameneos_effect_direct.c
-- Skynet            bench/skynet_bench/libseff.c: the coroutine `skynet` as the values it yields, and
--                   `bench`, which adds them up
--
-- A queue of CircularArray holds what the scheduler calls tasks, as addresses; 0 is NULL, the EMPTY of
-- the queues. The fields of a C structure are the fields of a record of the same name; a thread of
-- TkQueue and ClQueue is a program counter with its live local variables, and the constructors of its
-- move relation are the accesses of the source in their order. What malloc answers is an argument: an
-- array that it gives is a function from indices to what the memory held, and a stack is an address.
--
-- Bounds. Indices of the queues are natural numbers. In TlQueue the 64-bit index is checked at each
-- increment, and TlQueue/Client starts from an empty queue and allows 2^31 calls, for which no index
-- and no logarithm of a size leaves its range. In TkQueue and ClQueue the indices have no bound: they
-- count the calls of one run. In ClQueue the field `bottom_succ` is `bottom` + 1, since `bottom` is -1
-- for a moment. Sizes of stacks wrap at 2^64. Loops run on fuel where they
-- follow pointers or depend on the system: any fuel above the number of the coroutines that run is
-- enough for the search of `seff_locate_handler`, since each round moves one of them outwards; any fuel
-- above the number of the segments for `seff_coroutine_release`, likewise; and any fuel above the size
-- of the buffer for `await_send_all` as long as each round sends a byte. In Chameneos
-- the exponent is enough for `int_pow`. In Lookups the number of
-- keys times the size of the array and 6, and 5 more, is enough for the rounds of the loops. In Skynet the depth is enough
-- for the layers of the tree, and one sweep for the children of a node; the fuel given is more.
--
-- Assumptions. Atomic accesses are sequentially consistent: the weaker orders that utils/atomic.h
-- names are not modelled. Between two switches a coroutine's code may do anything to the machine but
-- change the record of its coroutine. Assertions are those of the debug build.
--
-- The operations on doubles of AdBench are a parameter; where a theorem is about exact numbers, the laws
-- of a commutative ring (AdBench/Exact) are its hypothesis. A client of the scheduler uses each waker
-- once, while its manager holds it.
--
-- Not modelled: the statistics and the debug counters of the scheduler, the loops of the actors around
-- their mailboxes, `poll_await`, the assembler around the growth of a stack, the generator of declarations, the tests
-- and the other benchmarks, which use the library, and the build scripts.
pub mod Base
pub mod CircularArray
pub mod TaskQueue
pub mod TlQueue
pub mod TkQueue
pub mod ClQueue
pub mod Runtime
pub mod Stack
pub mod Scheduler
pub mod Actors
pub mod Net
pub mod HttpResponse
pub mod AdBench
pub mod Chameneos
pub mod HttpServer
pub mod Lookups
pub mod Skynet
