-- ===== src/Stack/Tests.antt =====
-- A coroutine with two segments, the second in use.
use libseff.Base.{
  ℕ, ◌+◌, ◌≤◌, ◌%◌, ◌≡◌, refl, arith, List, [], ◌∷◌, count, ◌==◌, if◌then◌else◌, some,
}
use libseff.Runtime.{Ptr}
use libseff.Stack.{Segment, Stack, release, rewind, free_all}
use libseff.Stack.Links.{Segments}
use libseff.Stack.Release.{release-freed}

abbrev segments : Ptr → Segment
segments a =
    if a == 1024
    then record { prev = 0; next = 4096; size = 528 }
    else if a == 4096
    then record { prev = 1024; next = 0; size = 64 }
    else record { prev = 0; next = 0; size = 0 }

abbrev stack : Stack
stack = record { segment = segments; frame_ptr = 4096; bytes = λ a. a % 256 }

stack-Segments : Segments segments 4096 (1024 ∷ []) []
stack-Segments = record {
  down = (refl, refl, refl);
  up = refl;
  distinct = λ x. ground arith;
  no_null = refl;
  is_aligned = λ x h. ground arith;
}

-- `malloc` gives the block at 8192.
abbrev memory : ℕ → Ptr
memory n = 8192

release-freed_example :
    (freed : List Ptr) × (release 3 stack ≡ some freed)
    × ((x : Ptr) → count x freed ≡ count x (1024 ∷ []) + count x (4096 ∷ []))
    × ((x : Ptr) → count x freed ≤ 1)
release-freed_example = release-freed 3 stack (1024 ∷ []) [] stack-Segments (omega arith)

-- The lower segment is freed first.
release-stack : release 3 stack ≡ some (1024 ∷ 4096 ∷ [])
unfolding release rewind free_all
release-stack = refl
