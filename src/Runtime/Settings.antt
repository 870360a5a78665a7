-- ===== src/Runtime/Settings.antt =====
-- The sizes read from the environment when the library is loaded: `read_env_size` and
-- `seff_mem_global_init` of src/mem/seff_mem_common.h, in the debug build on segmented stacks. What
-- `getenv` and `sscanf` answer is a parameter.
use libseff.Base.{ℕ, Option, none, some}
use libseff.Base.Result.{Fault, Result, ok, err, ◌>>=◌}

-- What `sscanf` makes of the value of a variable with "%zu": a number is stored, and it answers 1; the
-- text does not match, and it answers 0; or the text ends first, and it answers EOF, which is not 0.
pub data Scan : Type 0 where
  stored : (n : ℕ) → Scan
  unmatched : Scan
  at_end : Scan

-- `read_env_size`, where `none` is a variable that is not set.
unfoldable pub read_env_size : Option Scan → ℕ → Result ℕ
read_env_size none default_val = ok default_val
read_env_size (some (Scan.stored n)) default_val = ok n
read_env_size (some Scan.unmatched) default_val = err Fault.exited
-- The test passes and `result` is returned, which nothing has set.
read_env_size (some Scan.at_end) default_val = err Fault.undefined

pub record Sizes : Type 0 where
  pub min_segment_size : ℕ
  pub syscall_segment_size : ℕ
  pub default_frame_size : ℕ

-- The variables of the environment.
pub record Environment : Type 0 where
  pub libseff_min_segment_size : Option Scan
  pub libseff_syscall_segment_size : Option Scan
  pub libseff_default_frame_size : Option Scan

-- `seff_mem_global_init`, with the sizes that hold by default.
unfoldable pub mem_global_init : Environment → Sizes → Result Sizes
unfolding read_env_size
mem_global_init env defaults = do
  min ← read_env_size env.libseff_min_segment_size defaults.min_segment_size
  syscall ← read_env_size env.libseff_syscall_segment_size defaults.syscall_segment_size
  frame ← read_env_size env.libseff_default_frame_size defaults.default_frame_size
  ok (record { min_segment_size = min; syscall_segment_size = syscall; default_frame_size = frame })
