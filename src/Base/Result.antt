-- ===== src/Base/Result.antt =====
-- Outcomes of C code: a value, or the fault that ends the run.
use libseff.Base.{Bool, if◌then◌else◌}

-- `assertion`: an `assert` of the debug build fails. `undefined`: the standard gives the operation
-- no meaning. `null_pointer`: a store or load through NULL. `blocked`: the caller spins and no one
-- else runs. `exited`: the program calls `exit`.
pub data Fault : Type 0 where
  assertion undefined null_pointer blocked exited : Fault

-- Every value of the model is small, so one level is enough.
pub data Result (A : Type 0) : Type 0 where
  ok : (value : A) → Result A
  err : (why : Fault) → Result A

module _ {A B : Type 0} where
  infixl 5 ◌>>=◌ ◌>>◌
  abbrev pub ◌>>=◌ : Result A → (A → Result B) → Result B
  err why >>= next = err why
  ok value >>= next = next value

  abbrev pub ◌>>◌ : Result A → Result B → Result B
  first >> second = first >>= λ _. second

-- Go on if the test holds.
abbrev pub guard : Bool → Fault → Result (Unit {0})
guard passed why = if passed then ok tt else err why
