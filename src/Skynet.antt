-- ===== src/Skynet.antt =====
-- bench/skynet_bench/libseff.c: a tree of coroutines whose leaves yield their numbers past their
-- parents to the handler at the root. A coroutine is the list of the values that it yields, since its
-- handler resumes it after each with no answer.
pub mod Total
pub mod Tests
use libseff.Base.{
  ℕ, zero, suc, ◌+◌, ◌-◌, ◌*◌, ◌^◌, if◌then◌else◌, ◌==◌, leb, ltb, Bool, true, false, Option, none,
  some, List, [], ◌∷◌, ◌++◌,
}
use libseff.Base.Memory.{update}
use libseff.Base.Result.{Fault, Result, ok, err, ◌>>=◌, ◌>>◌, guard}

-- The children in a sweep: which are FINISHED, how often one was seen FINISHED, and what they yield.
pub record Sweep : Type 0 where
  pub is_finished : ℕ → Bool
  pub finished : ℕ
  pub yielded : List ℕ

-- What a coroutine does: nothing that is known if the fuel does not do, a fault, or its yields.
abbrev pub Run : Type 0 → Type 0
Run A = Option (Result A)

abbrev pub and_then : List ℕ → Run Sweep → Run Sweep
and_then l none = none
and_then l (some (err why)) = some (err why)
and_then l (some (ok s)) = some (ok (record s { yielded = l ++ s.yielded }))

-- `seff_resume(children[i], NULL, 0)` handles no effect, so it comes back when the child has returned.
abbrev pub resumed : Run (List ℕ) → Run Sweep → Run Sweep
resumed none rest = none
resumed (some (err why)) rest = some (err why)
resumed (some (ok l)) rest = and_then l rest

-- The `for` in the `while`, from child `i` on.
pub sweep : (ℕ → Run (List ℕ)) → ℕ → ℕ → (ℕ → Bool) → ℕ → Run Sweep
sweep child zero i done n = some (ok (record { is_finished = done; finished = n; yielded = [] }))
sweep child (suc k) i done n =
    let skipped = sweep child k (suc i) done (n + 1) in
    let rest = sweep child k (suc i) (update done i true) (n + 1) in
    if done i then skipped else resumed (child i) rest

-- After a sweep: the `while` goes on below ten.
abbrev pub swept_on : Run Sweep → (Sweep → Run (List ℕ)) → Run (List ℕ)
swept_on none rest = none
swept_on (some (err why)) rest = some (err why)
swept_on (some (ok s)) rest =
    if ltb s.finished 10
    then elim (rest s) [ none ↦ none | some r ↦ some (r >>= λ l. ok (s.yielded ++ l)) ]
    else some (ok s.yielded)

-- The `while`, on fuel.
pub sweeps : ℕ → (ℕ → Run (List ℕ)) → (ℕ → Bool) → ℕ → Run (List ℕ)
unfolding sweep
sweeps zero child done n = none
sweeps (suc fuel) child done n =
    swept_on (sweep child 10 0 done n) λ s. sweeps fuel child s.is_finished s.finished

-- `skynet`, on fuel. `num *= 10` and `num + i` are computed on int64_t for all ten children before the
-- first of them runs.
pub skynet : ℕ → ℕ → ℕ → Run (List ℕ)
unfolding sweeps
skynet zero last_layer num = none
skynet (suc fuel) last_layer num =
    let children = sweeps 10 (λ i. skynet fuel last_layer (num * 10 + i)) (λ i. false) 0 in
    if leb last_layer num
    then some (ok ((num - last_layer) ∷ []))
    else if ltb (num * 10 + 9) (2 ^ 63)
    then children
    else some (err Fault.undefined)

-- `last_layer`, an int64_t, after so many rounds of the loop in `bench`.
abbrev pub layers : ℕ → Result ℕ
layers zero = ok 1
layers (suc n) = do
  last_layer ← layers n
  guard (ltb (last_layer * 10) (2 ^ 63)) Fault.undefined
  ok (last_layer * 10)

-- `total += payload.value` on an int64_t, for each request.
abbrev pub add_up : ℕ → List ℕ → Result ℕ
add_up total [] = ok total
add_up total (v ∷ l) =
    if ltb (total + v) (2 ^ 63) then add_up (total + v) l else err Fault.undefined

-- `bench`, on its depth.
pub bench : ℕ → Run ℕ
unfolding skynet
bench depth = elim (layers (depth - 1)) [
  | err why ↦ some (err why)
  | ok last_layer ↦ elim (skynet depth last_layer 1) [
    | none ↦ none
    | some r ↦ some (r >>= add_up 0)
  ]
]
