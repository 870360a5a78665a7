-- ===== src/Lookups/Resumes.antt =====
-- The resumes of the searching coroutines of bench/prefetching_lookups_bench, as the loops of their
-- callers see them.
use libseff.Base.{
  ℕ, ◌+◌, ◌/◌, ◌<◌, ◌≤◌, ◌≡◌, refl, sym, ap, subst, ◌∙◌, arith, Bool, if◌then◌else◌, Option, none,
  some, List, length,
}
use libseff.Base.Result.{ok}
use libseff.Lookups.Search.{
  Search, Resumption, read64, seff_binary_search, seff_effect_binary_search,
}
use libseff.Lookups.Scan.{
  IsSorted, InRange, Follows, middle_of, read_int-eq, elem, loop_head-Follows, after_read-Follows,
}
use libseff.Lookups.Multi.{
  Task, Outcome, seff_outcome, effect_outcome, seff_resumed, effect_resumed,
}
use libseff.Lookups.Counts.{Moves}

abbrev bit : Bool → ℕ
bit found = if found then 1 else 0

module _ (v : List ℕ) (n : ℕ) (sorted : IsSorted v n) where
  -- In `SeffMultiLookup` every coroutine searches a range of the array.
  abbrev pub SeffCoro : Option Search → Type 0
  SeffCoro none = ⊥
  SeffCoro (some coro) = InRange n coro

  abbrev pub SeffGood : Task → Type 0
  SeffGood task = SeffCoro task.coro

  -- In `SeffEffectMultiLookup` a waiting one has asked for the element in the middle.
  abbrev pub EffectCoro : Option ℕ → Option Search → Type 0
  EffectCoro extra none = ⊥
  EffectCoro extra (some (Search.entry arg)) = InRange n (Search.entry arg) × (extra ≡ none)
  EffectCoro extra (some (Search.waiting first len val)) =
      InRange n (Search.waiting first len val)
      × (extra ≡ some (middle_of (Search.waiting first len val)))

  abbrev pub EffectGood : Task → Type 0
  EffectGood task = EffectCoro task.extra task.coro

  seff_outcome-Moves :
      (s : Search) (extra : Option ℕ) (turn : Resumption)
      → Follows v n s turn
      → Moves v n SeffGood
          (seff_resumed v)
          (record { coro = some s; extra = extra })
          (seff_outcome turn)
  seff_outcome-Moves s extra (Resumption.waits next middle) f =
      (f.4, ap bit f.6, omega (arith, f.7))
  seff_outcome-Moves s extra (Resumption.returned found) f = ap bit f

  effect_outcome-Moves :
      (s : Search) (extra : Option ℕ) (turn : Resumption)
      → Follows v n s turn
      → Moves v n EffectGood
          (effect_resumed v)
          (record { coro = some s; extra = extra })
          (effect_outcome turn)
  effect_outcome-Moves s extra (Resumption.waits next middle) f = (
    subst (λ t. EffectCoro (some middle) (some t)) (sym f.3)
        (subst (InRange n) f.3 f.4, ap some (f.5 ∙ ap middle_of f.3)),
    ap bit f.6,
    omega (arith, f.7),
  )
  effect_outcome-Moves s extra (Resumption.returned found) f = ap bit f

  module _ (fits : n ≤ length v) where
    pub seff_resumed-Resumes :
        (extra : Option ℕ) (coro : Option Search)
        → SeffCoro coro
        → (outcome : Outcome) × (seff_resumed v (record { coro = coro; extra = extra })
            ≡ ok outcome)
          × (Moves v n SeffGood (seff_resumed v) (record { coro = coro; extra = extra }) outcome)
    unfolding seff_resumed seff_binary_search
    seff_resumed-Resumes extra none good = absurd good
    seff_resumed-Resumes extra (some (Search.entry arg)) good = (
      _,
      refl,
      seff_outcome-Moves (Search.entry arg) extra _ (
          loop_head-Follows v n (Search.entry arg) arg.first arg.len arg.key good refl (omega arith)
            (omega arith)),
    )
    seff_resumed-Resumes extra (some (Search.waiting first len val)) good = (
      _,
      rw (read_int-eq v (first + len / 2) (omega arith)) refl,
      seff_outcome-Moves (Search.waiting first len val) extra _
          (after_read-Follows v n sorted first len val good.0 good.1),
    )

  module _ (room : n < length v) where
    read64-eq : (i : ℕ) → i < n → read64 v i ≡ ok (record { low = elem v i; high = elem v (i + 1) })
    unfolding read64
    read64-eq i small = rw (read_int-eq v i (omega arith), read_int-eq v (i + 1) (omega arith)) refl

    pub effect_resumed-Resumes :
        (extra : Option ℕ) (coro : Option Search)
        → EffectCoro extra coro
        → (outcome : Outcome) × (effect_resumed v (record { coro = coro; extra = extra })
            ≡ ok outcome)
          × (Moves v n EffectGood
              (effect_resumed v)
              (record { coro = coro; extra = extra })
              outcome)
    unfolding effect_resumed seff_effect_binary_search
    effect_resumed-Resumes extra none good = absurd good
    effect_resumed-Resumes extra (some (Search.entry arg)) good = (
      _,
      rw good.1 refl,
      effect_outcome-Moves (Search.entry arg) extra _ (
          loop_head-Follows v n (Search.entry arg) arg.first arg.len arg.key good.0 refl
            (omega arith) (omega arith)),
    )
    effect_resumed-Resumes extra (some (Search.waiting first len val)) good = (
      _,
      rw (good.1, read64-eq (first + len / 2) (omega (arith, good.0.0, good.0.1))) refl,
      effect_outcome-Moves (Search.waiting first len val) extra _
          (after_read-Follows v n sorted first len val good.0.0 good.0.1),
    )
