-- ===== src/Runtime/Scope.antt =====
-- Which coroutine `seff_locate_handler` finds, and how a resume and a yield change who is running.
use libseff.Base.{
  ℕ, zero, suc, ◌+◌, ◌<◌, ◌≡◌, ◌≢◌, refl, ap, bit_and, ◌∙◌, arith, Bool, false, not, ◌==◌,
  if◌then◌else◌, some, List, [], ◌∷◌, ◌++◌, length,
}
use libseff.Base.Memory.{update_self}
use libseff.Runtime.{Ptr, null, Coroutine, Machine, return_effect_id, resume, yield}
use libseff.Runtime.Switch.{resume_frame, yield_frame}
use libseff.Runtime.Handlers.{effect_mask, handles, find_handler, locate_handler}

-- The coroutines from `k` outwards, by their parents, up to code outside all coroutines.
pub data Chain (co : Ptr → Coroutine) : Ptr → List Ptr → Type 0 where
  outside : {k : Ptr} → k ≡ null → Chain co k []
  inside :
      {k : Ptr} {l : List Ptr} → k ≢ null → Chain co (co k).parent_coroutine l → Chain co k (k ∷ l)

-- The first coroutine of a chain that passes a test, and NULL if none does.
abbrev pub first : (Ptr → Bool) → List Ptr → Ptr
first p [] = null
first p (k ∷ l) = if p k then k else first p l

find_handler-first :
    (fuel : ℕ) (co : Ptr → Coroutine) (mask : ℕ) (k : Ptr) (l : List Ptr)
    → Chain co k l
    → length l < fuel
    → find_handler fuel co mask k ≡ some (first (handles co mask) l)
unfolding find_handler
find_handler-first zero co mask k l c h = absurd (omega arith)
find_handler-first (suc fuel) co mask k l (outside e) h = rw e
find_handler-first (suc fuel) co mask k l (inside {l = l'} ne c) h =
    ground (arith, find_handler-first fuel co mask (co k).parent_coroutine l' c)

-- On any finite chain of coroutines, with fuel above its length, `seff_locate_handler` ends and
-- returns the innermost coroutine that handles the effect, or NULL; for the return effect it is the
-- innermost coroutine.
pub locate_handler-first :
    (fuel : ℕ) (m : Machine) (effect : ℕ) (l : List Ptr)
    → Chain m.coroutine m.current l
    → length l < fuel
    → locate_handler fuel m effect
      ≡ some (
          if effect == return_effect_id
          then m.current
          else first (handles m.coroutine (effect_mask effect)) l)
unfolding locate_handler
locate_handler-first fuel m effect l c h =
    ground (arith, find_handler-first fuel m.coroutine (effect_mask effect) m.current l c h)

abbrev pub AllNe : Ptr → List Ptr → Type 0
AllNe k [] = Unit
AllNe k (j ∷ l) = (k ≢ j) × AllNe k l

-- The coroutines from `a` outwards that run inside `k`, and `k`: what a yield of `k` suspends.
pub data Inner (co : Ptr → Coroutine) (k : Ptr) : Ptr → List Ptr → Type 0 where
  outermost : {a : Ptr} → a ≡ k → k ≢ null → Inner co k a (a ∷ [])
  nested :
      {a : Ptr} {l : List Ptr}
      → k ≢ a
      → a ≢ null
      → Inner co k (co a).parent_coroutine l
      → Inner co k a (a ∷ l)

-- A chain reads the records of its own coroutines alone.
Chain-frame :
    (co co' : Ptr → Coroutine) (k a : Ptr) (l : List Ptr)
    → ((j : Ptr) → k ≢ j → co' j ≡ co j)
    → AllNe k l
    → Chain co a l
    → Chain co' a l
Chain-frame co co' k a l same ne (outside e) = outside e
Chain-frame co co' k a l same ne (inside {l = l'} n c) =
    inside n (rw (same a ne.0) (Chain-frame co co' k (co a).parent_coroutine l' same ne.1 c))

Inner-frame :
    (co co' : Ptr → Coroutine) (k a : Ptr) (l : List Ptr)
    → ((j : Ptr) → k ≢ j → co' j ≡ co j)
    → Inner co k a l
    → Inner co' k a l
Inner-frame co co' k a l same (outermost e n) = outermost e n
Inner-frame co co' k a l same (nested {l = l'} ne n c) =
    nested ne n (rw (same a ne) (Inner-frame co co' k (co a).parent_coroutine l' same c))

Inner-append :
    (co : Ptr → Coroutine) (k a : Ptr) (l r : List Ptr)
    → Inner co k a l
    → Chain co (co k).parent_coroutine r
    → Chain co a (l ++ r)
Inner-append co k a l r (outermost e n) c = rw e (inside n c)
Inner-append co k a l r (nested {l = l'} ne n i) c =
    inside n (Inner-append co k (co a).parent_coroutine l' r i c)

-- Resuming `k` puts the coroutines that it suspended in front of those that run.
pub resume-Chain :
    (m : Machine) (k : Ptr) (arg handled : ℕ) (l r : List Ptr)
    → Inner m.coroutine k (m.coroutine k).resume_point.current_coroutine l
    → Chain m.coroutine m.current r
    → AllNe k r
    → Chain (resume m k arg handled).coroutine (resume m k arg handled).current (l ++ r)
unfolding resume
resume-Chain m k arg handled l r i c ne =
    Inner-append next.coroutine k (m.coroutine k).resume_point.current_coroutine l r
      (Inner-frame m.coroutine next.coroutine k (m.coroutine k).resume_point.current_coroutine l
        same i)
      (rw (update_self m.coroutine k)
        (Chain-frame m.coroutine next.coroutine k m.current r same ne c))
  where
    next : Machine
    next = resume m k arg handled

    same : (j : Ptr) → k ≢ j → next.coroutine j ≡ m.coroutine j
    same j n = resume_frame m k j arg handled n

-- A yield of `k` leaves the coroutines outside it running, and suspends those inside it in an order
-- that a resume restores.
pub yield-Chain :
    (m : Machine) (k : Ptr) (effect payload : ℕ) (l r : List Ptr)
    → Inner m.coroutine k m.current l
    → Chain m.coroutine (m.coroutine k).parent_coroutine r
    → AllNe k r
    → Chain (yield m k effect payload).coroutine (yield m k effect payload).current r
      × Inner
          (yield m k effect payload).coroutine
          k
          (((yield m k effect payload).coroutine k).resume_point.current_coroutine)
          l
unfolding yield
yield-Chain m k effect payload l r i c ne = (
  Chain-frame m.coroutine next.coroutine k (m.coroutine k).parent_coroutine r same ne c,
  rw (update_self m.coroutine k) (Inner-frame m.coroutine next.coroutine k m.current l same i),
)
  where
    next : Machine
    next = yield m k effect payload

    same : (j : Ptr) → k ≢ j → next.coroutine j ≡ m.coroutine j
    same j n = yield_frame m k j effect payload n

first-frame :
    (co co' : Ptr → Coroutine) (k : Ptr) (mask : ℕ) (r : List Ptr)
    → ((j : Ptr) → k ≢ j → co' j ≡ co j)
    → AllNe k r
    → first (handles co' mask) r ≡ first (handles co mask) r
first-frame co co' k mask [] same ne = refl
first-frame co co' k mask (j ∷ r) same ne = rw (same j ne.0, first-frame co co' k mask r same ne.1)

resumed_effects :
    (m : Machine) (k : Ptr) (arg handled : ℕ)
    → ((resume m k arg handled).coroutine k).handled_effects ≡ handled
unfolding resume
resumed_effects m k arg handled =
    ap (λ (c : Coroutine). c.handled_effects) (update_self m.coroutine k _)

-- A new coroutine resumed with the effect in its set handles that effect, and any other effect is
-- handled as outside it.
pub resumed_handler :
    (fuel : ℕ) (m : Machine) (k : Ptr) (arg handled effect : ℕ) (r : List Ptr)
    → k ≢ null
    → (m.coroutine k).resume_point.current_coroutine ≡ k
    → Chain m.coroutine m.current r
    → AllNe k r
    → length r + 1 < fuel
    → effect ≢ return_effect_id
    → locate_handler fuel (resume m k arg handled) effect
      ≡ (if bit_and handled (effect_mask effect) == 0 then locate_handler fuel m effect else some k)
resumed_handler fuel m k arg handled effect r n new c ne h ret =
    locate_handler-first fuel next effect (k ∷ r) chain (omega arith)
    ∙ rw
        (
          not_return,
          handles_k,
          first-frame m.coroutine next.coroutine k (effect_mask effect) r same ne,
        )
        (ground (arith, locate_handler-first fuel m effect r c (omega arith)))
  where
    next : Machine
    next = resume m k arg handled

    same : (j : Ptr) → k ≢ j → next.coroutine j ≡ m.coroutine j
    same j d = resume_frame m k j arg handled d

    chain : Chain next.coroutine next.current (k ∷ r)
    chain = resume-Chain m k arg handled (k ∷ []) r (rw new (outermost refl n)) c ne

    not_return : (effect == return_effect_id) ≡ false
    not_return = ground arith

    handles_k :
        handles next.coroutine (effect_mask effect) k
        ≡ not (bit_and handled (effect_mask effect) == 0)
    handles_k =
        ap (λ h. not (bit_and h (effect_mask effect) == 0)) (resumed_effects m k arg handled)
