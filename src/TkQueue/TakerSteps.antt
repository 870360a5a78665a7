-- ===== src/TkQueue/TakerSteps.antt =====
-- A step of a thief, or of the owner in its pop, keeps the invariant of the queue without a lock.
use libseff.Base.{ℕ, ◌+◌, ◌-◌, ◌≤◌, ◌≡◌, refl, sym, ap, ap₂, ◌∙◌, arith, ◌∷◌, count, ℕ_discrete}
use libseff.Base.Memory.{update, update_self, update_ne}
use libseff.CircularArray.{Elt, get}
use libseff.CircularArray.Window
use libseff.CircularArray.Window.{window, window_front}
use libseff.TkQueue.{
  Shared, Taker, away, looping, got_head, got_tail, got_elt, TakerMove, load_head, miss, load_tail,
  load_elt, win, retry, Owner, idle, push_head, push_room, push_set, push_tail, popping,
}
use libseff.TkQueue.Invariant.{array, TakerFits, OwnerFits, carried, line, Conserves, Inv}

-- Facts survive a rise of `head`.
abbrev risen : Shared → ℕ → Elt → Shared
risen m h elt = record m { head = h + 1; taken = elt ∷ m.taken }

taker_pass :
    (m : Shared) (h elt : ℕ) (q : Taker) → m.head ≡ h → TakerFits m q → TakerFits (risen m h elt) q
taker_pass m h elt away e f = tt
taker_pass m h elt (looping a) e f = f
taker_pass m h elt (got_head a k) e f = (f.0, omega arith)
taker_pass m h elt (got_tail a k) e f = (f.0, omega arith, omega arith)
taker_pass m h elt (got_elt a k x) e f = (f.0, omega arith, omega arith, λ p. absurd (omega arith))

owner_pass :
    (m : Shared) (h elt : ℕ) (o : Owner) → m.head ≡ h → OwnerFits m o → OwnerFits (risen m h elt) o
owner_pass m h elt idle e f = tt
owner_pass m h elt (push_head x a) e f = f
owner_pass m h elt (push_room x a k) e f = (f.0, omega arith, f.2)
owner_pass m h elt (push_set x a) e f = (f.0, omega arith)
owner_pass m h elt (push_tail x) e f = (f.0, omega arith)
owner_pass m h elt (popping p) e f = taker_pass m h elt p e f

-- What every step of a taker keeps.
pub record Kept (m m' : Shared) : Type 0 where
  pub array_valid : Window.IsValid (array m')
  pub ordered : m'.head ≤ m'.tail
  pub fits : m'.tail ≤ m'.head + (array m').size
  pub buffer : m'.buffer ≡ m.buffer
  pub pushed : m'.pushed ≡ m.pushed
  pub balance :
      (x : Elt) → count x m'.taken + count x (line m') ≡ count x m.taken + count x (line m)
  pub takers : (q : Taker) → TakerFits m q → TakerFits m' q
  pub owner : (o : Owner) → OwnerFits m o → OwnerFits m' o

module _ {m : Shared} {o : Owner} {th : ℕ → Taker} (v : Inv m o th) where
  unchanged : Kept m m
  unchanged = record {
    array_valid = v.array_valid;
    ordered = v.ordered;
    fits = v.fits;
    buffer = refl;
    pushed = refl;
    balance = λ x. refl;
    takers = λ q f. f;
    owner = λ o' f. f;
  }

  -- The compare-exchange on `head` succeeds.
  risen-Kept : (a h elt : ℕ) → m.head ≡ h → TakerFits m (got_elt a h elt) → Kept m (risen m h elt)
  risen-Kept a h elt e f = record {
    array_valid = v.array_valid;
    ordered = omega (arith, f.2 e);
    fits = omega (arith, v.fits);
    buffer = refl;
    pushed = refl;
    balance = λ x. omega (arith, ap (count x) first);
    takers = λ q g. taker_pass m h elt q e g;
    owner = λ o' g. owner_pass m h elt o' e g;
  }
    where
      first : line m ≡ elt ∷ line (risen m h elt)
      first =
          window_front (array m) m.head m.tail (omega (arith, f.2 e))
          ∙ ap₂ ◌∷◌ (ap (get (array m)) e ∙ sym (f.3 e))
              (ap (λ k. window (array m) (k + 1) (m.tail - (k + 1))) e)

  TakerMove-Kept : {p p' : Taker} {m' : Shared} → TakerMove m p m' p' → TakerFits m p → Kept m m'
  TakerMove-Kept load_head f = unchanged
  TakerMove-Kept (miss e) f = unchanged
  TakerMove-Kept (load_tail ne) f = unchanged
  TakerMove-Kept load_elt f = unchanged
  TakerMove-Kept (win {arr} {h} {elt} e) f = risen-Kept arr h elt e f
  TakerMove-Kept (retry ne) f = unchanged

  TakerMove-fits :
      {p p' : Taker} {m' : Shared} → TakerMove m p m' p' → TakerFits m p → TakerFits m' p'
  TakerMove-fits load_head f = (f, omega arith)
  TakerMove-fits (miss e) f = tt
  TakerMove-fits (load_tail ne) f = (f.0, f.1, λ e. omega (arith, v.ordered))
  TakerMove-fits load_elt f = (f.0, f.1, f.2, λ e. rw f.0)
  TakerMove-fits (win e) f = tt
  TakerMove-fits (retry ne) f = f.0

-- What holds of every thief holds after one of them has moved on.
update_all :
    (P : Taker → Type 0) (th : ℕ → Taker) (i : ℕ) (p : Taker)
    → P p
    → ((j : ℕ) → P (th j))
    → (j : ℕ) → P (update th i p j)
update_all P th i p new old j = elim (ℕ_discrete i j) [
  | yes e ↦ rw (← e, update_self th i p) new
  | no ne ↦ rw (update_ne th i p j ne) (old j)
]

conserved_by :
    {m m' : Shared} (o o' : Owner)
    → Kept m m'
    → carried o' ≡ carried o
    → Conserves m o
    → Conserves m' o'
conserved_by {m} {m'} o o' k c h x = rw (k.pushed, k.buffer, c) (omega (arith, h x, k.balance x))

pub popping-Inv :
    {m m' : Shared} {p p' : Taker} {th : ℕ → Taker}
    → TakerMove m p m' p'
    → Inv m (popping p) th
    → Inv m' (popping p') th
popping-Inv {p = p} {p' = p'} mv v =
    let k = TakerMove-Kept v mv v.owner_fits in
    record {
      array_valid = k.array_valid;
      ordered = k.ordered;
      fits = k.fits;
      owner_fits = TakerMove-fits v mv v.owner_fits;
      thief_fits = λ i. k.takers _ (v.thief_fits i);
      conserved = conserved_by (popping p) (popping p') k refl v.conserved;
    }

pub thief-Inv :
    {m m' : Shared} {p p' : Taker} {o : Owner} {th : ℕ → Taker} (i : ℕ)
    → TakerMove m p m' p'
    → TakerFits m p
    → Inv m o th
    → Inv m' o (update th i p')
thief-Inv {m' = m'} {p' = p'} {o = o} {th = th} i mv f v =
    let k = TakerMove-Kept v mv f in
    record {
      array_valid = k.array_valid;
      ordered = k.ordered;
      fits = k.fits;
      owner_fits = k.owner o v.owner_fits;
      thief_fits =
          update_all (TakerFits m') th i p' (TakerMove-fits v mv f)
            (λ j. k.takers (th j) (v.thief_fits j));
      conserved = conserved_by o o k refl v.conserved;
    }

-- A thief enters `tk_queue_steal`.
pub call_steal-Inv :
    {m : Shared} {o : Owner} {th : ℕ → Taker} (i : ℕ)
    → Inv m o th
    → Inv m o (update th i (looping m.current))
call_steal-Inv {m} {th = th} i v = record {
  array_valid = v.array_valid;
  ordered = v.ordered;
  fits = v.fits;
  owner_fits = v.owner_fits;
  thief_fits = update_all (TakerFits m) th i (looping m.current) refl v.thief_fits;
  conserved = v.conserved;
}
