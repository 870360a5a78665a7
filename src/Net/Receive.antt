-- ===== src/Net/Receive.antt =====
-- utils/net.c: `await_accept4` and `await_recv`. The system calls, and what `poll` reports once the
-- coroutine is resumed, are parameters, over a state of the world and the memory that they change.
use libseff.Base.{
  ℕ, ◌^◌, ◌+◌, ◌<◌, ◌≤◌, ◌≡◌, ◌≢◌, ◌⊎◌, inl, inr, refl, ◌∙◌, arith, Bool, true, false, not,
  if◌then◌else◌, Option, none, some,
}
use libseff.Base.Memory.{update, update_ne}

-- The bits of `revents` that are tested.
pub record Events : Type 0 where
  pub hangup : Bool
  pub read : Bool

-- `accept4_syscall_wrapper`, and `recv_syscall_wrapper` at an address with a size, where `none` is -1;
-- whether `errno` is then EAGAIN or EWOULDBLOCK; and `poll_await` for READ. The memory is the bytes at
-- their addresses.
pub record Wrappers (W : Type 0) : Type 0 where
  pub accept4 : W → Option ℕ × W
  pub recv : W → (ℕ → ℕ) → ℕ → ℕ → Option ℕ × W × (ℕ → ℕ)
  pub again : W → Bool
  pub poll_await : W → Events × W

module _ {W : Type 0} (calls : Wrappers W) where
  abbrev pub after_accept : Option ℕ → W → Option ℕ × W
  after_accept (some n_read) w = (some n_read, w)
  after_accept none w =
      let (revents, w') = calls.poll_await w in
      if not (calls.again w)
      then (none, w)
      else if revents.hangup
      then (some 0, w')
      else if not revents.read
      then (none, w')
      else calls.accept4 w'

  -- `await_accept4`
  pub await_accept4 : W → Option ℕ × W
  await_accept4 w = let (n_read, w') = calls.accept4 w in after_accept n_read w'

  -- `await_recv` once its first `recv` has answered.
  abbrev pub after_recv : ℕ → ℕ → Option ℕ × W × (ℕ → ℕ) → Option ℕ × W × (ℕ → ℕ)
  after_recv buffer bufsz (some n_read, w, memory) =
      (some n_read, w, update memory (buffer + n_read) 0)
  after_recv buffer bufsz (none, w, memory) =
      let (revents, w') = calls.poll_await w in
      if not (calls.again w)
      then (none, w, memory)
      else if revents.hangup
      then (some 0, w', memory)
      else if not revents.read
      then (none, w', memory)
      else calls.recv w' memory buffer bufsz

  -- `await_recv`
  pub await_recv : W → (ℕ → ℕ) → ℕ → ℕ → Option ℕ × W × (ℕ → ℕ)
  await_recv w memory buffer bufsz = after_recv buffer bufsz (calls.recv w memory buffer bufsz)

-- What `recv` may answer and do: a failure, or at most the bytes that the buffer has; and it leaves
-- the memory outside the buffer as it is.
abbrev pub Receives : {W : Type 0} → (ℕ → ℕ) → ℕ → ℕ → Option ℕ × W × (ℕ → ℕ) → Type 0
Receives memory buffer bufsz r =
    ((n : ℕ) → r.0 ≡ some n → n ≤ bufsz)
    × ((a : ℕ) → (a < buffer) ⊎ (buffer + bufsz ≤ a) → r.2 a ≡ memory a)

outside :
    (buffer bufsz : ℕ) {a : ℕ}
    → (a < buffer) ⊎ (buffer + bufsz < a)
    → (a < buffer) ⊎ (buffer + bufsz ≤ a)
outside buffer bufsz (inl lt) = inl lt
outside buffer bufsz (inr lt) = inr (omega arith)

if-keeps :
    {W : Type 0} (b : Bool) (x y : Option ℕ × W × (ℕ → ℕ)) (a v : ℕ)
    → x.2 a ≡ v
    → y.2 a ≡ v
    → (if b then x else y).2 a ≡ v
if-keeps true x y a v s t = s
if-keeps false x y a v s t = t

module _ {W : Type 0} (calls : Wrappers W)
    (receives : (w : W) (memory : ℕ → ℕ) (buffer bufsz : ℕ)
      → Receives memory buffer bufsz (calls.recv w memory buffer bufsz)) where
  after_recv-keeps :
      (buffer bufsz : ℕ) (memory : ℕ → ℕ) (r : Option ℕ × W × (ℕ → ℕ)) (a : ℕ)
      → Receives memory buffer bufsz r
      → (a < buffer) ⊎ (buffer + bufsz < a)
      → (after_recv calls buffer bufsz r).2 a ≡ memory a
  after_recv-keeps buffer bufsz memory (some n, w, m) a h out =
      update_ne m (buffer + n) 0 a (far out) ∙ h.1 a (outside buffer bufsz out)
    where
      far : (a < buffer) ⊎ (buffer + bufsz < a) → buffer + n ≢ a
      far (inl lt) e = omega (arith, e, lt)
      far (inr lt) e = omega (arith, e, lt, h.0 n refl)
  after_recv-keeps buffer bufsz memory (none, w, m) a h out =
      if-keeps (not (calls.again w)) _ _ a (memory a) (h.1 a (outside buffer bufsz out)) (
        if-keeps (calls.poll_await w).0.hangup _ _ a (memory a) (h.1 a (outside buffer bufsz out)) (
          if-keeps (not (calls.poll_await w).0.read) _ _ a (memory a)
            (h.1 a (outside buffer bufsz out))
            ((receives (calls.poll_await w).1 m buffer bufsz).1 a (outside buffer bufsz out)
              ∙ h.1 a (outside buffer bufsz out))))

  -- No answer is more than the size of the buffer.
  if-le :
      (bufsz : ℕ) (b : Bool) (x y : Option ℕ × W × (ℕ → ℕ))
      → ((n : ℕ) → x.0 ≡ some n → n ≤ bufsz)
      → ((n : ℕ) → y.0 ≡ some n → n ≤ bufsz)
      → (n : ℕ) → (if b then x else y).0 ≡ some n
      → n ≤ bufsz
  if-le bufsz true x y s t = s
  if-le bufsz false x y s t = t

  after_recv-le :
      (buffer bufsz : ℕ) (memory : ℕ → ℕ) (r : Option ℕ × W × (ℕ → ℕ))
      → Receives memory buffer bufsz r
      → (n : ℕ) → (after_recv calls buffer bufsz r).0 ≡ some n
      → n ≤ bufsz
  after_recv-le buffer bufsz memory (some k, w, m) h n e = h.0 n e
  after_recv-le buffer bufsz memory (none, w, m) h n e =
      if-le bufsz (not (calls.again w)) _ _ (λ n e. cc)
        (if-le bufsz (calls.poll_await w).0.hangup _ _ (λ n e. ground (arith, e))
          (if-le bufsz (not (calls.poll_await w).0.read) _ _ (λ n e. cc)
            (receives (calls.poll_await w).1 m buffer bufsz).0))
        n e

  pub await_recv-le :
      (w : W) (memory : ℕ → ℕ) (buffer bufsz n : ℕ)
      → (await_recv calls w memory buffer bufsz).0 ≡ some n
      → n ≤ bufsz
  unfolding await_recv
  await_recv-le w memory buffer bufsz n e =
      after_recv-le buffer bufsz memory (calls.recv w memory buffer bufsz)
        (receives w memory buffer bufsz) n e

  full-past_end :
      (buffer bufsz : ℕ) (r : Option ℕ × W × (ℕ → ℕ))
      → r.0 ≡ some bufsz
      → (after_recv calls buffer bufsz r).2 (buffer + bufsz) ≡ 0
  full-past_end buffer bufsz (some n, w, m) e = ground (arith, e)
  full-past_end buffer bufsz (none, w, m) e = ground (arith, e)

  -- If each recv answers with at most the size of the buffer and changes nothing outside it, then
  -- await_recv on a buffer below 2^31 bytes changes no byte but those of the buffer and the one after it, and it changes that one
  -- to 0 whenever its first recv fills the buffer.
  pub await_recv-bounds :
      (w : W) (memory : ℕ → ℕ) (buffer bufsz : ℕ)
      → bufsz < 2 ^ 31
      → ((a : ℕ)
          → (a < buffer) ⊎ (buffer + bufsz < a)
          → (await_recv calls w memory buffer bufsz).2 a ≡ memory a)
        × ((calls.recv w memory buffer bufsz).0 ≡ some bufsz
            → (await_recv calls w memory buffer bufsz).2 (buffer + bufsz) ≡ 0)
  unfolding await_recv
  await_recv-bounds w memory buffer bufsz small = (
    λ a out.
        after_recv-keeps buffer bufsz memory (calls.recv w memory buffer bufsz) a
          (receives w memory buffer bufsz) out,
    full-past_end buffer bufsz (calls.recv w memory buffer bufsz),
  )
