-- ===== src/Net/SendAll.antt =====
-- When the loop of `await_send_all` ends.
use libseff.Base.{
  ℕ, zero, suc, ◌+◌, ◌-◌, ◌<◌, ◌≤◌, ◌≡◌, refl, subst, ◌^◌, ap, arith, Bool, true, false, not, ltb,
  if◌then◌else◌, ◌⊎◌, inl, inr, Option, none, some, dec_lt,
}
use libseff.Base.Result.{ok}
use libseff.Net.{Calls, after_send, await_send, send_loop, await_send_all}

-- What an answer to a request to send `len` bytes may be: a failure, or some of the bytes.
abbrev pub Sends : ℕ → Option ℕ → Type 0
Sends len none = Unit
Sends len (some n) = (0 < n) × (n ≤ len)

if-Sends :
    {W : Type 0} (len : ℕ) (b : Bool) (x y : Option ℕ × W)
    → Sends len x.0
    → Sends len y.0
    → Sends len (if b then x else y).0
if-Sends len true x y s t = s
if-Sends len false x y s t = t

module _ {W : Type 0} (calls : Calls W)
    (sends : (w : W) (offset len : ℕ) → 0 < len → Sends len (calls.send w offset len).0)
    (no_hangup : (w : W) → (calls.poll_await w).0.hangup ≡ false) where
  after_send-Sends :
      (w : W) (offset len : ℕ) (answer : Option ℕ)
      → 0 < len
      → Sends len answer
      → Sends len (after_send calls w offset len answer).0
  after_send-Sends w offset len (some n) pos s = s
  after_send-Sends w offset len none pos s = rw (no_hangup w) (
      if-Sends len (not (calls.again w)) _ _ tt (
        if-Sends len (not (calls.poll_await w).0.write) _ _ tt
          (sends (calls.poll_await w).1 offset len pos)))

  await_send-Sends :
      (w : W) (offset len : ℕ) → 0 < len → Sends len (await_send calls w offset len).0
  unfolding await_send
  await_send-Sends w offset len pos =
      after_send-Sends (calls.send w offset len).1 offset len (calls.send w offset len).0 pos
        (sends w offset len pos)

  -- The loop ends, with the whole buffer sent or with a failure.
  abbrev Ends : ℕ → ℕ → W → ℕ → Option (Option ℕ) → Type 0
  Ends fuel bufsz w total n =
      (send_loop calls fuel bufsz w total (bufsz - total) n ≡ some (ok (some bufsz)))
      ⊎ (send_loop calls fuel bufsz w total (bufsz - total) n ≡ some (ok none))

  round-Ends :
      (fuel bufsz : ℕ) (w : W) (total : ℕ) (n : Option (Option ℕ)) (sent : Option ℕ)
      → total < bufsz
      → (await_send calls w total (bufsz - total)).0 ≡ sent
      → Sends (bufsz - total) sent
      → ((k : ℕ)
          → k ≤ bufsz - total
          → 0 < k
          → Ends fuel bufsz
              (await_send calls w total (bufsz - total)).1
              (total + k)
              (some (some k)))
      → Ends (suc fuel) bufsz w total n
  unfolding send_loop
  round-Ends fuel bufsz w total n none lt e s rest = inr (rw (more, e) refl)
    where
      more : ltb total bufsz ≡ true
      more = ground arith
  round-Ends fuel bufsz w total n (some k) lt e s rest = rw (more, e, left) (rest k s.1 s.0)
    where
      more : ltb total bufsz ≡ true
      more = ground arith

      left : bufsz - total - k ≡ bufsz - (total + k)
      left = omega arith

  send_loop-Ends :
      (fuel bufsz : ℕ) (w : W) (total : ℕ) (n : Option (Option ℕ))
      → total ≤ bufsz
      → (total ≡ bufsz → (k : ℕ) × (n ≡ some (some k)))
      → bufsz < total + fuel
      → Ends fuel bufsz w total n
  unfolding send_loop
  send_loop-Ends zero bufsz w total n le last h = absurd (omega arith)
  send_loop-Ends (suc fuel) bufsz w total n le last h = elim (dec_lt total bufsz) [
    | no full ↦
        inl (rw (at_end full, (last (omega arith)).1) (ap (λ t. some (ok (some t))) (omega arith)))
    | yes lt ↦
        round-Ends fuel bufsz w total n (await_send calls w total (bufsz - total)).0 lt refl
          (await_send-Sends w total (bufsz - total) (omega arith))
          (λ k fits pos.
            send_loop-Ends fuel bufsz (await_send calls w total (bufsz - total)).1 (total + k)
              (some (some k)) (omega arith) (λ _. (k, refl)) (omega arith))
  ]
    where
      at_end : (total < bufsz → ⊥) → ltb total bufsz ≡ false
      at_end full = ground arith

  -- If each send answers with a failure or with some of the bytes that it was given, and no poll
  -- reports a hang-up, then `await_send_all` on a buffer of 1 to 2^31 - 1 bytes ends within one round
  -- for each byte, with the size of the buffer or with -1.
  pub await_send_all-ends :
      (fuel bufsz : ℕ) (w : W)
      → 0 < bufsz
      → bufsz < 2 ^ 31
      → bufsz < fuel
      → (await_send_all calls fuel w bufsz ≡ some (ok (some bufsz)))
        ⊎ (await_send_all calls fuel w bufsz ≡ some (ok none))
  unfolding await_send_all
  await_send_all-ends fuel bufsz w pos small h =
      subst
        (λ left.
          (send_loop calls fuel bufsz w 0 left none ≡ some (ok (some bufsz)))
          ⊎ (send_loop calls fuel bufsz w 0 left none ≡ some (ok none)))
        whole
        (send_loop-Ends fuel bufsz w 0 none (omega arith) (λ e. absurd (omega arith)) (omega arith))
    where
      whole : bufsz - 0 ≡ bufsz
      whole = omega arith

module _ {W : Type 0} (calls : Calls W)
    (blocked : (w : W) (offset len : ℕ) → (calls.send w offset len).0 ≡ none)
    (again : (w : W) → calls.again w ≡ true)
    (hung_up : (w : W) → (calls.poll_await w).0.hangup ≡ true) where
  hung_up-zero : (w : W) (offset len : ℕ) → (await_send calls w offset len).0 ≡ some 0
  unfolding await_send
  hung_up-zero w offset len =
      rw
        (
          blocked w offset len,
          again (calls.send w offset len).1,
          hung_up (calls.send w offset len).1,
        )
        refl

  send_loop-stuck :
      (fuel bufsz : ℕ) (w : W) (total bytesleft : ℕ) (n : Option (Option ℕ))
      → total < bufsz
      → send_loop calls fuel bufsz w total bytesleft n ≡ none
  unfolding send_loop
  send_loop-stuck zero bufsz w total bytesleft n lt = refl
  send_loop-stuck (suc fuel) bufsz w total bytesleft n lt =
      rw (more, hung_up-zero w total bytesleft)
        (send_loop-stuck fuel bufsz (await_send calls w total bytesleft).1 (total + 0)
          (bytesleft - 0) (some (some 0)) (omega arith))
    where
      more : ltb total bufsz ≡ true
      more = ground arith

  -- Once the peer has hung up while nothing can be sent, so that each send would block and each poll
  -- reports a hang-up, `await_send_all` on a buffer of 1 to 2^31 - 1 bytes goes round for ever: no
  -- fuel is enough.
  pub await_send_all-stuck :
      (fuel bufsz : ℕ) (w : W)
      → 0 < bufsz
      → bufsz < 2 ^ 31
      → await_send_all calls fuel w bufsz ≡ none
  unfolding await_send_all
  await_send_all-stuck fuel bufsz w pos small = send_loop-stuck fuel bufsz w 0 bufsz none pos
