-- ===== src/Net.antt =====
-- utils/net.c: `await_send` and the loop of `await_send_all`; Net/Receive has `await_accept4` and
-- `await_recv`, Net/Listen `listen_tcp_socket`. The system calls, and what `poll`
-- reports once the coroutine is resumed, are parameters, over a state of the world that they change.
pub mod SendAll
pub mod Receive
pub mod Listen
pub mod Tests
use libseff.Base.{ℕ, zero, suc, ◌+◌, ◌-◌, Bool, not, ltb, if◌then◌else◌, Option, none, some}
use libseff.Base.Result.{Fault, Result, ok, err}

-- The bits of `revents` that are tested.
pub record Revents : Type 0 where
  pub hangup : Bool
  pub write : Bool

-- `send_syscall_wrapper` on so many bytes at an offset of the buffer, where `none` is -1; whether
-- `errno` is then EAGAIN or EWOULDBLOCK; and `poll_await` for WRITE.
pub record Calls (W : Type 0) : Type 0 where
  pub send : W → ℕ → ℕ → Option ℕ × W
  pub again : W → Bool
  pub poll_await : W → Revents × W

module _ {W : Type 0} (calls : Calls W) where
  -- `await_send` once its first send has answered.
  abbrev pub after_send : W → ℕ → ℕ → Option ℕ → Option ℕ × W
  after_send w offset len (some n) = (some n, w)
  after_send w offset len none =
      let (revents, w') = calls.poll_await w in
      if not (calls.again w)
      then (none, w)
      else if revents.hangup
      then (some 0, w')
      else if not revents.write
      then (none, w')
      else calls.send w' offset len

  -- `await_send`
  pub await_send : W → ℕ → ℕ → Option ℕ × W
  await_send w offset len =
      let (answer, w') = calls.send w offset len in after_send w' offset len answer

  -- The answer of `await_send_all`, by the local `n`, which is not set before the first round.
  abbrev pub answer_all : ℕ → Option (Option ℕ) → Result (Option ℕ)
  answer_all total none = err Fault.undefined
  answer_all total (some none) = ok none
  answer_all total (some (some n)) = ok (some total)

  -- The loop of `await_send_all` on fuel, where `none` means that the fuel ran out; an `int` holds the
  -- counts for buffers below 2^31 bytes.
  pub send_loop : ℕ → ℕ → W → ℕ → ℕ → Option (Option ℕ) → Option (Result (Option ℕ))
  unfolding await_send
  send_loop zero bufsz w total bytesleft n = none
  send_loop (suc fuel) bufsz w total bytesleft n =
      let (sent, w') = await_send w total bytesleft in
      if ltb total bufsz
      then elim sent [
        | none ↦ some (answer_all total (some none))
        | some k ↦ send_loop fuel bufsz w' (total + k) (bytesleft - k) (some (some k))
      ]
      else some (answer_all total n)

  -- `await_send_all`
  pub await_send_all : ℕ → W → ℕ → Option (Result (Option ℕ))
  unfolding send_loop
  await_send_all fuel w bufsz = send_loop fuel bufsz w 0 bufsz none
