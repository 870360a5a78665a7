-- ===== src/Net/Tests.antt =====
-- Runs of `await_send_all`, `await_recv` and `listen_tcp_socket`.
use libseff.Base.{
  ℕ, ◌+◌, ◌<◌, ◌≤◌, ◌≡◌, refl, arith, true, false, none, some, ◌⊎◌, inl, inr, ltb, if◌then◌else◌,
  ◌==◌, [], ◌∷◌, count,
}
use libseff.Net.Receive.{Wrappers, await_recv, Receives, await_recv-bounds}
use libseff.Net.Listen.{
  Sockets, Flags, listen_tcp_socket, bind_first, answer, listen_tcp_socket-closes,
}
use libseff.Base.Result.{Fault, ok, err}
use libseff.Net.{Calls, await_send, send_loop, await_send_all}
use libseff.Net.SendAll.{Sends, await_send_all-ends, await_send_all-stuck}

-- A socket that takes one byte at a time.
abbrev slow : Calls ℕ
slow = record {
  send = λ w offset len. (some 1, w + 1);
  again = λ w. false;
  poll_await = λ w. (record { hangup = false; write = true }, w);
}

slow-Sends : (w : ℕ) (offset len : ℕ) → 0 < len → Sends len (slow.send w offset len).0
slow-Sends w offset len pos = (omega arith, omega arith)

await_send_all-ends_example :
    (await_send_all slow 5 0 3 ≡ some (ok (some 3))) ⊎ (await_send_all slow 5 0 3 ≡ some (ok none))
await_send_all-ends_example =
    await_send_all-ends slow slow-Sends (λ w. refl) 5 3 0 (omega arith) (omega arith) (omega arith)

sends_all : await_send_all slow 5 0 3 ≡ some (ok (some 3))
unfolding await_send_all send_loop await_send
sends_all = refl

-- The answer for an empty buffer is by a variable that was never set.
sends_nothing : await_send_all slow 5 0 0 ≡ some (err Fault.undefined)
unfolding await_send_all send_loop await_send
sends_nothing = refl

-- A socket whose peer has hung up.
abbrev hung_up : Calls ℕ
hung_up = record {
  send = λ w offset len. (none, w);
  again = λ w. true;
  poll_await = λ w. (record { hangup = true; write = false }, w);
}

await_send_all-stuck_example : await_send_all hung_up 100 0 3 ≡ none
await_send_all-stuck_example =
    await_send_all-stuck hung_up (λ w offset len. refl) (λ w. refl) (λ w. refl) 100 3 0
      (omega arith) (omega arith)

-- A peer that fills every buffer with 7.
abbrev filled : (ℕ → ℕ) → ℕ → ℕ → ℕ → ℕ
filled memory buffer bufsz a =
    if ltb a buffer then memory a else if ltb a (buffer + bufsz) then 7 else memory a

abbrev pub filling : Wrappers ℕ
filling = record {
  accept4 = λ w. (none, w);
  recv = λ w memory buffer bufsz. (some bufsz, w, filled memory buffer bufsz);
  again = λ w. true;
  poll_await = λ w. (record { hangup = false; read = true }, w);
}

pub filling-Receives :
    (w : ℕ) (memory : ℕ → ℕ) (buffer bufsz : ℕ)
    → Receives memory buffer bufsz (filling.recv w memory buffer bufsz)
filling-Receives w memory buffer bufsz = (λ n e. ground (arith, e), λ a out. kept a out)
  where
    kept : (a : ℕ) → (a < buffer) ⊎ (buffer + bufsz ≤ a) → filled memory buffer bufsz a ≡ memory a
    kept a (inl lt) = ground (arith, lt)
    kept a (inr le) = ground (arith, le)

await_recv-bounds_example :
    ((a : ℕ) → (a < 1000) ⊎ (1000 + 2 < a) → (await_recv filling 0 (λ b. 9) 1000 2).2 a ≡ 9)
    × ((filling.recv 0 (λ b. 9) 1000 2).0 ≡ some 2
        → (await_recv filling 0 (λ b. 9) 1000 2).2 (1000 + 2) ≡ 0)
await_recv-bounds_example =
    await_recv-bounds filling filling-Receives 0 (λ b. 9) 1000 2 (omega arith)

-- Two addresses, of which the second can be bound; descriptors from 3 on.
abbrev second : Sockets ℕ ℕ
second = record {
  getaddrinfo = λ w. (some (1 ∷ 2 ∷ []), w);
  socket = λ w p nb. (some w, w + 1);
  reuse_addr = λ w fd. w;
  reuse_port = λ w fd. w;
  bind = λ w fd p. (p == 2, w);
  listen = λ w fd n. (true, w);
  close = λ w fd. w;
  freeaddrinfo = λ w. w;
}

abbrev plain : Flags
plain = record {
  non_blocking = true;
  reuse_address = true;
  reuse_port = false;
  listen_queue_size = 8;
}

listens : (listen_tcp_socket second plain 3).0 ≡ some 4
unfolding listen_tcp_socket bind_first
listens = refl

listen_tcp_socket-closes_example :
    (count 4 (listen_tcp_socket second plain 3).1.opened
      ≡ count 4 (listen_tcp_socket second plain 3).1.closed
        + count 4 (answer second plain (listen_tcp_socket second plain 3).0))
    × ((listen_tcp_socket second plain 3).1.freed ≡ 1)
listen_tcp_socket-closes_example = listen_tcp_socket-closes second plain 3 4
