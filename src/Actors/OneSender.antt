-- ===== src/Actors/OneSender.antt =====
-- One sender at a time: only sender 0 moves.
use libseff.Base.{
  ℕ, ◌+◌, ◌-◌, ◌%◌, ◌^◌, ◌<◌, ◌≤◌, ◌≡◌, ◌≢◌, refl, sym, subst, ap, ◌∙◌, arith, ℕ_discrete,
}
use libseff.Base.Memory.{update, update_self, update_ne}
use libseff.CircularArray.Window.{mod-ne}
use libseff.Actors.{
  Actor, default_mailbox_capacity, fresh, Sender, out, saw_size, reserving, storing, announcing,
  SenderMove, load_reserved, no_space, reserve, reserve_fails, locate, store, announce, Receiver,
  idle, saw_ready, claimed, reading, clearing, checking, failed, ReceiverMove, load_ready, no_msg,
  claim, claim_fails, advance, read_msg, clear, assertion_fails, release,
}

-- The sender, the receiver and the mailbox between them.
pub data Reach : Actor → Sender → Receiver → Type 0 where
  start : Reach (fresh default_mailbox_capacity) out idle
  send :
      {a b : Actor} {p p' : Sender} {q : Receiver}
      → Reach a p q
      → SenderMove a p b p'
      → Reach b p' q
  receive :
      {a b : Actor} {p : Sender} {q q' : Receiver}
      → Reach a p q
      → ReceiverMove a q b q'
      → Reach b p q'

-- What the sender has reserved, located and stored beyond the messages it has announced.
abbrev reserved : Sender → ℕ
reserved out = 0
reserved (saw_size m n) = 0
reserved _ = 1

abbrev located : Sender → ℕ
located (storing m l) = 1
located announcing = 1
located _ = 0

abbrev stored : Sender → ℕ
stored announcing = 1
stored _ = 0

-- What the receiver has claimed, advanced over and cleared beyond the messages it has released.
abbrev taken : Receiver → ℕ
taken idle = 0
taken (saw_ready n) = 0
taken _ = 1

abbrev advanced : Receiver → ℕ
advanced idle = 0
advanced (saw_ready n) = 0
advanced claimed = 0
advanced _ = 1

abbrev cleared : Receiver → ℕ
cleared (checking r) = 1
cleared _ = 0

-- `sent` messages were announced.
abbrev SenderFits : ℕ → Sender → Type 0
SenderFits sent out = Unit {0}
SenderFits sent (saw_size m n) = m ≢ 0
SenderFits sent (reserving m) = m ≢ 0
SenderFits sent (storing m l) = (m ≢ 0) × (l ≡ sent % 128)
SenderFits sent announcing = Unit {0}

-- `got` messages were released.
abbrev ReceiverFits : ℕ → Receiver → Type 0
ReceiverFits got idle = Unit {0}
ReceiverFits got (saw_ready n) = Unit {0}
ReceiverFits got claimed = Unit {0}
ReceiverFits got (reading i) = i ≡ got % 128
ReceiverFits got (clearing i r) = (i ≡ got % 128) × (r ≢ 0)
ReceiverFits got (checking r) = r ≢ 0
ReceiverFits got failed = ⊥

record Inv (a : Actor) (p : Sender) (q : Receiver) (sent got : ℕ) : Type 0 where
  capacity : a.mailbox_capacity ≡ 128
  reserved_eq : a.reserved_size + got ≡ sent + reserved p
  ready_eq : a.ready_size + got + taken q ≡ sent
  room : sent + reserved p ≤ got + 128
  write_eq : a.write_loc ≡ (sent + located p) % 2 ^ 64
  start_eq : a.start ≡ (got + advanced q) % 2 ^ 64
  full : (i : ℕ) → got + cleared q ≤ i → i < sent + stored p → a.mailbox (i % 128) ≢ 0
  sender_fits : SenderFits sent p
  receiver_fits : ReceiverFits got q

-- The cells of two messages in the mailbox are different.
apart : (i j : ℕ) → i < j → j < i + 128 → i % 128 ≢ j % 128
apart i j lt near e =
    let there : i + (j - i) ≡ j = omega arith in
    mod-ne 128 i (j - i) (omega arith) (omega arith) (ap (λ z. z % 128) there ∙ sym e)

stored_le : (p : Sender) → stored p ≤ reserved p
stored_le out = omega arith
stored_le (saw_size m n) = omega arith
stored_le (reserving m) = omega arith
stored_le (storing m l) = omega arith
stored_le announcing = omega arith

-- Two threads that have come on without touching the mailbox.
relabel :
    {a : Actor} {p p' : Sender} {q q' : Receiver} {sent got : ℕ}
    → Inv a p q sent got
    → (reserved p' ≡ reserved p) × (located p' ≡ located p) × (stored p' ≡ stored p)
    → (taken q' ≡ taken q) × (advanced q' ≡ advanced q) × (cleared q' ≡ cleared q)
    → SenderFits sent p'
    → ReceiverFits got q'
    → Inv a p' q' sent got
relabel {sent = sent} {got = got} v (r, l, s) (t, d, c) fits fits' = record {
  capacity = v.capacity;
  reserved_eq = omega (arith, v.reserved_eq, r);
  ready_eq = omega (arith, v.ready_eq, t);
  room = omega (arith, v.room, r);
  write_eq = v.write_eq ∙ ap (λ z. (sent + z) % 2 ^ 64) (sym l);
  start_eq = v.start_eq ∙ ap (λ z. (got + z) % 2 ^ 64) (sym d);
  full = λ i le lt. v.full i (omega (arith, c)) (omega (arith, s));
  sender_fits = fits;
  receiver_fits = fits';
}

send-Inv :
    {a b : Actor} {p p' : Sender} {q : Receiver} (sent got : ℕ)
    → Inv a p q sent got
    → SenderMove a p b p'
    → (sent' : ℕ) × Inv b p' q sent' got
send-Inv sent got v (load_reserved m ne) =
    (sent, relabel v (refl, refl, refl) (refl, refl, refl) ne v.receiver_fits)
send-Inv sent got v (no_space full) =
    (sent, relabel v (refl, refl, refl) (refl, refl, refl) tt v.receiver_fits)
send-Inv sent got v (reserve_fails lt ne) =
    (sent, relabel v (refl, refl, refl) (refl, refl, refl) tt v.receiver_fits)
send-Inv sent got v (reserve lt same) = (
  sent,
  record {
    capacity = v.capacity;
    reserved_eq = omega (arith, v.reserved_eq, same);
    ready_eq = v.ready_eq;
    room = omega (arith, v.reserved_eq, same, v.capacity);
    write_eq = v.write_eq;
    start_eq = v.start_eq;
    full = v.full;
    sender_fits = v.sender_fits;
    receiver_fits = v.receiver_fits;
  },
)
send-Inv {a = a} sent got v locate = (
  sent,
  record {
    capacity = v.capacity;
    reserved_eq = v.reserved_eq;
    ready_eq = v.ready_eq;
    room = v.room;
    write_eq = omega (arith, v.write_eq);
    start_eq = v.start_eq;
    full = v.full;
    sender_fits = (v.sender_fits, ap (λ z. a.write_loc % z) v.capacity ∙ omega (arith, v.write_eq));
    receiver_fits = v.receiver_fits;
  },
)
send-Inv {a = a} sent got v (store {msg = msg} {loc = loc}) = (
  sent,
  record {
    capacity = v.capacity;
    reserved_eq = v.reserved_eq;
    ready_eq = v.ready_eq;
    room = v.room;
    write_eq = v.write_eq;
    start_eq = v.start_eq;
    full = λ i le lt. elim (ℕ_discrete i sent) [
      | yes here ↦ λ z.
          let at : i % 128 ≡ loc = ap (λ k. k % 128) here ∙ sym v.sender_fits.1 in
          v.sender_fits.0
            (sym (ap (update a.mailbox loc msg) at ∙ update_self a.mailbox loc msg) ∙ z)
      | no ne ↦ λ z. v.full i le (omega arith) (
          sym (
            update_ne a.mailbox loc msg (i % 128)
              (λ e. apart i sent (omega arith) (omega (arith, v.room)) (sym e ∙ v.sender_fits.1)))
          ∙ z)
    ];
    sender_fits = tt;
    receiver_fits = v.receiver_fits;
  },
)
send-Inv sent got v announce = (
  sent + 1,
  record {
    capacity = v.capacity;
    reserved_eq = omega (arith, v.reserved_eq);
    ready_eq = omega (arith, v.ready_eq);
    room = omega (arith, v.room);
    write_eq = v.write_eq ∙ ap (λ z. z % 2 ^ 64) (omega arith);
    start_eq = v.start_eq;
    full = λ i le lt. v.full i le (omega arith);
    sender_fits = tt;
    receiver_fits = v.receiver_fits;
  },
)

receive-Inv :
    {a b : Actor} {p : Sender} {q q' : Receiver} (sent got : ℕ)
    → Inv a p q sent got
    → ReceiverMove a q b q'
    → (got' : ℕ) × Inv b p q' sent got'
receive-Inv sent got v load_ready =
    (got, relabel v (refl, refl, refl) (refl, refl, refl) v.sender_fits tt)
receive-Inv sent got v (no_msg z) =
    (got, relabel v (refl, refl, refl) (refl, refl, refl) v.sender_fits tt)
receive-Inv sent got v (claim_fails ne ne') =
    (got, relabel v (refl, refl, refl) (refl, refl, refl) v.sender_fits tt)
receive-Inv sent got v (claim ne same) = (
  got,
  record {
    capacity = v.capacity;
    reserved_eq = v.reserved_eq;
    ready_eq = omega (arith, v.ready_eq, same);
    room = v.room;
    write_eq = v.write_eq;
    start_eq = v.start_eq;
    full = v.full;
    sender_fits = v.sender_fits;
    receiver_fits = tt;
  },
)
receive-Inv {a = a} sent got v advance = (
  got,
  record {
    capacity = v.capacity;
    reserved_eq = v.reserved_eq;
    ready_eq = v.ready_eq;
    room = v.room;
    write_eq = v.write_eq;
    start_eq = omega (arith, v.start_eq);
    full = v.full;
    sender_fits = v.sender_fits;
    receiver_fits = ap (λ z. a.start % z) v.capacity ∙ omega (arith, v.start_eq);
  },
)
receive-Inv {a = a} sent got v read_msg = (
  got,
  relabel v (refl, refl, refl) (refl, refl, refl) v.sender_fits
      (
        v.receiver_fits,
        λ z.
            v.full got (omega arith) (omega (arith, v.ready_eq))
              (ap a.mailbox (sym v.receiver_fits) ∙ z),
      ),
)
receive-Inv {a = a} {p = p} sent got v (clear {i = i}) = (
  got,
  record {
    capacity = v.capacity;
    reserved_eq = v.reserved_eq;
    ready_eq = v.ready_eq;
    room = v.room;
    write_eq = v.write_eq;
    start_eq = v.start_eq;
    full = λ j le lt. λ z. v.full j (omega arith) lt (
        sym (
          update_ne a.mailbox i 0 (j % 128) (λ e.
            apart got j (omega arith) (omega (arith, v.room, stored_le p))
              (sym v.receiver_fits.0 ∙ e)))
        ∙ z);
    sender_fits = v.sender_fits;
    receiver_fits = v.receiver_fits.1;
  },
)
receive-Inv sent got v (assertion_fails z) = absurd (v.receiver_fits z)
receive-Inv sent got v (release ne) = (
  got + 1,
  record {
    capacity = v.capacity;
    reserved_eq = omega (arith, v.reserved_eq, v.ready_eq);
    ready_eq = omega (arith, v.ready_eq);
    room = omega (arith, v.room);
    write_eq = v.write_eq;
    start_eq = v.start_eq ∙ ap (λ z. z % 2 ^ 64) (omega arith);
    full = λ i le lt. v.full i (omega arith) lt;
    sender_fits = v.sender_fits;
    receiver_fits = tt;
  },
)

reach-Inv :
    {a : Actor} {p : Sender} {q : Receiver}
    → Reach a p q
    → (sent : ℕ) × (got : ℕ) × Inv a p q sent got
reach-Inv start = (
  0,
  0,
  record {
    capacity = refl;
    reserved_eq = refl;
    ready_eq = refl;
    room = omega arith;
    write_eq = refl;
    start_eq = refl;
    full = λ i le lt. absurd (omega arith);
    sender_fits = tt;
    receiver_fits = tt;
  },
)
reach-Inv (send r m) =
    let (sent, got, v) = reach-Inv r in let (sent', v') = send-Inv sent got v m in (sent', got, v')
reach-Inv (receive r m) =
    let (sent, got, v) = reach-Inv r in
    let (got', v') = receive-Inv sent got v m in (sent, got', v')

-- In every interleaving of one sender with the actor, whose mailbox has the default capacity, the
-- assertion of actor_remove_msg does not fail, and no more than 128 places are reserved.
pub one_sender_safe :
    (a : Actor) (p : Sender) (q : Receiver) → Reach a p q → (q ≢ failed) × (a.reserved_size ≤ 128)
one_sender_safe a p q r =
    let (sent, got, v) = reach-Inv r in
    (λ e. subst (ReceiverFits got) e v.receiver_fits, omega (arith, v.reserved_eq, v.room))
