-- ===== src/Actors.antt =====
-- utils/actors.c: the mailbox of an actor, a circular buffer of pointers under atomic counters. A
-- message is an address, and 0 is NULL. `insert_msg` and `remove_msg` are calls that nobody interrupts;
-- below them is the same code as threads that take a step for each access to shared memory.
pub mod Mailbox
pub mod Overtaken
pub mod OneSender
pub mod Tests
use libseff.Base.{
  ℕ, zero, suc, ◌+◌, ◌-◌, ◌%◌, ◌^◌, ◌<◌, ◌≤◌, ◌≡◌, ◌≢◌, if◌then◌else◌, ◌==◌, leb, Option, none,
  some, not, Bool, true, false, List, [], ◌∷◌,
}
use libseff.Base.Memory.{update}
use libseff.Base.Result.{Fault, Result, ok, err}

-- `actor_t`, less its behaviour.
pub record Actor : Type 0 where
  pub mailbox : ℕ → ℕ
  pub start : ℕ
  pub write_loc : ℕ
  pub reserved_size : ℕ
  pub ready_size : ℕ
  pub mailbox_capacity : ℕ

abbrev pub default_mailbox_capacity : ℕ
default_mailbox_capacity = 128

-- `actor_init`, on whether `calloc` gives a block, and the actor that it leaves.
abbrev pub fresh : ℕ → Actor
fresh capacity = record {
  mailbox = λ i. 0;
  start = 0;
  write_loc = 0;
  reserved_size = 0;
  ready_size = 0;
  mailbox_capacity = capacity;
}

abbrev pub init : ℕ → Bool → Option Actor
init capacity false = none
init capacity true = some (fresh capacity)

-- `atomic_fetch_add(&counter, 1)` on an int64_t that is read as a size_t.
abbrev pub bump : ℕ → ℕ
bump counter = (counter + 1) % 2 ^ 64

-- `actor_has_space_poll` and `actor_has_msg_poll`
abbrev pub has_space : Actor → Bool
has_space a = not (leb a.mailbox_capacity a.reserved_size)

abbrev pub has_msg : Actor → Bool
has_msg a = not (a.ready_size == 0)

abbrev pub inserted : Actor → ℕ → Actor
inserted a msg = record a {
  reserved_size = a.reserved_size + 1;
  write_loc = bump a.write_loc;
  mailbox = update a.mailbox (a.write_loc % a.mailbox_capacity) msg;
  ready_size = a.ready_size + 1;
}

-- `actor_insert_msg`
pub insert_msg : Actor → ℕ → Result (Bool × Actor)
insert_msg a msg =
    if msg == 0
    then err Fault.assertion
    else if not (has_space a)
    then ok (false, a)
    else ok (true, inserted a msg)

abbrev pub removed : Actor → Actor
removed a = record a {
  ready_size = a.ready_size - 1;
  start = bump a.start;
  mailbox = update a.mailbox (a.start % a.mailbox_capacity) 0;
  reserved_size = a.reserved_size - 1;
}

-- `actor_remove_msg`
pub remove_msg : Actor → Result (ℕ × Actor)
remove_msg a =
    let result = a.mailbox (a.start % a.mailbox_capacity) in
    if not (has_msg a)
    then ok (0, a)
    else if result == 0
    then err Fault.assertion
    else ok (result, removed a)

-- A thread in `actor_insert_msg`, with the locals that are live there.
pub data Sender : Type 0 where
  out : Sender
  saw_size : (msg old_size : ℕ) → Sender
  reserving : (msg : ℕ) → Sender
  storing : (msg loc : ℕ) → Sender
  announcing : Sender

pub data SenderMove (a : Actor) : Sender → Actor → Sender → Type 0 where
  load_reserved : (msg : ℕ) → msg ≢ 0 → SenderMove a out a (saw_size msg a.reserved_size)
  no_space : {msg n : ℕ} → a.mailbox_capacity ≤ n → SenderMove a (saw_size msg n) a out
  reserve :
      {msg n : ℕ}
      → n < a.mailbox_capacity
      → a.reserved_size ≡ n
      → SenderMove a (saw_size msg n) (record a { reserved_size = n + 1 }) (reserving msg)
  reserve_fails :
      {msg n : ℕ}
      → n < a.mailbox_capacity
      → a.reserved_size ≢ n
      → SenderMove a (saw_size msg n) a out
  locate :
      {msg : ℕ}
      → SenderMove a
          (reserving msg)
          (record a { write_loc = bump a.write_loc })
          (storing msg (a.write_loc % a.mailbox_capacity))
  store :
      {msg loc : ℕ}
      → SenderMove a (storing msg loc) (record a { mailbox = update a.mailbox loc msg }) announcing
  announce : SenderMove a announcing (record a { ready_size = a.ready_size + 1 }) out

-- The actor itself in `actor_remove_msg`; `failed` is its last assertion.
pub data Receiver : Type 0 where
  idle : Receiver
  saw_ready : (old_size : ℕ) → Receiver
  claimed : Receiver
  reading : (read : ℕ) → Receiver
  clearing : (read result : ℕ) → Receiver
  checking : (result : ℕ) → Receiver
  failed : Receiver

pub data ReceiverMove (a : Actor) : Receiver → Actor → Receiver → Type 0 where
  load_ready : ReceiverMove a idle a (saw_ready a.ready_size)
  no_msg : {n : ℕ} → n ≡ 0 → ReceiverMove a (saw_ready n) a idle
  claim :
      {n : ℕ}
      → n ≢ 0
      → a.ready_size ≡ n
      → ReceiverMove a (saw_ready n) (record a { ready_size = n - 1 }) claimed
  claim_fails : {n : ℕ} → n ≢ 0 → a.ready_size ≢ n → ReceiverMove a (saw_ready n) a idle
  advance :
      ReceiverMove a claimed
        (record a { start = bump a.start })
        (reading (a.start % a.mailbox_capacity))
  read_msg : {i : ℕ} → ReceiverMove a (reading i) a (clearing i (a.mailbox i))
  clear :
      {i r : ℕ}
      → ReceiverMove a (clearing i r) (record a { mailbox = update a.mailbox i 0 }) (checking r)
  assertion_fails : {r : ℕ} → r ≡ 0 → ReceiverMove a (checking r) a failed
  release :
      {r : ℕ}
      → r ≢ 0
      → ReceiverMove a (checking r) (record a { reserved_size = a.reserved_size - 1 }) idle

pub record System : Type 0 where
  pub actor : Actor
  pub sender : ℕ → Sender
  pub receiver : Receiver

pub data Step (s : System) : System → Type 0 where
  send :
      (i : ℕ) {a : Actor} {p : Sender}
      → SenderMove s.actor (s.sender i) a p
      → Step s (record s { actor = a; sender = update s.sender i p })
  receive :
      {a : Actor} {p : Receiver}
      → ReceiverMove s.actor s.receiver a p
      → Step s (record s { actor = a; receiver = p })

-- The states of an actor of `fork_actor`.
pub data Reach : System → Type 0 where
  start :
      {a : Actor}
      → init default_mailbox_capacity true ≡ some a
      → Reach (record { actor = a; sender = λ i. out; receiver = idle })
  later : {s t : System} → Reach s → Step s t → Reach t
