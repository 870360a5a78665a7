-- ===== src/Actors/Mailbox.antt =====
-- Calls that nobody interrupts, against a bounded line of messages.
use libseff.Base.{
  ℕ, suc, ◌+◌, ◌-◌, ◌%◌, ◌^◌, ◌<◌, ◌≤◌, ◌≡◌, ◌≢◌, refl, sym, subst, ap, ◌∙◌, arith, if◌then◌else◌,
  ltb, Bool, true, false, List, [], ◌∷◌, ◌++◌, length, length-append, dec_lt,
}
use libseff.Base.Memory.{update, update_self, update_ne}
use libseff.Base.Result.{Result, ok, ◌>>=◌}
use libseff.CircularArray.Window.{mod-ne}
use libseff.Actors.{Actor, fresh, bump, inserted, removed, insert_msg, remove_msg}

-- The calls of an actor's clients, and the answer of each; a send answers 0 when there is no space.
pub data Call : Type 0 where
  send_call : (msg : ℕ) → Call
  receive_call : Call

abbrev pub truth : Bool → ℕ
truth b = if b then 1 else 0

pub run : List Call → Actor → Result (List ℕ)
run [] a = ok []
run (send_call m ∷ calls) a =
    insert_msg a m >>= λ (o : Bool × Actor). run calls o.1 >>= λ answers. ok (truth o.0 ∷ answers)
run (receive_call ∷ calls) a =
    remove_msg a >>= λ (o : ℕ × Actor). run calls o.1 >>= λ answers. ok (o.0 ∷ answers)

-- What a bounded line of messages answers.
abbrev pub answers_of : ℕ → List Call → List ℕ → List ℕ
answers_of capacity [] line = []
answers_of capacity (send_call m ∷ calls) line =
    if ltb (length line) capacity
    then 1 ∷ answers_of capacity calls (line ++ (m ∷ []))
    else 0 ∷ answers_of capacity calls line
answers_of capacity (receive_call ∷ calls) [] = 0 ∷ answers_of capacity calls []
answers_of capacity (receive_call ∷ calls) (m ∷ line) = m ∷ answers_of capacity calls line

-- No message is NULL.
abbrev pub AreMessages : List Call → Type 0
AreMessages [] = Unit {0}
AreMessages (send_call m ∷ calls) = (m ≢ 0) × AreMessages calls
AreMessages (receive_call ∷ calls) = AreMessages calls

-- The cells from a location on hold these messages.
abbrev Cells : (ℕ → ℕ) → ℕ → ℕ → List ℕ → Type 0
Cells box cap s [] = Unit {0}
Cells box cap s (m ∷ line) = (box (s % cap) ≡ m) × (m ≢ 0) × Cells box cap (s + 1) line

Cells-update :
    (box : ℕ → ℕ) (cap s i v : ℕ) (line : List ℕ)
    → ((k : ℕ) → k < length line → i ≢ (s + k) % cap)
    → Cells box cap s line
    → Cells (update box i v) cap s line
Cells-update box cap s i v [] far c = tt
Cells-update box cap s i v (m ∷ line) far c = (
  update_ne box i v (s % cap) (λ e. far 0 (omega arith) (e ∙ ap (λ z. z % cap) (omega arith)))
      ∙ c.0,
  c.1,
  Cells-update box cap (s + 1) i v line
      (λ k h e. far (k + 1) (omega arith) (e ∙ ap (λ z. z % cap) (omega arith))) c.2,
)

Cells-append :
    (box : ℕ → ℕ) (cap s m : ℕ) (line : List ℕ)
    → Cells box cap s line
    → box ((s + length line) % cap) ≡ m
    → m ≢ 0
    → Cells box cap s (line ++ (m ∷ []))
Cells-append box cap s m [] c e ne = (ap (λ z. box (z % cap)) (omega arith) ∙ e, ne, tt)
Cells-append box cap s m (u ∷ line) c e ne = (
  c.0,
  c.1,
  Cells-append box cap (s + 1) m line c.2 (ap (λ z. box (z % cap)) (omega arith) ∙ e) ne,
)

-- The mailbox holds these messages, and `n` more calls do not wrap the counters around.
record Holds (a : Actor) (n : ℕ) (line : List ℕ) : Type 0 where
  reserved : a.reserved_size ≡ length line
  ready : a.ready_size ≡ length line
  bounded : length line ≤ a.mailbox_capacity
  located : a.write_loc ≡ a.start + length line
  unwrapped : a.start + length line + n < 2 ^ 64
  cells : Cells a.mailbox a.mailbox_capacity a.start line

bump_lem : (a : Actor) (n : ℕ) (line : List ℕ) → Holds a (suc n) line → bump a.start ≡ a.start + 1
bump_lem a n line v = omega (arith, v.unwrapped)

inserted-Holds :
    (a : Actor) (n m : ℕ) (line : List ℕ)
    → m ≢ 0
    → length line < a.mailbox_capacity
    → Holds a (suc n) line
    → Holds (inserted a m) n (line ++ (m ∷ []))
inserted-Holds a n m line ne lt v = record {
  reserved = omega (arith, v.reserved, length-append line (m ∷ []));
  ready = omega (arith, v.ready, length-append line (m ∷ []));
  bounded = omega (arith, length-append line (m ∷ []));
  located = omega (arith, v.located, v.unwrapped, length-append line (m ∷ []));
  unwrapped = omega (arith, v.unwrapped, length-append line (m ∷ []));
  cells =
      let cap = a.mailbox_capacity in
      Cells-append (inserted a m).mailbox cap a.start m line
        (Cells-update a.mailbox cap a.start (a.write_loc % cap) m line
          (λ k h e.
            mod-ne cap (a.start + k) (length line - k) (omega arith) (omega arith)
              (ap (λ z. z % cap) (omega (arith, v.located)) ∙ e))
          v.cells)
        (ap (λ z. (inserted a m).mailbox (z % cap)) (sym v.located)
          ∙ update_self a.mailbox (a.write_loc % cap) m)
        ne;
}

insert_space :
    (a : Actor) (n m : ℕ) (line : List ℕ)
    → m ≢ 0
    → length line < a.mailbox_capacity
    → Holds a n line
    → insert_msg a m ≡ ok (true, inserted a m)
unfolding insert_msg
insert_space a n m line ne lt v = ground (arith, v.reserved)

insert_full :
    (a : Actor) (n m : ℕ) (line : List ℕ)
    → m ≢ 0
    → a.mailbox_capacity ≤ length line
    → Holds a n line
    → insert_msg a m ≡ ok (false, a)
unfolding insert_msg
insert_full a n m line ne le v = ground (arith, v.reserved)

removed-Holds :
    (a : Actor) (n m : ℕ) (line : List ℕ) → Holds a (suc n) (m ∷ line) → Holds (removed a) n line
removed-Holds a n m line v = record {
  reserved = omega (arith, v.reserved);
  ready = omega (arith, v.ready);
  bounded = omega (arith, v.bounded);
  located = omega (arith, v.located, v.unwrapped);
  unwrapped = omega (arith, v.unwrapped);
  cells =
      let cap = a.mailbox_capacity in
      subst (λ z. Cells (removed a).mailbox cap z line) (sym (bump_lem a n (m ∷ line) v))
        (Cells-update a.mailbox cap (a.start + 1) (a.start % cap) 0 line
          (λ k h e.
            mod-ne cap a.start (k + 1) (omega arith) (omega (arith, v.bounded))
              (ap (λ z. z % cap) (omega arith) ∙ sym e))
          v.cells.2);
}

remove_front :
    (a : Actor) (n m : ℕ) (line : List ℕ) → Holds a n (m ∷ line) → remove_msg a ≡ ok (m, removed a)
unfolding remove_msg
remove_front a n m line v = rw v.cells.0 (ground (arith, v.ready, v.cells.1))

remove_empty : (a : Actor) (n : ℕ) → Holds a n [] → remove_msg a ≡ ok (0, a)
unfolding remove_msg
remove_empty a n v = ground (arith, v.ready)

fewer : (a : Actor) (n : ℕ) (line : List ℕ) → Holds a (suc n) line → Holds a n line
fewer a n line v = record {
  reserved = v.reserved;
  ready = v.ready;
  bounded = v.bounded;
  located = v.located;
  unwrapped = omega (arith, v.unwrapped);
  cells = v.cells;
}

run-answers :
    (calls : List Call) (a : Actor) (line : List ℕ)
    → AreMessages calls
    → Holds a (length calls) line
    → run calls a ≡ ok (answers_of a.mailbox_capacity calls line)
unfolding run
run-answers [] a line ms v = refl
run-answers (send_call m ∷ calls) a line ms v = elim (dec_lt (length line) a.mailbox_capacity) [
  | yes lt ↦
      rw
        (
          insert_space a (suc (length calls)) m line ms.0 lt v,
          run-answers calls (inserted a m) (line ++ (m ∷ [])) ms.1
              (inserted-Holds a (length calls) m line ms.0 lt v),
        )
        (ground arith)
  | no ge ↦
      rw
        (
          insert_full a (suc (length calls)) m line ms.0 (omega arith) v,
          run-answers calls a line ms.1 (fewer a (length calls) line v),
        )
        (ground arith)
]
run-answers (receive_call ∷ calls) a [] ms v =
    rw
      (
        remove_empty a (suc (length calls)) v,
        run-answers calls a [] ms (fewer a (length calls) [] v),
      )
      refl
run-answers (receive_call ∷ calls) a (m ∷ line) ms v =
    rw
      (
        remove_front a (suc (length calls)) m line v,
        run-answers calls (removed a) line ms (removed-Holds a (length calls) m line v),
      )
      refl

-- From actor_init on, with a block from calloc and calls that nobody interrupts: on any fewer than
-- 2^64 calls of actor_insert_msg and actor_remove_msg whose messages are not NULL, the answers are
-- those of a line of messages as long as the capacity, in the order in which they were sent.
pub init-answers :
    (capacity : ℕ) (calls : List Call)
    → AreMessages calls
    → length calls < 2 ^ 64
    → run calls (fresh capacity) ≡ ok (answers_of capacity calls [])
init-answers capacity calls ms few = run-answers calls (fresh capacity) [] ms (record {
  reserved = refl;
  ready = refl;
  bounded = omega arith;
  located = omega arith;
  unwrapped = omega (arith, few);
  cells = tt;
})
