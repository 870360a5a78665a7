-- ===== src/HttpServer/Buffers.antt =====
-- What the rounds of `connection_fun` of bench/http_server_bench/libscheff.c do to memory.
use libseff.Base.{
  ℕ, zero, suc, ◌+◌, ◌-◌, ◌<◌, ◌≤◌, ◌≡◌, refl, ◌∙◌, arith, Bool, true, false, ◌==◌, if◌then◌else◌,
  ℕ_discrete, ◌⊎◌, inl, inr, Option, none, some, [], length,
}
use libseff.HttpResponse.{Text, Memory}
use libseff.Net.Receive.{await_recv, Receives, await_recv-bounds, await_recv-le}
use libseff.HttpServer.{
  buf_size, Parsed, Server, Connection, Reception, root_path, prof_path, ok_line, not_found_line,
  reply_with, respond, strncmp_eq, parsed, received, receive_round, rounds,
}
use libseff.HttpServer.Answers.{full_response, reply_with-Sends}

module _ {W : Type 0} (server : Server W) where
  -- Every page with its headers is shorter than the buffer.
  abbrev pub PagesFit : Type 0
  PagesFit =
      (w : W) (m : Memory)
      → (length (full_response server w m ok_line server.response_text) < buf_size)
        × (length (full_response server w m ok_line []) < buf_size)
        × (length (full_response server w m not_found_line []) < buf_size)

  -- Neither in the message buffer or right behind it, nor in the response buffer.
  abbrev pub Elsewhere : ℕ → Type 0
  Elsewhere a =
      ((a < server.msg_buffer) ⊎ (server.msg_buffer + buf_size < a))
      × ((a < server.response_buffer) ⊎ (server.response_buffer + buf_size ≤ a))

  abbrev pub Same : Memory → Memory → Type 0
  Same m m' = (a : ℕ) → Elsewhere a → m' a ≡ m a

  -- There is room for the next receive, and the memory elsewhere is as it was.
  abbrev pub Keeps : Memory → Reception W → Type 0
  Keeps m (Reception.again c) = (c.buflen < buf_size) × Same m c.memory
  Keeps m (Reception.ended w m') = Same m m'

  abbrev Stays : Memory → Connection W → Type 0
  Stays m c = (c.buflen < buf_size) × Same m c.memory

  if-Stays :
      (m : Memory) (b : Bool) (x y : Connection W)
      → Stays m x
      → Stays m y
      → Stays m (if b then x else y)
  if-Stays m true x y s t = s
  if-Stays m false x y s t = t

  reply_with-Stays :
      (w : W) (m : Memory) (header body : Text)
      → length (full_response server w m header body) < buf_size
      → Stays m (reply_with server w m header body)
  reply_with-Stays w m header body fits =
      let s = reply_with-Sends server w m header body fits in
      (omega (arith, s.3), λ a out. s.2 a out.1)

  respond-Stays : PagesFit → (w : W) (m : Memory) (p n : ℕ) → Stays m (respond server w m p n)
  unfolding respond
  respond-Stays fit w m p n =
      if-Stays m (strncmp_eq root_path m p n) _ _
        (reply_with-Stays w m ok_line server.response_text (fit w m).0)
        (if-Stays m (strncmp_eq prof_path m p n) _ _ (reply_with-Stays w m ok_line [] (fit w m).1)
          (reply_with-Stays w m not_found_line [] (fit w m).2))

  parsed-Stays :
      PagesFit
      → (w : W) (m : Memory) (buflen : ℕ) (p : Parsed) → buflen ≤ buf_size
      → Stays m (parsed server w m buflen p)
  parsed-Stays fit w m buflen (Parsed.request path path_len) le =
      respond-Stays fit w m path path_len
  parsed-Stays fit w m buflen Parsed.malformed le = (omega arith, λ a out. refl)
  parsed-Stays fit w m buflen Parsed.incomplete le = elim (ℕ_discrete buflen buf_size) [
    | yes full ↦
        let test : (buflen == buf_size) ≡ true = ground arith in
        rw test (omega arith, λ a out. refl)
    | no room ↦
        let test : (buflen == buf_size) ≡ false = ground arith in
        rw test (omega arith, λ a out. refl)
  ]

  module _ (fit : PagesFit)
      (receives : (w : W) (memory : ℕ → ℕ) (buffer bufsz : ℕ)
        → Receives memory buffer bufsz (server.wrappers.recv w memory buffer bufsz)) where
    received-Keeps :
        (m : Memory) (buflen : ℕ) (r : Option ℕ × W × Memory)
        → ((n : ℕ) → r.0 ≡ some n → buflen + n ≤ buf_size)
        → Same m r.2
        → Keeps m (received server buflen r)
    received-Keeps m buflen (none, w, m') le same = same
    received-Keeps m buflen (some zero, w, m') le same = same
    received-Keeps m buflen (some (suc n), w, m') le same =
        let s =
          parsed-Stays fit w m' (buflen + suc n)
            (server.parse m' server.msg_buffer (buflen + suc n) buflen) (le (suc n) refl) in
        (s.0, λ a out. s.1 a out ∙ same a out)

    receive_round-Keeps :
        (c : Connection W) → c.buflen < buf_size → Keeps c.memory (receive_round server c)
    unfolding receive_round
    receive_round-Keeps c room =
        received-Keeps c.memory c.buflen
          (await_recv server.wrappers c.world c.memory (server.msg_buffer + c.buflen)
            (buf_size - c.buflen))
          (λ n e. omega (
            arith,
            await_recv-le server.wrappers receives c.world c.memory (server.msg_buffer + c.buflen)
                (buf_size - c.buflen) n e,
          ))
          (λ a out.
            (await_recv-bounds server.wrappers receives c.world c.memory
                (server.msg_buffer + c.buflen) (buf_size - c.buflen) (omega arith)).0
              a (beyond a out.0))
      where
        beyond :
            (a : ℕ)
            → (a < server.msg_buffer) ⊎ (server.msg_buffer + buf_size < a)
            → (a < server.msg_buffer + c.buflen)
              ⊎ (server.msg_buffer + c.buflen + (buf_size - c.buflen) < a)
        beyond a (inl lt) = inl (omega arith)
        beyond a (inr lt) = inr (omega (arith, room))

    Keeps-trans : (m m' : Memory) (r : Reception W) → Same m m' → Keeps m' r → Keeps m r
    Keeps-trans m m' (Reception.again c) same k = (k.0, λ a out. k.1 a out ∙ same a out)
    Keeps-trans m m' (Reception.ended w m'') same k = λ a out. k a out ∙ same a out

    follow :
        (n : ℕ) (m : Memory) (r : Reception W)
        → ((c : Connection W) → c.buflen < buf_size → Keeps c.memory (rounds server n c))
        → Keeps m r
        → Keeps m (elim r [
          | Reception.again c ↦ rounds server n c
          | Reception.ended w m' ↦ Reception.ended w m'
        ])
    follow n m (Reception.again c) rest k = Keeps-trans m c.memory _ k.1 (rest c k.0)
    follow n m (Reception.ended w m') rest k = k

    -- If every page fits into its buffer, and each recv answers with at most the size that it is
    -- given and changes nothing outside it, then whatever the client sends and however it is parsed,
    -- after any number of rounds from a `buflen` below the size of the buffer there is room for the
    -- next receive, or the function has returned; and no byte has
    -- changed but those of the two buffers and the one right behind the message buffer.
    pub rounds-Keeps :
        (n : ℕ) (c : Connection W) → c.buflen < buf_size → Keeps c.memory (rounds server n c)
    unfolding rounds
    rounds-Keeps zero c room = (room, λ a out. refl)
    rounds-Keeps (suc n) c room =
        follow n c.memory (receive_round server c) (rounds-Keeps n) (receive_round-Keeps c room)
