-- ===== src/HttpServer.antt =====
-- bench/http_server_bench/libscheff.c: `connection_fun`, the coroutine of one connection, over
-- `await_recv` of utils/net.c (Net/Receive) and `build_response` of utils/http_response.c
-- (HttpResponse). The parser, picohttpparser, is a parameter; so is `await_send_all`, whose answer the
-- code does not use, and `close`.
pub mod Routes
pub mod Answers
pub mod Buffers
pub mod Tests
use libseff.Base.{
  ℕ, zero, suc, ◌+◌, ◌-◌, ◌*◌, Bool, true, false, ◌&&◌, ◌==◌, if◌then◌else◌, Option, none, some,
  List, [], ◌∷◌, length,
}
use libseff.Net.Receive.{Wrappers, await_recv}
use libseff.HttpResponse.{Text, Memory, Printf, build_response}

abbrev pub buf_size : ℕ
buf_size = 64 * 1024

-- What `phr_parse_request` may answer: a positive number, with the path that it found; -1; or -2.
pub data Parsed : Type 0 where
  request : (path path_len : ℕ) → Parsed
  malformed : Parsed
  incomplete : Parsed

-- What the connection uses: the calls of the system; the parser, on so many bytes at an address of which so many
-- were there before; `await_send_all` and `close` on the connection; the texts that the
-- formats of `build_response` yield, and the text that the server sends.
pub record Server (W : Type 0) : Type 0 where
  pub wrappers : Wrappers W
  pub parse : Memory → ℕ → ℕ → ℕ → Parsed
  pub await_send_all : W → Memory → ℕ → ℕ → W
  pub close : W → W
  pub printf : Printf
  pub date : W → Text
  pub length_line : ℕ → Text
  pub type_line : Text
  pub response_text : Text
  -- The addresses of the local buffers.
  pub msg_buffer : ℕ
  pub response_buffer : ℕ

-- "/", "/prof", and the two status lines.
abbrev pub root_path : Text
root_path = b'/' ∷ []

abbrev pub prof_path : Text
prof_path = b'/' ∷ b'p' ∷ b'r' ∷ b'o' ∷ b'f' ∷ []

abbrev pub ok_line : Text
ok_line =
    b'H' ∷ b'T' ∷ b'T' ∷ b'P' ∷ b'/' ∷ b'1' ∷ b'.' ∷ b'1' ∷ b' ' ∷ b'2' ∷ b'0' ∷ b'0' ∷ b' ' ∷ b'O'
    ∷ b'K' ∷ []

abbrev pub not_found_line : Text
not_found_line =
    b'H' ∷ b'T' ∷ b'T' ∷ b'P' ∷ b'/' ∷ b'1' ∷ b'.' ∷ b'1' ∷ b' ' ∷ b'4' ∷ b'0' ∷ b'4' ∷ b' ' ∷ b'N'
    ∷ b'o' ∷ b't' ∷ b' ' ∷ b'F' ∷ b'o' ∷ b'u' ∷ b'n' ∷ b'd' ∷ []

-- `strncmp(text, p, n) == 0`, where the text ends with a NUL.
pub strncmp_eq : Text → Memory → ℕ → ℕ → Bool
strncmp_eq text m p zero = true
strncmp_eq [] m p (suc n) = m p == 0
strncmp_eq (c ∷ text) m p (suc n) = (m p == c) && strncmp_eq text m (p + 1) n

-- Between two receives: the world, the memory and `buflen`.
pub record Connection (W : Type 0) : Type 0 where
  pub world : W
  pub memory : Memory
  pub buflen : ℕ

-- The next receive, or the end, once the connection is closed.
pub data Reception (W : Type 0) : Type 0 where
  again : (connection : Connection W) → Reception W
  ended : (world : W) (memory : Memory) → Reception W

abbrev pub not_empty : ℕ → Bool
not_empty zero = false
not_empty (suc n) = true

module _ {W : Type 0} (server : Server W) where
  -- `await_send_all` of the response, if there is one; a new request begins at the start of the buffer.
  abbrev pub send_response : W → Option ℕ × Memory → Connection W
  send_response w (some ret, m) = record {
    world = server.await_send_all w m server.response_buffer ret;
    memory = m;
    buflen = 0;
  }
  send_response w (none, m) = record { world = w; memory = m; buflen = 0 }

  -- `build_response` into `response_buffer`, and its sending.
  pub reply_with : W → Memory → Text → Text → Connection W
  reply_with w m header body =
      let content_length = length body in
      send_response w (
        build_response server.printf server.response_buffer buf_size m header (server.date w)
          (server.length_line content_length) server.type_line body (not_empty content_length))

  -- The answer to a request.
  pub respond : W → Memory → ℕ → ℕ → Connection W
  respond w m path path_len =
      if strncmp_eq root_path m path path_len
      then reply_with w m ok_line server.response_text
      else if strncmp_eq prof_path m path path_len
      then reply_with w m ok_line []
      else reply_with w m not_found_line []

  -- What follows the parser.
  abbrev pub parsed : W → Memory → ℕ → Parsed → Connection W
  parsed w m buflen (Parsed.request path path_len) = respond w m path path_len
  parsed w m buflen Parsed.malformed = record { world = w; memory = m; buflen = 0 }
  parsed w m buflen Parsed.incomplete =
      if buflen == buf_size
      then record { world = w; memory = m; buflen = 0 }
      else record { world = w; memory = m; buflen = buflen }

  abbrev pub received : ℕ → Option ℕ × W × Memory → Reception W
  received buflen (none, w, m) = Reception.ended (server.close w) m
  received buflen (some zero, w, m) = Reception.ended (server.close w) m
  received buflen (some (suc n), w, m) =
      Reception.again
        (parsed w m (buflen + suc n) (server.parse m server.msg_buffer (buflen + suc n) buflen))

  -- One round of the inner loop of `connection_fun`, and what follows it.
  pub receive_round : Connection W → Reception W
  unfolding respond
  receive_round c = received c.buflen (
      await_recv server.wrappers c.world c.memory (server.msg_buffer + c.buflen)
        (buf_size - c.buflen))

  -- So many rounds of `connection_fun`, which may go on for ever.
  pub rounds : ℕ → Connection W → Reception W
  rounds zero c = Reception.again c
  rounds (suc n) c = elim (receive_round c) [
    | Reception.again c' ↦ rounds n c'
    | Reception.ended w m ↦ Reception.ended w m
  ]
