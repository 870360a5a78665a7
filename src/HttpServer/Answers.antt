-- ===== src/HttpServer/Answers.antt =====
-- What `connection_fun` of bench/http_server_bench/libscheff.c sends for a request.
use libseff.Base.{
  ℕ, ◌+◌, ◌<◌, ◌≤◌, ◌≡◌, ◌≢◌, refl, ap, arith, Bool, true, false, if◌then◌else◌, ◌⊎◌, Option, none,
  some, [], length, All,
}
use libseff.HttpResponse.{Text, Memory}
use libseff.HttpResponse.Contents.{HoldsText, response, build_response-HoldsText}
use libseff.HttpServer.{
  buf_size, Server, Connection, root_path, prof_path, ok_line, not_found_line, not_empty,
  send_response, reply_with, respond,
}
use libseff.HttpServer.Routes.{is_prefix, strncmp_eq-is_prefix}

module _ {W : Type 0} (server : Server W) (w : W) (m : Memory) where
  -- A response with its status line and body, at the time of the world.
  abbrev pub full_response : Text → Text → Text
  full_response header body =
      response server.printf server.response_buffer buf_size (omega arith) m header (server.date w)
        (server.length_line (length body)) server.type_line body (not_empty (length body))

  -- Sent from the buffer, of which alone the memory has changed.
  abbrev pub Sends : Text → Connection W → Type 0
  Sends text c =
      (c.world ≡ server.await_send_all w c.memory server.response_buffer (length text))
      × HoldsText c.memory server.response_buffer text
      × ((a : ℕ)
          → (a < server.response_buffer) ⊎ (server.response_buffer + buf_size ≤ a)
          → c.memory a ≡ m a)
      × (c.buflen ≡ 0)

  send_response-Sends :
      (text : Text) (r : Option ℕ × Memory)
      → r.0 ≡ some (length text)
      → HoldsText r.1 server.response_buffer text
      → ((a : ℕ)
          → (a < server.response_buffer) ⊎ (server.response_buffer + buf_size ≤ a)
          → r.1 a ≡ m a)
      → Sends text (send_response server w r)
  send_response-Sends text (some n, m') e h k =
      (ap (server.await_send_all w m' server.response_buffer) (ground arith), h, k, refl)
  send_response-Sends text (none, m') e h k = absurd (cc e)

  pub reply_with-Sends :
      (header body : Text)
      → length (full_response header body) < buf_size
      → Sends (full_response header body) (reply_with server w m header body)
  unfolding reply_with
  reply_with-Sends header body fits =
      let b =
        build_response-HoldsText server.printf server.response_buffer buf_size (omega arith) m
          header (server.date w) (server.length_line (length body)) server.type_line body
          (not_empty (length body)) fits in
      send_response-Sends _ _ b.0 b.1 b.3

  choose-Sends :
      (b : Bool) (t u : Text) (x y : Connection W)
      → (length t < buf_size → Sends t x)
      → (length u < buf_size → Sends u y)
      → length (if b then t else u) < buf_size
      → Sends (if b then t else u) (if b then x else y)
  choose-Sends true t u x y f g = f
  choose-Sends false t u x y f g = g

  -- The page of a path: the text for "/" and for the empty path, the empty page for every other
  -- beginning of "/prof", and else an error.
  abbrev pub page : Text → Text
  page path =
      if is_prefix path root_path
      then full_response ok_line server.response_text
      else if is_prefix path prof_path
      then full_response ok_line []
      else full_response not_found_line []

  -- For a path that has no NUL, and a page that with its headers is shorter than the buffer, the answer
  -- to a request is that whole page: it stands in the response buffer, and as many bytes from its start
  -- are sent; no memory outside that buffer has changed, and the next request begins at the start of
  -- the message buffer. The page is the text for "/" and the empty path, an empty one for every other
  -- beginning of "/prof", and else the error 404.
  pub respond-Sends :
      (path : Text) (p : ℕ)
      → HoldsText m p path
      → All (λ c. c ≢ 0) path
      → length (page path) < buf_size
      → Sends (page path) (respond server w m p (length path))
  unfolding respond
  respond-Sends path p h no_nul fits =
      rw
        (
          strncmp_eq-is_prefix root_path path m p h no_nul,
          strncmp_eq-is_prefix prof_path path m p h no_nul,
        )
        (choose-Sends (is_prefix path root_path) _ _ _ _
          (reply_with-Sends ok_line server.response_text)
          (choose-Sends (is_prefix path prof_path) _ _ _ _ (reply_with-Sends ok_line [])
            (reply_with-Sends not_found_line []))
          fits)
