-- ===== src/HttpServer/Tests.antt =====
-- A server whose world counts the bytes that are sent.
use libseff.Base.{ℕ, zero, suc, ◌+◌, ◌≡◌, refl, arith, true, ltb, if◌then◌else◌, [], ◌∷◌}
use libseff.HttpResponse.{Memory}
use libseff.HttpResponse.Tests.{libc}
use libseff.Net.Tests.{filling, filling-Receives}
use libseff.HttpResponse.Contents.{HoldsText}
use libseff.HttpServer.{Parsed, Server, respond, rounds, strncmp_eq, prof_path}
use libseff.HttpServer.Answers.{Sends, page, respond-Sends}
use libseff.HttpServer.Buffers.{PagesFit, Keeps, rounds-Keeps}

-- Requests of two bytes for the path at 1000.
abbrev server : Server ℕ
server = record {
  wrappers = filling;
  parse = λ m buf len last. if ltb len 2 then Parsed.incomplete else Parsed.request 1000 2;
  await_send_all = λ w m a n. w + n;
  close = λ w. w;
  printf = libc;
  date = λ w. b'd' ∷ [];
  length_line = λ n. b'n' ∷ [];
  type_line = b't' ∷ [];
  response_text = b'A' ∷ b'l' ∷ b'i' ∷ b'c' ∷ b'e' ∷ [];
  msg_buffer = 1000;
  response_buffer = 100000;
}

-- The path "/p" at 1000.
abbrev beginning : Memory
beginning a = if ltb a 1001 then b'/' else b'p'

beginning-prof : strncmp_eq prof_path beginning 1000 2 ≡ true
unfolding strncmp_eq
beginning-prof = refl

beginning-HoldsText : HoldsText beginning 1000 (b'/' ∷ b'p' ∷ [])
beginning-HoldsText zero small = refl
beginning-HoldsText (suc zero) small = refl
beginning-HoldsText (suc (suc i)) small = absurd (omega arith)

respond-Sends_example :
    Sends server 7 beginning
      (page server 7 beginning (b'/' ∷ b'p' ∷ []))
      (respond server 7 beginning 1000 2)
respond-Sends_example =
    respond-Sends server 7 beginning (b'/' ∷ b'p' ∷ []) 1000 beginning-HoldsText
      (omega arith, (omega arith, tt)) (omega arith)

fits : PagesFit server
fits w m = (omega arith, omega arith, omega arith)

rounds-Keeps_example :
    Keeps server beginning (rounds server 3 (record { world = 7; memory = beginning; buflen = 0 }))
rounds-Keeps_example =
    rounds-Keeps server fits filling-Receives 3
      (record { world = 7; memory = beginning; buflen = 0 }) (omega arith)
