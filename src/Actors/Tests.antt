-- ===== src/Actors/Tests.antt =====
-- A mailbox of two messages, with a third send that finds no space.
use libseff.Base.{◌≡◌, ◌≢◌, ◌≤◌, refl, arith, List, [], ◌∷◌}
use libseff.Base.Result.{ok}
use libseff.Actors.{
  fresh, storing, reserving, saw_ready, failed, load_reserved, reserve, load_ready, System, Reach,
}
use libseff.Actors.OneSender
use libseff.Actors.OneSender.{one_sender_safe}
use libseff.Actors.Mailbox.{Call, send_call, receive_call, run, answers_of, init-answers}
use libseff.Actors.Overtaken.{overtaken_fails}

abbrev script : List Call
script =
    receive_call
    ∷ send_call 5
    ∷ send_call 6
    ∷ send_call 7
    ∷ receive_call
    ∷ send_call 8
    ∷ receive_call
    ∷ receive_call
    ∷ receive_call
    ∷ []

script-answers : answers_of 2 script [] ≡ 0 ∷ 1 ∷ 1 ∷ 0 ∷ 5 ∷ 1 ∷ 6 ∷ 8 ∷ 0 ∷ []
script-answers = refl

init-answers_example : run script (fresh 2) ≡ ok (answers_of 2 script [])
init-answers_example =
    init-answers 2 script
      (
        λ e. ground (arith, e),
        (λ e. ground (arith, e), (λ e. ground (arith, e), (λ e. ground (arith, e), tt))),
      )
      (omega arith)

overtaken_fails_example :
    (s : System) × Reach s
    × (s.receiver ≡ failed)
    × (s.sender 0 ≡ storing 3 0)
    × (s.actor.mailbox 1 ≡ 4)
overtaken_fails_example = overtaken_fails 3 4 (λ e. ground (arith, e)) (λ e. ground (arith, e))

-- The sender has reserved a place for 3, and the actor has found no message.
one_sender_safe_example :
    (saw_ready 0 ≢ failed) × ((record (fresh 128) { reserved_size = 1 }).reserved_size ≤ 128)
one_sender_safe_example =
    one_sender_safe (record (fresh 128) { reserved_size = 1 }) (reserving 3) (saw_ready 0)
      (OneSender.receive
        (OneSender.send (OneSender.send OneSender.start (load_reserved 3 (λ e. ground (arith, e))))
          (reserve (omega arith) refl))
        load_ready)
