-- ===== src/Actors/Overtaken.antt =====
-- Two senders: the one that comes second announces its message before the first has stored its own.
use libseff.Base.{ℕ, ◌≡◌, ◌≢◌, refl, arith}
use libseff.Actors.{
  load_reserved, reserve, locate, store, announce, storing, failed, load_ready, claim, advance,
  read_msg, clear, assertion_fails, System, send, receive, Reach, start, later,
}

-- For all messages x and y that are not NULL, a state of an actor of fork_actor is reachable in which
-- sender 0 is about to store x, sender 1 has sent y, the message y stands in the mailbox, and the
-- assertion of actor_remove_msg has failed.
pub overtaken_fails :
    (x y : ℕ)
    → x ≢ 0
    → y ≢ 0
    → (s : System) × Reach s
      × (s.receiver ≡ failed)
      × (s.sender 0 ≡ storing x 0)
      × (s.actor.mailbox 1 ≡ y)
overtaken_fails x y hx hy = (
  _,
  later
      (later
        (later
          (later
            (later
              (later
                (later
                  (later
                    (later
                      (later
                        (later
                          (later
                            (later (later (start refl) (send 0 (load_reserved x hx)))
                              (send 0 (reserve (omega arith) refl)))
                            (send 0 locate))
                          (send 1 (load_reserved y hy)))
                        (send 1 (reserve (omega arith) refl)))
                      (send 1 locate))
                    (send 1 store))
                  (send 1 announce))
                (receive load_ready))
              (receive (claim (λ e. ground (arith, e)) refl)))
            (receive advance))
          (receive read_msg))
        (receive clear))
      (receive (assertion_fails refl)),
  refl,
  refl,
  refl,
)
