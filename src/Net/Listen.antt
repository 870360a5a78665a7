-- ===== src/Net/Listen.antt =====
-- utils/net.c: `listen_tcp_socket`. What `getaddrinfo`, `socket`, `bind` and `listen` answer is a
-- parameter, over a state of the world that every call changes; the descriptors that the function
-- opens and closes are kept, and so is how often it frees the list of addresses.
use libseff.Base.{
  ℕ, ◌+◌, ◌≡◌, refl, ap, ◌∙◌, arith, Bool, true, false, if◌then◌else◌, Option, none, some, List, [],
  ◌∷◌, count,
}

-- The arguments of `listen_tcp_socket` but for the names.
pub record Flags : Type 0 where
  pub non_blocking : Bool
  pub reuse_address : Bool
  pub reuse_port : Bool
  pub listen_queue_size : ℕ

-- The calls of the system on addresses of type A; `none` and `false` are failures. `reuse` is
-- `setsockopt` with SO_REUSEADDR or SO_REUSEPORT, whose answer is not read.
pub record Sockets (A W : Type 0) : Type 0 where
  pub getaddrinfo : W → Option (List A) × W
  pub socket : W → A → Bool → Option ℕ × W
  pub reuse_addr : W → ℕ → W
  pub reuse_port : W → ℕ → W
  pub bind : W → ℕ → A → Bool × W
  pub listen : W → ℕ → ℕ → Bool × W
  pub close : W → ℕ → W
  pub freeaddrinfo : W → W

-- The world, the descriptors opened and closed so far, and the number of lists freed.
pub record Kept (W : Type 0) : Type 0 where
  pub world : W
  pub opened : List ℕ
  pub closed : List ℕ
  pub freed : ℕ

module _ {A W : Type 0} (calls : Sockets A W) (flags : Flags) where
  abbrev pub close : Kept W → ℕ → Kept W
  close s fd = record s { world = calls.close s.world fd; closed = fd ∷ s.closed }

  -- The two `setsockopt`.
  abbrev pub set_options : W → ℕ → W
  set_options w fd =
      let w' = if flags.reuse_address then calls.reuse_addr w fd else w in
      if flags.reuse_port then calls.reuse_port w' fd else w'

  -- One round of the loop over the addresses: what a socket and its `bind` lead to, where `next` is
  -- the rest of the loop.
  abbrev pub bound : Bool → ℕ → Kept W → (Kept W → Option ℕ × Kept W) → Option ℕ × Kept W
  bound true listener s next = (some listener, s)
  bound false listener s next = next (close s listener)

  abbrev pub created : Option ℕ → A → Kept W → (Kept W → Option ℕ × Kept W) → Option ℕ × Kept W
  created none p s next = next s
  created (some listener) p s next =
      let (ok, w) = calls.bind (set_options s.world listener) listener p in
      bound ok listener (record s { world = w; opened = listener ∷ s.opened }) next

  -- The loop: the listener that was bound, if one was.
  unfoldable pub bind_first : List A → Kept W → Option ℕ × Kept W
  bind_first [] s = (none, s)
  bind_first (p ∷ ps) s =
      let (fd, w) = calls.socket s.world p flags.non_blocking in
      created fd p (record s { world = w }) (bind_first ps)

  abbrev pub listened : Bool → ℕ → Kept W → Option ℕ × Kept W
  listened true listener s = (some listener, s)
  listened false listener s = (none, close s listener)

  -- The end of the function, once the list is freed.
  abbrev pub set_up : Option ℕ → Kept W → Option ℕ × Kept W
  set_up none s = (none, s)
  set_up (some listener) s =
      let (ok, w) = calls.listen s.world listener flags.listen_queue_size in
      listened ok listener (record s { world = w })

  abbrev pub resolved : Option (List A) → Kept W → Option ℕ × Kept W
  resolved none s = (none, s)
  resolved (some ai) s =
      let (listener, s') = bind_first ai s in
      set_up listener (record s' { world = calls.freeaddrinfo s'.world; freed = s'.freed + 1 })

  -- `listen_tcp_socket`
  unfoldable pub listen_tcp_socket : W → Option ℕ × Kept W
  listen_tcp_socket w =
      let (ai, w') = calls.getaddrinfo w in
      resolved ai (record { world = w'; opened = []; closed = []; freed = 0 })

  abbrev pub answer : Option ℕ → List ℕ
  answer none = []
  answer (some fd) = fd ∷ []

  -- What is open beyond the answer is what was open before.
  record Settles (s : Kept W) (r : Option ℕ × Kept W) : Type 0 where
    opens :
        (fd : ℕ)
        → count fd r.1.opened + count fd s.closed
          ≡ count fd s.opened + count fd r.1.closed + count fd (answer r.0)
    frees : r.1.freed ≡ s.freed

  bound-Settles :
      (ok : Bool) (fd : ℕ) (s : Kept W) (next : Kept W → Option ℕ × Kept W)
      → ((t : Kept W) → Settles t (next t))
      → Settles s (bound ok fd (record s { opened = fd ∷ s.opened }) next)
  bound-Settles true fd s next h = record { opens = λ x. omega arith; frees = refl }
  bound-Settles false fd s next h =
      let r = h (close (record s { opened = fd ∷ s.opened }) fd) in
      record { opens = λ x. omega (arith, r.opens x); frees = r.frees }

  created-Settles :
      (o : Option ℕ) (p : A) (s : Kept W) (next : Kept W → Option ℕ × Kept W)
      → ((t : Kept W) → Settles t (next t))
      → Settles s (created o p s next)
  created-Settles none p s next h = h s
  created-Settles (some fd) p s next h =
      let (ok, w) = calls.bind (set_options s.world fd) fd p in
      let r = bound-Settles ok fd (record s { world = w }) next h in
      record { opens = r.opens; frees = r.frees }

  bind_first-Settles : (ps : List A) (s : Kept W) → Settles s (bind_first ps s)
  unfolding bind_first
  bind_first-Settles [] s = record { opens = λ x. omega arith; frees = refl }
  bind_first-Settles (p ∷ ps) s =
      let (fd, w) = calls.socket s.world p flags.non_blocking in
      let r =
        created-Settles fd p (record s { world = w }) (bind_first ps) (bind_first-Settles ps) in
      record { opens = r.opens; frees = r.frees }

  listened-closes :
      (ok : Bool) (fd : ℕ) (s : Kept W)
      → ((x : ℕ) → count x s.opened ≡ count x s.closed + count x (fd ∷ []))
      → (x : ℕ)
      → count x (listened ok fd s).1.opened
        ≡ count x (listened ok fd s).1.closed + count x (answer (listened ok fd s).0)
  listened-closes true fd s h x = h x
  listened-closes false fd s h x = omega (arith, h x)

  set_up-closes :
      (o : Option ℕ) (s : Kept W)
      → ((x : ℕ) → count x s.opened ≡ count x s.closed + count x (answer o))
      → (x : ℕ)
      → count x (set_up o s).1.opened
        ≡ count x (set_up o s).1.closed + count x (answer (set_up o s).0)
  set_up-closes none s h x = h x
  set_up-closes (some fd) s h x =
      let (ok, w) = calls.listen s.world fd flags.listen_queue_size in
      listened-closes ok fd (record s { world = w }) h x

  abbrev none_kept : W → Kept W
  none_kept w = record { world = w; opened = []; closed = []; freed = 0 }

  -- Once the addresses were tried and their list is freed.
  abbrev tried : List A → W → Kept W
  tried ai w =
      let s = (bind_first ai (none_kept w)).1 in
      record s { world = calls.freeaddrinfo s.world; freed = s.freed + 1 }

  resolved-closes :
      (o : Option (List A)) (w : W) (x : ℕ)
      → count x (resolved o (none_kept w)).1.opened
        ≡ count x (resolved o (none_kept w)).1.closed
          + count x (answer (resolved o (none_kept w)).0)
  resolved-closes none w x = refl
  resolved-closes (some ai) w x =
      let b = bind_first-Settles ai (none_kept w) in
      set_up-closes (bind_first ai (none_kept w)).0 (tried ai w) (λ y. omega (arith, b.opens y)) x

  set_up-freed : (o : Option ℕ) (s : Kept W) → (set_up o s).1.freed ≡ s.freed
  set_up-freed none s = refl
  set_up-freed (some fd) s = go (calls.listen s.world fd flags.listen_queue_size).0
    where
      go :
          (ok : Bool)
          → (listened ok fd
              (record s { world = (calls.listen s.world fd flags.listen_queue_size).1 })).1.freed
            ≡ s.freed
      go true = refl
      go false = refl

  -- How many lists of addresses there are to free.
  abbrev pub lists : Option (List A) → ℕ
  lists none = 0
  lists (some ai) = 1

  resolved-freed : (o : Option (List A)) (w : W) → (resolved o (none_kept w)).1.freed ≡ lists o
  resolved-freed none w = refl
  resolved-freed (some ai) w =
      set_up-freed (bind_first ai (none_kept w)).0 (tried ai w)
      ∙ ap (λ n. n + 1) (bind_first-Settles ai (none_kept w)).frees

  -- Whatever the system answers, listen_tcp_socket closes every descriptor that it opened but the one
  -- that it answers with, once for each time it was opened, and if it fails all of them; and it frees
  -- the list of getaddrinfo once, if there is one.
  pub listen_tcp_socket-closes :
      (w : W) (fd : ℕ)
      → let r = listen_tcp_socket w in
        (count fd r.1.opened ≡ count fd r.1.closed + count fd (answer r.0))
        × (r.1.freed ≡ lists (calls.getaddrinfo w).0)
  unfolding listen_tcp_socket
  listen_tcp_socket-closes w fd =
      let (ai, w') = calls.getaddrinfo w in (resolved-closes ai w' fd, resolved-freed ai w')
