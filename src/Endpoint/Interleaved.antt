-- ===== src/Endpoint/Interleaved.antt =====
-- `RemoteEndpoint::send` of any number of threads and `handle_endpoint_calls` of the manager's thread,
-- interleaved: each access of the queue and of the eventfd is a step of its own.
use event_manager.Prelude.{
  ℕ, ◌+◌, ◌-◌, ◌≡◌, ◌≢◌, refl, sym, ap, ◌∙◌, List, [], ◌∷◌, ◌++◌, arith, List-cases, Bool, true,
  false, Bool-cases, ◌==◌, ◌⊎◌, inl, inr,
}
use mathlib.Core.List.{append_assoc}
use event_manager.Os.{Os}
use event_manager.Endpoint.{FnMsg, EventManagerChannel, send_msg, kick}

-- Whether the manager's thread is in the loop of `handle_endpoint_calls`.
pub data Phase : Type 0 where
  outside draining : Phase

phase_cases : (p : Phase) → (p ≡ Phase.outside) ⊎ (p ≡ Phase.draining)
phase_cases Phase.outside = inl refl
phase_cases Phase.draining = inr refl

-- When an eventfd can be read (eventfd(2)): after every write, also one that fails because the counter
-- is at its maximum.
pub record IsReadable (os : Os) (fd : os.EventFd) : Type 0 where
  pub readable : os.World → Bool
  pub write_readable : (w : os.World) → readable (os.eventfd_write fd 1 w).1 ≡ true

-- The world with the eventfd, and the queue; `kicking` is the number of sends that have queued their
-- message and not yet written to the eventfd. `sent` and `received` are the messages so far, in order.
pub record Shared (os : Os) (S R : Type 0) : Type 0 where
  pub world : os.World
  pub queue : List (FnMsg os S R)
  pub kicking : ℕ
  pub phase : Phase
  pub sent : List (FnMsg os S R)
  pub received : List (FnMsg os S R)

module _ {os : Os} {S R : Type 0} where
  abbrev pub start : os.World → Shared os S R
  start world = record {
    world = world;
    queue = [];
    kicking = 0;
    phase = Phase.outside;
    sent = [];
    received = [];
  }

  -- `msg_sender.send(msg)`
  unfoldable pub push : FnMsg os S R → Shared os S R → Shared os S R
  push msg self = record self {
    queue = self.queue ++ msg ∷ [];
    kicking = self.kicking + 1;
    sent = self.sent ++ msg ∷ [];
  }

  -- `event_fd.write(1)` at the end of `send`, whatever it answers.
  unfoldable pub notify : os.EventFd → Shared os S R → Shared os S R
  notify fd self = record self {
    world = (os.eventfd_write fd 1 self.world).1;
    kicking = self.kicking - 1;
  }

  -- `event_fd.read()` at the start of `handle_endpoint_calls`, whatever it answers.
  unfoldable pub clear : os.EventFd → Shared os S R → Shared os S R
  clear fd self = record self { world = (os.eventfd_read fd self.world).1; phase = Phase.draining }

  -- One `try_recv` of the loop; the loop ends where the queue is empty.
  unfoldable pub try_recv : Shared os S R → Shared os S R
  try_recv self = elim self.queue [
    | [] ↦ record self { phase = Phase.outside }
    | msg ∷ rest ↦ record self { queue = rest; received = self.received ++ msg ∷ [] }
  ]

  -- `send` of a thread that nobody interrupts is these two steps.
  send_msg_steps :
      (msg : FnMsg os S R) (c : EventManagerChannel os S R) (self : Shared os S R)
      → c.receiver_alive ≡ true
      → c.messages ≡ self.queue
      → ((send_msg msg c self.world).1.messages ≡ (notify c.event_fd (push msg self)).queue)
        × ((send_msg msg c self.world).2 ≡ (notify c.event_fd (push msg self)).world)
        × ((notify c.event_fd (push msg self)).kicking ≡ self.kicking)
  unfolding send_msg kick push notify
  send_msg_steps msg c self alive same = rw alive (ap (λ l. l ++ msg ∷ []) same, refl, omega arith)

module _ {os : Os} {S R : Type 0} (fd : os.EventFd) (eventfd : IsReadable os fd) where
  -- A step of one thread; other code does not read this eventfd. A request that sends a message itself
  -- does so by steps of its own.
  pub data Step : Shared os S R → Shared os S R → Type 0 where
    pushes : (msg : FnMsg os S R) (s : Shared os S R) → Step s (push msg s)
    notifies : (s : Shared os S R) → s.kicking ≢ 0 → Step s (notify fd s)
    clears : (s : Shared os S R) → s.phase ≡ Phase.outside → Step s (clear fd s)
    elsewhere :
        (change : os.World → os.World) (s : Shared os S R)
        → (eventfd.readable s.world ≡ true → eventfd.readable (change s.world) ≡ true)
        → Step s (record s { world = change s.world })
    receives : (s : Shared os S R) → s.phase ≡ Phase.draining → Step s (try_recv s)

  pub data Reach : Shared os S R → Type 0 where
    here : (world : os.World) → Reach (start world)
    later : {s t : Shared os S R} → Reach s → Step s t → Reach t

  record Inv (s : Shared os S R) : Type 0 where
    in_order : s.sent ≡ s.received ++ s.queue
    -- A message that waits while the manager is outside its loop is announced, or will be.
    announced :
        s.phase ≡ Phase.outside → s.kicking ≡ 0 → eventfd.readable s.world ≡ false → s.queue ≡ []

  Step-Inv : {s t : Shared os S R} → Step s t → Inv s → Inv t
  unfolding push notify clear try_recv
  Step-Inv (pushes msg s) inv = record {
    in_order = ap (λ l. l ++ msg ∷ []) inv.in_order ∙ append_assoc s.received s.queue (msg ∷ []);
    announced = λ _ none _. absurd (omega (arith, none));
  }
  Step-Inv (notifies s some) inv = record {
    in_order = inv.in_order;
    announced = λ _ _ unread. absurd (ground (arith, unread, eventfd.write_readable s.world));
  }
  Step-Inv (clears s is) inv = record { in_order = inv.in_order; announced = λ out _ _. cc }
  Step-Inv (elsewhere change s keeps) inv = record {
    in_order = inv.in_order;
    announced = λ out none unread.
        inv.announced out none (elim (Bool-cases (eventfd.readable s.world)) [
          | inl can ↦ absurd (ground (arith, keeps can, unread))
          | inr cannot ↦ cannot
        ]);
  }
  Step-Inv (receives s is) inv = elim (List-cases s.queue) [
    | inl empty ↦
        rw (empty, try_recv) (record { in_order = inv.in_order; announced = λ _ _ _. empty })
    | inr (msg, rest, queued) ↦
        rw (queued, try_recv)
          (record {
            in_order = inv.in_order ∙ rw queued (sym (append_assoc s.received (msg ∷ []) rest));
            announced = λ out _ _. cc;
          })
  ]

  Reach-Inv : {s : Shared os S R} → Reach s → Inv s
  Reach-Inv (here world) = record { in_order = refl; announced = λ _ _ _. refl }
  Reach-Inv (later r st) = Step-Inv st (Reach-Inv r)

  -- Let any number of threads send messages while the manager's thread handles its queue, where each
  -- access of the queue and of the eventfd is a step of its own, in any order, and where an eventfd can
  -- be read once it has been written to, until the manager reads it. The messages are received in the
  -- order in which they were queued, each once, and none is lost: while one is queued, the manager's
  -- thread is in the loop that receives it, or its eventfd can be read, or a send has yet to write to
  -- it.
  pub send-IsReceived :
      (s : Shared os S R)
      → Reach s
      → (s.sent ≡ s.received ++ s.queue)
        × ((s.queue ≡ [])
            ⊎ (s.phase ≡ Phase.draining)
            ⊎ (eventfd.readable s.world ≡ true)
            ⊎ (s.kicking ≢ 0))
  send-IsReceived s r =
      let inv = Reach-Inv r in
      (
        inv.in_order,
        elim (phase_cases s.phase) [
          | inr is ↦ inr (inl is)
          | inl is ↦ elim (Bool-cases (eventfd.readable s.world)) [
            | inl can ↦ inr (inr (inl can))
            | inr cannot ↦ elim (Bool-cases (s.kicking == 0)) [
              | inr pending ↦ inr (inr (inr (λ e. ground (arith, e))))
              | inl none ↦ inl (inv.announced is (ground arith) cannot)
            ]
          ]
        ],
      )
