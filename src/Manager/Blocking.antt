-- ===== src/Manager/Blocking.antt =====
-- `call_blocking` across two threads: the caller queues its closure and waits, and the manager's
-- thread handles the queue.
use event_manager.Prelude.{
  ℕ, zero, suc, ◌+◌, ◌<◌, ◌≡◌, refl, ap, ◌∙◌, true, false, none, some, List, [], ◌∷◌, ◌++◌, Returns,
  Returns-bind, Returns-map, Returns-self, returned, Outcome, ◌>>=◌, arith, length, length-append,
  contains,
}
use event_manager.Os.{Os}
use event_manager.Endpoint.{
  Closure, FnMsg, EventManagerChannel, send_msg, call_send, recv, reply_to,
}
use event_manager.Handler.{MutEventSubscriber}
use event_manager.Manager.{Machine, with_channel}
use event_manager.Manager.Loop
use event_manager.Endpoint.Callers.{senders}
use event_manager.Manager.Remote.{messages-reply_to}
use event_manager.Manager.Total.{IsPlain, AllPlain, AllQuiet, run_closure-IsPlain}
use event_manager.Endpoint.Replies.{sender_other, recv-reply_to, recv_other, recv_found, recv_same}

module _ {os : Os} {S R : Type 0} where
  -- The messages with the closure of the caller among them.
  abbrev pub calls :
      List (FnMsg os S R) → Closure os S R → ℕ → List (FnMsg os S R) → List (FnMsg os S R)
  calls l f reply rest = l ++ record { fnbox = f; sender = some reply } ∷ rest

  -- The manager after the `send` of `call_blocking`.
  abbrev pub asked : Closure os S R → ℕ → Machine os S R → Machine os S R
  asked f reply m = record {
    manager = record (m.manager) { channel = (call_send f reply m.channel m.world).1 };
    world = (call_send f reply m.channel m.world).2;
  }

  call_send_lem :
      (f : Closure os S R) (reply : ℕ) (c : EventManagerChannel os S R) (world : os.World)
      → c.receiver_alive ≡ true
      → ((call_send f reply c world).1.messages ≡ calls c.messages f reply [])
        × (recv reply (call_send f reply c world).1 ≡ recv reply c)
  unfolding call_send send_msg recv
  call_send_lem f reply c world alive = rw alive (refl, refl)

module _ {os : Os} {S R : Type 0} ⦃sub : MutEventSubscriber os S R S⦄ where
  -- The manager once the first requests of its queue have been handled and answered.
  unfoldable pub handle_first : ℕ → Machine os S R → Outcome (Machine os S R)
  handle_first zero m = returned m
  handle_first (suc k) m = elim m.channel.messages [
    | [] ↦ returned m
    | msg ∷ rest ↦
        Loop.run_closure msg.fnbox (with_channel m (record (m.channel) { messages = rest }))
        >>= (λ (result, m').
            handle_first k (with_channel m' (reply_to msg.sender result m'.channel)))
  ]

  -- The manager when `handle_endpoint_calls` has read its eventfd.
  abbrev pub woken : Machine os S R → Machine os S R
  woken m = record m { world = (os.eventfd_read m.channel.event_fd m.world).1 }

module _ {os : Os} {S R : Type 0} ⦃sub : MutEventSubscriber os S R S⦄ (quiet : AllQuiet sub)
    (f : Closure os S R) (plain_f : IsPlain f) (reply : ℕ) where
  -- From `start`, the manager handles `k` requests and then the closure of the caller, on the state
  -- that those have left, and goes on from what the closure leaves, its result sent to the caller. The
  -- caller gets that result in the end.
  pub record IsAnswered (k : ℕ) (start m : Machine os S R) : Type 0 where
    pub before : Machine os S R
    pub served : handle_first k start ≡ returned before
    pub rest : List (FnMsg os S R)
    pub queued : before.channel.messages ≡ record { fnbox = f; sender = some reply } ∷ rest
    pub result : R
    pub after : Machine os S R
    pub ran :
        Loop.run_closure f (with_channel before (record (before.channel) { messages = rest }))
        ≡ returned (result, after)
    pub fuel : ℕ
    pub ended :
        Loop.receive_all fuel (with_channel after (reply_to (some reply) result after.channel))
        ≡ returned m
    pub received : recv reply m.channel ≡ some result

  -- A result stays where the caller finds it.
  receive_all-keeps :
      (rest : List (FnMsg os S R)) (fuel : ℕ) (result : R) (m : Machine os S R)
      → m.channel.messages ≡ rest
      → AllPlain rest
      → recv reply m.channel ≡ some result
      → length rest < fuel
      → Returns (λ left. recv reply left.channel ≡ some result) (Loop.receive_all fuel m)
  unfolding Loop.receive_all
  receive_all-keeps rest zero result m queued plain found enough = absurd (omega arith)
  receive_all-keeps [] (suc fuel) result m queued plain found enough =
      rw (queued, Loop.receive_all) found
  receive_all-keeps (msg ∷ rest) (suc fuel) result m queued plain found enough =
      rw (queued, Loop.receive_all)
        (Returns-bind (λ left. left.1.channel ≡ record (m.channel) { messages = rest }) _
          (Loop.run_closure msg.fnbox _) _ (run_closure-IsPlain quiet msg.fnbox _ plain.0)
          (λ left same.
            receive_all-keeps rest fuel result _
              (messages-reply_to msg.sender left.0 left.1.channel ∙ ap (λ c. c.messages) same)
              plain.1
              (recv_found msg.sender reply left.0 result left.1.channel
                (recv_same m.channel rest reply (some result) same found))
              (omega arith)))

  -- A round of `handle_endpoint_calls`.
  receive_all-first :
      (P : Machine os S R → Type 0) (msg : FnMsg os S R) (rest : List (FnMsg os S R)) (fuel : ℕ)
      (m : Machine os S R)
      → m.channel.messages ≡ msg ∷ rest
      → Returns P (
          Loop.run_closure msg.fnbox (with_channel m (record (m.channel) { messages = rest }))
          >>= (λ (result, m').
              Loop.receive_all fuel (with_channel m' (reply_to msg.sender result m'.channel))))
      → Returns P (Loop.receive_all (suc fuel) m)
  unfolding Loop.receive_all
  receive_all-first P msg rest fuel m queued p = rw (queued, Loop.receive_all) p

  receive_all-IsAnswered :
      (l rest : List (FnMsg os S R)) (fuel : ℕ) (m : Machine os S R)
      → m.channel.messages ≡ calls l f reply rest
      → AllPlain l
      → AllPlain rest
      → contains (senders l) reply ≡ false
      → recv reply m.channel ≡ none
      → length (calls l f reply rest) < fuel
      → Returns (IsAnswered (length l) m) (Loop.receive_all fuel m)
  unfolding handle_first
  receive_all-IsAnswered l rest zero m queued plain later fresh missing enough =
      absurd (omega arith)
  receive_all-IsAnswered [] rest (suc fuel) m queued plain later fresh missing enough =
      let m₀ = with_channel m (record (m.channel) { messages = rest }) in
      receive_all-first (IsAnswered 0 m) (record { fnbox = f; sender = some reply }) rest fuel m
        queued
        (Returns-bind
          (λ left. (Loop.run_closure f m₀ ≡ returned left) × (left.1.channel ≡ m₀.channel)) _
          (Loop.run_closure f m₀) _
          (Returns-self _ (Loop.run_closure f m₀) (run_closure-IsPlain quiet f m₀ plain_f))
          (λ left p.
            let next = with_channel left.1 (reply_to (some reply) left.0 left.1.channel) in
            Returns-map _ (IsAnswered 0 m) (Loop.receive_all fuel next)
              (λ left' q. record {
                before = m;
                served = refl;
                rest = rest;
                queued = queued;
                result = left.0;
                after = left.1;
                ran = p.0;
                fuel = fuel;
                ended = q.0;
                received = q.1;
              })
              (Returns-self _ (Loop.receive_all fuel next) (
                receive_all-keeps rest fuel left.0 next
                  (messages-reply_to (some reply) left.0 left.1.channel ∙ ap (λ c. c.messages) p.1)
                  later
                  (recv-reply_to reply left.0 left.1.channel
                    (recv_same m.channel rest reply none p.1 missing))
                  (omega arith)))))
  receive_all-IsAnswered (msg ∷ l) rest (suc fuel) m queued plain later fresh missing enough =
      let (other, fresh') = sender_other msg.sender (senders l) reply fresh in
      let m₀ = with_channel m (record (m.channel) { messages = calls l f reply rest }) in
      receive_all-first (IsAnswered (suc (length l)) m) msg (calls l f reply rest) fuel m queued (
        Returns-bind
          (λ left. (Loop.run_closure msg.fnbox m₀ ≡ returned left) × (left.1.channel ≡ m₀.channel))
          _ (Loop.run_closure msg.fnbox m₀) _
          (Returns-self _ (Loop.run_closure msg.fnbox m₀)
            (run_closure-IsPlain quiet msg.fnbox m₀ plain.0))
          (λ left p.
            let next = with_channel left.1 (reply_to msg.sender left.0 left.1.channel) in
            Returns-map (IsAnswered (length l) next) _ (Loop.receive_all fuel next)
              (λ left' q. record {
                before = q.before;
                served = rw (queued, p.0, handle_first) q.served;
                rest = q.rest;
                queued = q.queued;
                result = q.result;
                after = q.after;
                ran = q.ran;
                fuel = q.fuel;
                ended = q.ended;
                received = q.received;
              })
              (receive_all-IsAnswered l rest fuel next
                (messages-reply_to msg.sender left.0 left.1.channel ∙ ap (λ c. c.messages) p.1)
                plain.1 later fresh'
                (recv_other msg.sender reply left.0 left.1.channel other
                  (recv_same m.channel (calls l f reply rest) reply none p.1 missing))
                (omega arith))))

  -- The closure of the caller runs in `handle_endpoint_calls`, wherever it is in the queue.
  pub handle_endpoint_calls-IsAnswered :
      (l rest : List (FnMsg os S R)) (fuel : ℕ) (m : Machine os S R)
      → m.channel.messages ≡ calls l f reply rest
      → AllPlain l
      → AllPlain rest
      → contains (senders l) reply ≡ false
      → recv reply m.channel ≡ none
      → length (calls l f reply rest) < fuel
      → Returns (IsAnswered (length l) (woken m)) (Loop.handle_endpoint_calls fuel m)
  unfolding Loop.handle_endpoint_calls
  handle_endpoint_calls-IsAnswered l rest fuel m queued plain later fresh missing enough =
      receive_all-IsAnswered l rest fuel _ queued plain later fresh missing enough

  -- A thread calls `call_blocking` with a closure and a fresh reply channel, while the manager is
  -- alive. If neither its closure nor one that is queued before it panics or sends a request, and no
  -- `init` does, then `handle_endpoint_calls` returns with fuel for two rounds more than there were
  -- messages, and the caller receives the result that its closure had when it ran on the manager, in the
  -- state that the earlier requests had left.
  pub call_blocking-IsAnswered :
      (fuel : ℕ) (m : Machine os S R)
      → m.channel.receiver_alive ≡ true
      → AllPlain m.channel.messages
      → contains (senders m.channel.messages) reply ≡ false
      → recv reply m.channel ≡ none
      → length m.channel.messages + 1 < fuel
      → Returns
          (IsAnswered (length m.channel.messages) (woken (asked f reply m)))
          (Loop.handle_endpoint_calls fuel (asked f reply m))
  unfolding Loop.handle_endpoint_calls
  call_blocking-IsAnswered fuel m alive plain fresh missing enough =
      let sent = call_send_lem f reply m.channel m.world alive in
      receive_all-IsAnswered m.channel.messages [] fuel _ sent.0 plain tt fresh (sent.1 ∙ missing) (
        omega (
          arith,
          length-append m.channel.messages (record { fnbox = f; sender = some reply } ∷ []),
          enough,
        ))
