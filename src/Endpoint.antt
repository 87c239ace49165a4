-- ===== src/Endpoint.antt =====
-- src/endpoint.rs: the channel between the manager and its remote endpoints. The closures that an
-- endpoint sends are trees of the calls that they make on the manager.
pub mod Callers
pub mod Interleaved
pub mod Erased
pub mod Replies
use event_manager.Prelude.{
  ℕ, Bool, true, Option, none, some, List, [], ◌∷◌, ◌++◌, Result, ok, err, map_err, if◌then◌else◌,
}
use event_manager.Prelude.HashMap
use event_manager.Os.{Os, RawFd}
use event_manager.Error.{Error, channel_send}
use event_manager.Epoll.{SubscriberId}
use event_manager.EventOps.{Request}

-- `FnOnce(&mut dyn SubscriberOps) -> ErasedResult`, as the tree of what it does: a call of
-- `SubscriberOps`, with what follows for each answer; a message that it sends itself, through an
-- endpoint that it owns; or any effect on the world. `subscriber_mut` carries what is done to the
-- subscriber through the reference, `event_ops` the request made on the `EventOps` that it returns.
-- `S` is the type of subscribers, and `R` that of erased results.
pub data Closure (os : Os) (S R : Type 0) : Type 0 where
  done : R → Closure os S R
  panics : Closure os S R
  add_subscriber : S → (SubscriberId → Closure os S R) → Closure os S R
  remove_subscriber : SubscriberId → (Result S (Error os) → Closure os S R) → Closure os S R
  subscriber_mut : SubscriberId → (S → S) → (Result S (Error os) → Closure os S R) → Closure os S R
  event_ops :
      SubscriberId → Request os → (Result (Unit {0}) (Error os) → Closure os S R) → Closure os S R
  send :
      Closure os S R → Option ℕ → (Result (Unit {0}) (Error os) → Closure os S R) → Closure os S R
  effect : (os.World → os.World) → (os.World → Closure os S R) → Closure os S R

-- `FnMsg`: the sender of a temporary reply channel is the number of that channel.
pub record FnMsg (os : Os) (S R : Type 0) : Type 0 where
  pub fnbox : Closure os S R
  pub sender : Option ℕ

-- `EventManagerChannel`. The two ends of the `mpsc` channel share its queue. `receiver_alive`
-- says that the receiving end has not been dropped; `replies` are the results sent so far, by reply channel.
pub record EventManagerChannel (os : Os) (S R : Type 0) : Type 0 where
  pub event_fd : os.EventFd
  pub messages : List (FnMsg os S R)
  pub receiver_alive : Bool
  pub replies : List (ℕ × R)

module _ {os : Os} {S R : Type 0} where
  unfoldable pub new : os.World → Result (EventManagerChannel os S R) (Error os) × os.World
  new world =
      let (made, world') = os.eventfd_new os.efd_nonblock world in
      elim made [
        | err e ↦ (err (Error.event_fd (os.errno_from e)), world')
        | ok fd ↦ (
          ok (record { event_fd = fd; messages = []; receiver_alive = true; replies = [] }),
          world',
        )
      ]

  unfoldable pub fd : EventManagerChannel os S R → RawFd
  fd self = os.eventfd_raw self.event_fd

  -- `RemoteEndpoint::kick`, which is also the end of `send`: the counter of the eventfd is raised.
  unfoldable pub kick :
      EventManagerChannel os S R → os.World → Result (Unit {0}) (Error os) × os.World
  kick self world =
      let (answer, world') = os.eventfd_write self.event_fd 1 world in
      (map_err (λ e. Error.event_fd (os.errno_from e)) answer, world')

  -- `RemoteEndpoint::send`. Where the write fails the message stays queued.
  unfoldable pub send_msg :
      FnMsg os S R
      → EventManagerChannel os S R
      → os.World
      → Result (Unit {0}) (Error os) × EventManagerChannel os S R × os.World
  unfolding kick
  send_msg msg self world =
      if self.receiver_alive
      then (let self' = record self { messages = self.messages ++ msg ∷ [] } in
          let (answer, world') = kick self' world in (answer, self', world'))
      else (err channel_send, self, world)

  -- `RemoteEndpoint::fire`
  unfoldable pub fire :
      Closure os S R
      → EventManagerChannel os S R
      → os.World
      → Result (Unit {0}) (Error os) × EventManagerChannel os S R × os.World
  unfolding send_msg
  fire f self world = send_msg (record { fnbox = f; sender = none }) self world

  -- The first half of `RemoteEndpoint::call_blocking`, up to where it waits on its reply channel.
  unfoldable pub call_send :
      Closure os S R
      → ℕ
      → EventManagerChannel os S R
      → os.World
      → Result (Unit {0}) (Error os) × EventManagerChannel os S R × os.World
  unfolding send_msg
  call_send f reply self world = send_msg (record { fnbox = f; sender = some reply }) self world

  -- `sender.send(result)` in `handle_endpoint_calls`, and nothing for a message without a sender.
  unfoldable pub reply_to : Option ℕ → R → EventManagerChannel os S R → EventManagerChannel os S R
  reply_to none result self = self
  reply_to (some reply) result self = record self { replies = self.replies ++ (reply, result) ∷ [] }

  -- What `receiver.recv()` in `call_blocking` returns: the first result sent over its temporary
  -- channel; none while it still waits.
  unfoldable pub recv : ℕ → EventManagerChannel os S R → Option R
  recv reply self = HashMap.get self.replies reply
