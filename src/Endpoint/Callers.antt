-- ===== src/Endpoint/Callers.antt =====
-- src/endpoint.rs from the side of the callers: `RemoteEndpoint`, and the end of `call_blocking`.
use event_manager.Prelude.{
  ℕ, false, Option, none, some, List, [], ◌∷◌, ◌++◌, map, Result, ok, err, contains, if◌then◌else◌,
}
use event_manager.Os.{Os}
use event_manager.Error.{Error, channel_recv}
use event_manager.Endpoint.{FnMsg, EventManagerChannel, recv}

-- `RemoteEndpoint`. Its `msg_sender` is a handle of the one queue of `EventManagerChannel`, which the
-- operations take in its place.
pub record RemoteEndpoint (os : Os) : Type 0 where
  pub event_fd : os.EventFd

-- The reply channels of the blocking calls among some messages, in order.
abbrev pub one_sender : Option ℕ → List ℕ
one_sender none = []
one_sender (some reply) = reply ∷ []

module _ {os : Os} {S R : Type 0} where
  abbrev pub senders : List (FnMsg os S R) → List ℕ
  senders [] = []
  senders (msg ∷ msgs) = one_sender msg.sender ++ senders msgs

  -- The reply channels that have been answered, in order.
  abbrev pub answered : EventManagerChannel os S R → List ℕ
  answered c = map (λ r. r.0) c.replies

  -- `EventManagerChannel::remote_endpoint`
  unfoldable pub remote_endpoint : EventManagerChannel os S R → RemoteEndpoint os
  remote_endpoint self = record { event_fd = self.event_fd }

  -- When the manager is dropped, so is the receiving end, with the messages that are queued.
  unfoldable pub disconnect : EventManagerChannel os S R → EventManagerChannel os S R
  disconnect self = record self { messages = []; receiver_alive = false }

  -- `receiver.recv()` in `call_blocking`, between two turns of the event loop: a result that was sent;
  -- none, while a queued message holds the sending end of the temporary channel; and else an error.
  unfoldable pub recv_result : ℕ → EventManagerChannel os S R → Option (Result R (Error os))
  unfolding recv
  recv_result reply self = elim (recv reply self) [
    | some result ↦ some (ok result)
    | none ↦ if contains (senders self.messages) reply then none else some (err channel_recv)
  ]

  -- What `call_blocking` returns, after its `send` has; none while it still waits.
  unfoldable pub call_result :
      Result (Unit {0}) (Error os) → ℕ → EventManagerChannel os S R → Option (Result R (Error os))
  unfolding recv_result
  call_result (err e) reply self = some (err e)
  call_result (ok _) reply self = recv_result reply self

module _ {os : Os} where
  -- `Clone::clone` for `RemoteEndpoint`
  unfoldable pub clone : RemoteEndpoint os → RemoteEndpoint os
  clone self = record { event_fd = self.event_fd }
