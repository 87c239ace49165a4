-- ===== src/Manager.antt =====
-- `EventManager` of src/manager.rs, with the feature `remote_endpoint`.
pub mod Loop
pub mod Rules
pub mod Cases
pub mod Errors
pub mod Wellformed
pub mod Kept
pub mod Safe
pub mod Deferred
pub mod Sent
pub mod Stale
pub mod Delivered
pub mod Awaited
pub mod HandedOver
pub mod Notified
pub mod Found
pub mod Noticed
pub mod Typed
pub mod Remote
pub mod Total
pub mod Turn
pub mod Blocking
pub mod Called
pub mod Accounted
pub mod Callers
pub mod Synced
pub mod InStep
pub mod Polled
pub mod Runnable
pub mod Created
pub mod Reach
pub mod Reached
use event_manager.Prelude.{
  ℕ, zero, suc, ◌+◌, ◌-◌, ◌/◌, ◌^◌, Bool, true, false, ◌&&◌, Option, none, some, List, [], ◌∷◌,
  Result, ok, err, ok_or, Outcome, returned, panicked, unfinished, ◌>>=◌, get_elem?, ltb, ◌==◌,
  if◌then◌else◌,
}
use event_manager.Os.{Os, RawFd, op_add}
use event_manager.Error.{Error, invalid_id, invalid_capacity}
use event_manager.Events.{as_u64}
use event_manager.Epoll
use event_manager.Epoll.{SubscriberId, EpollWrapper, Context, subscriber_id}
use event_manager.EventOps.{EventOps, Request, perform, ops_unchecked}
use event_manager.Subscribers
use event_manager.Subscribers.{Subscribers}
use event_manager.Endpoint
use event_manager.Endpoint.{Closure, FnMsg, EventManagerChannel, reply_to, send_msg}
use event_manager.Endpoint.Callers as RemoteSide
use event_manager.Endpoint.Callers.{RemoteEndpoint}
use event_manager.Handler.{Handler, MutEventSubscriber, Scope, run_handler}

pub record EventManager (os : Os) (S R : Type 0) : Type 0 where
  pub subscribers : Subscribers S
  pub epoll_context : EpollWrapper os
  pub channel : EventManagerChannel os S R

-- The manager behind a mutable reference, and the world.
pub record Machine (os : Os) (S R : Type 0) : Type 0 where
  pub manager : EventManager os S R
  pub open manager use *
  pub world : os.World

-- `MAX_READY_EVENTS_CAPACITY`: `i32::MAX` by the size of an `EpollEvent`
unfoldable pub max_ready_events_capacity : Os → ℕ
max_ready_events_capacity os = (2 ^ 31 - 1) / os.event_size

abbrev pub default_ready_events_capacity : ℕ
default_ready_events_capacity = 256

module _ {os : Os} {S R : Type 0} where
  abbrev pub context : Machine os S R → Context os
  context self = record { wrapper = self.epoll_context; world = self.world }

  abbrev pub with_context : Machine os S R → Context os → Machine os S R
  with_context self c = record {
    manager = record (self.manager) { epoll_context = c.wrapper };
    world = c.world;
  }

  abbrev pub with_subscribers : Machine os S R → Subscribers S → Machine os S R
  with_subscribers self subscribers = record self {
    manager = record (self.manager) { subscribers = subscribers };
  }

  abbrev pub with_channel : Machine os S R → EventManagerChannel os S R → Machine os S R
  with_channel self channel = record self { manager = record (self.manager) { channel = channel } }

  -- The scope of a handler that runs for a subscriber, and what it leaves behind.
  abbrev pub scope : Machine os S R → SubscriberId → Scope os S R
  scope self id = record { ops = ops_unchecked (context self) id; channel = self.channel }

  abbrev pub after_handler : Machine os S R → SubscriberId → S × Scope os S R → Machine os S R
  after_handler self id (subscriber, left) = record {
    manager = record {
      subscribers = Subscribers.write_back id subscriber self.subscribers;
      epoll_context = left.wrapper;
      channel = left.channel;
    };
    world = left.world;
  }

  unfoldable pub remove_subscriber :
      SubscriberId → Machine os S R → Result S (Error os) × Machine os S R
  remove_subscriber id self =
      let (removed, subscribers') = Subscribers.remove id self.subscribers in
      elim removed [
        | none ↦ (err invalid_id, with_subscribers self subscribers')
        | some subscriber ↦ (
          ok subscriber,
          with_context (with_subscribers self subscribers') (Epoll.remove id (context self)),
        )
      ]

  -- The reference that `subscriber_mut` returns is used to apply `change`; the result is what the
  -- subscriber was before.
  unfoldable pub subscriber_mut :
      SubscriberId → (S → S) → Machine os S R → Outcome (Result S (Error os) × Machine os S R)
  subscriber_mut id change self =
      if Subscribers.contains id self.subscribers
      then Subscribers.get_mut_unchecked id self.subscribers >>= (λ subscriber. returned (
        ok subscriber,
        with_subscribers self (Subscribers.write_back id (change subscriber) self.subscribers),
      ))
      else returned (err invalid_id, self)

  -- The `EventOps` that `event_ops` returns, and one request on it.
  unfoldable pub event_ops : SubscriberId → Machine os S R → Result (EventOps os) (Error os)
  event_ops id self =
      if Subscribers.contains id self.subscribers
      then ok (ops_unchecked (context self) id)
      else err invalid_id

  unfoldable pub event_ops_request :
      SubscriberId → Request os → Machine os S R → Result (Unit {0}) (Error os) × Machine os S R
  unfolding event_ops
  event_ops_request id r self = elim (event_ops id self) [
    | err e ↦ (err e, self)
    | ok ops ↦ let (answer, ops') = perform r ops in (answer, with_context self ops'.context)
  ]

  unfoldable pub send_message :
      FnMsg os S R → Machine os S R → Result (Unit {0}) (Error os) × Machine os S R
  send_message msg self =
      let (answer, channel', world') = send_msg msg self.channel self.world in
      (answer, record { manager = record (self.manager) { channel = channel' }; world = world' })

  unfoldable pub remote_endpoint : Machine os S R → RemoteEndpoint os
  remote_endpoint self = RemoteSide.remote_endpoint self.channel

  unfoldable pub new_with_capacity :
      ℕ → os.World → Result (EventManager os S R) (Error os) × os.World
  new_with_capacity ready_events_capacity world =
      if ltb (max_ready_events_capacity os) ready_events_capacity
      then (err invalid_capacity, world)
      else (let (made, world₁) = Epoll.new ready_events_capacity world in
          elim made [
            | err e ↦ (err e, world₁)
            | ok epoll_context ↦
                let (channel_made, world₂) = Endpoint.new world₁ in
                elim channel_made [
                  | err e ↦ (err e, world₂)
                  | ok channel ↦
                      let channel_fd = Endpoint.fd channel in
                      let (answer, world₃) =
                        os.epoll_ctl epoll_context.epoll op_add channel_fd
                          (os.event_new os.set_in (as_u64 channel_fd)) world₂ in
                      elim answer [
                        | err e ↦ (err (Error.epoll (os.errno_from e)), world₃)
                        | ok _ ↦ (
                          ok (record {
                            subscribers = Subscribers.new;
                            epoll_context = epoll_context;
                            channel = channel;
                          }),
                          world₃,
                        )
                      ]
                ]
          ])

  unfoldable pub new : os.World → Result (EventManager os S R) (Error os) × os.World
  unfolding new_with_capacity
  new world = new_with_capacity default_ready_events_capacity world
