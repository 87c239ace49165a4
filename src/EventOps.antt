-- ===== src/EventOps.antt =====
-- `EventOps` of src/events.rs: the operations on its watch list that a subscriber is handed.
pub mod Routing
pub mod Consistent
pub mod Branches
pub mod Foreign
pub mod Flushed
pub mod Errors
pub mod Succeeded
pub mod Table
use event_manager.Prelude.{
  none, some, [], ◌∷◌, ◌++◌, Result, ok, err, map_err, remove_first, if◌then◌else◌,
}
use event_manager.Prelude.HashMap
use event_manager.Os.{Os, RawFd, ControlOperation, op_add, op_modify, op_delete}
use event_manager.Error.{Error, fd_already_registered}
use event_manager.Events.{Events, fd, epoll_event}
use event_manager.Epoll.{SubscriberId, EpollWrapper, Context, remove_event, watched}

-- The pair of references that `ops_unchecked` builds: a context, and whom it stands for.
pub record EventOps (os : Os) : Type 0 where
  pub context : Context os
  pub open context use *
  pub subscriber_id : SubscriberId

module _ {os : Os} where
  -- `EventOps::new` and `EpollWrapper::ops_unchecked`
  unfoldable pub ops_unchecked : Context os → SubscriberId → EventOps os
  ops_unchecked context subscriber_id = record { context = context; subscriber_id = subscriber_id }

  abbrev pub with_world : EventOps os → os.World → EventOps os
  with_world self world = record self { context = record (self.context) { world = world } }

  abbrev pub with_wrapper : EventOps os → EpollWrapper os → EventOps os
  with_wrapper self wrapper = record self { context = record (self.context) { wrapper = wrapper } }

  unfoldable pub ctl :
      ControlOperation → Events os → EventOps os → Result (Unit {0}) (Error os) × EventOps os
  ctl op events self =
      let (answer, world') =
        os.epoll_ctl self.epoll op (fd events) (epoll_event events) self.world in
      (map_err (λ e. Error.epoll (os.errno_from e)) answer, with_world self world')

  -- The two insertions of `add`.
  unfoldable pub register : RawFd → SubscriberId → EpollWrapper os → EpollWrapper os
  unfolding watched
  register fd subscriber_id w = record w {
    fd_dispatch = HashMap.insert w.fd_dispatch fd subscriber_id;
    subscriber_watch_list =
        HashMap.insert w.subscriber_watch_list subscriber_id (watched w subscriber_id ++ fd ∷ []);
  }

  unfoldable pub add : Events os → EventOps os → Result (Unit {0}) (Error os) × EventOps os
  unfolding ctl register
  add events self =
      if HashMap.contains_key self.fd_dispatch (fd events)
      then (err fd_already_registered, self)
      else let (answer, self') = ctl op_add events self in
        elim answer [
          | err e ↦ (err e, self')
          | ok _ ↦
              (ok tt, with_wrapper self' (register (fd events) self'.subscriber_id self'.wrapper))
        ]

  unfoldable pub modify : Events os → EventOps os → Result (Unit {0}) (Error os) × EventOps os
  unfolding ctl
  modify events self = ctl op_modify events self

  -- The end of `remove`: the first occurrence leaves the watch list of this subscriber.
  unfoldable pub unwatch : RawFd → SubscriberId → EpollWrapper os → EpollWrapper os
  unwatch fd subscriber_id w = elim (HashMap.get w.subscriber_watch_list subscriber_id) [
    | none ↦ w
    | some watch_list ↦ record w {
      subscriber_watch_list =
          HashMap.insert w.subscriber_watch_list subscriber_id (remove_first fd watch_list);
    }
  ]

  unfoldable pub remove : Events os → EventOps os → Result (Unit {0}) (Error os) × EventOps os
  unfolding ctl unwatch
  remove events self =
      let (answer, self') = ctl op_delete events self in
      elim answer [
        | err e ↦ (err e, self')
        | ok _ ↦ (
          ok tt,
          with_wrapper self'
              (unwatch (fd events) self'.subscriber_id (remove_event (fd events) self'.wrapper)),
        )
      ]

-- A call of one of the three operations.
pub data Request (os : Os) : Type 0 where
  adds modifies removes : Events os → Request os

module _ {os : Os} where
  unfoldable pub perform : Request os → EventOps os → Result (Unit {0}) (Error os) × EventOps os
  perform (adds events) self = add events self
  perform (modifies events) self = modify events self
  perform (removes events) self = remove events self
