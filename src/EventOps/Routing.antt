-- ===== src/EventOps/Routing.antt =====
-- The updates that `add` and `remove` make, seen through `subscriber_id` and `watched`; and a case
-- rule for a request.
use event_manager.Prelude.{
  ◌≡◌, refl, none, some, [], ◌∷◌, ◌++◌, arith, remove_first, ◌==◌, if◌then◌else◌, Option-cases,
  Result-cases, inl, inr,
}
use event_manager.Prelude.HashMap
use event_manager.Prelude.HashMap.{get-insert, contains_key_lem}
use event_manager.Os.{Os, RawFd, op_add, op_delete}
use event_manager.Events.{Events, fd, epoll_event}
use event_manager.Epoll.{SubscriberId, EpollWrapper, remove_event, watched, subscriber_id}
use event_manager.EventOps.{
  EventOps, Request, adds, modifies, removes, register, unwatch, add, modify, remove, ctl, perform,
  with_world, with_wrapper,
}

module _ {os : Os} where
  pub subscriber_id-register :
      (fd j : RawFd) (id : SubscriberId) (w : EpollWrapper os)
      → subscriber_id (register fd id w) j ≡ (if fd == j then some id else subscriber_id w j)
  unfolding subscriber_id register
  subscriber_id-register fd j id w = get-insert w.fd_dispatch fd id j

  pub watched-register :
      (fd : RawFd) (id i : SubscriberId) (w : EpollWrapper os)
      → watched (register fd id w) i ≡ (if id == i then watched w id ++ fd ∷ [] else watched w i)
  unfolding watched register
  watched-register fd id i w =
      ground (arith, get-insert w.subscriber_watch_list id (watched w id ++ fd ∷ []) i)

  pub ready_events-register :
      (fd : RawFd) (id : SubscriberId) (w : EpollWrapper os)
      → (register fd id w).ready_events ≡ w.ready_events
  unfolding register
  ready_events-register fd id w = refl

  pub subscriber_id-unwatch :
      (fd j : RawFd) (id : SubscriberId) (w : EpollWrapper os)
      → subscriber_id (unwatch fd id w) j ≡ subscriber_id w j
  unfolding subscriber_id unwatch
  subscriber_id-unwatch fd j id w = ground arith

  pub ready_events-unwatch :
      (fd : RawFd) (id : SubscriberId) (w : EpollWrapper os)
      → (unwatch fd id w).ready_events ≡ w.ready_events
  unfolding unwatch
  ready_events-unwatch fd id w = ground arith

  pub epoll-unwatch :
      (fd : RawFd) (id : SubscriberId) (w : EpollWrapper os) → (unwatch fd id w).epoll ≡ w.epoll
  unfolding unwatch
  epoll-unwatch fd id w = ground arith

  pub watched-unwatch :
      (fd : RawFd) (id i : SubscriberId) (w : EpollWrapper os)
      → watched (unwatch fd id w) i
        ≡ (if id == i then remove_first fd (watched w id) else watched w i)
  unfolding watched unwatch
  watched-unwatch fd id i w = elim (Option-cases (HashMap.get w.subscriber_watch_list id)) [
    | inl none_yet ↦ ground arith
    | inr (l, e) ↦ ground (arith, get-insert w.subscriber_watch_list id (remove_first fd l) i)
  ]

-- A request leaves the wrapper as it is, or registers a descriptor that nobody has, or removes one.
pub perform_cases {ℓ} :
    {os : Os} (P : EventOps os → Type ℓ) (r : Request os) (self : EventOps os)
    → ((world : os.World) → P (with_world self world))
    → ((events : Events os) (world : os.World)
        → r ≡ adds events
        → subscriber_id self.wrapper (fd events) ≡ none
        → P (
            with_wrapper
              (with_world self world)
              (register (fd events) self.subscriber_id self.wrapper)))
    → ((events : Events os) (world : os.World)
        → r ≡ removes events
        → P (
            with_wrapper
              (with_world self world)
              (unwatch (fd events) self.subscriber_id (remove_event (fd events) self.wrapper))))
    → P (perform r self).1
unfolding perform add modify remove ctl subscriber_id HashMap.contains_key
perform_cases {os} P (adds events) self same registers unregisters =
    elim (Option-cases (HashMap.get self.fd_dispatch (fd events))) [
      | inr (id, taken) ↦ rw (taken, add) (same self.world)
      | inl free ↦
          elim (Result-cases
            (os.epoll_ctl self.epoll op_add (fd events) (epoll_event events) self.world).0) [
              | inl (_, done) ↦ rw (free, add) (rw done (registers events _ refl free))
              | inr (_, failed) ↦ rw (free, add) (rw failed (same _))
            ]
    ]
perform_cases P (modifies events) self same registers unregisters = same _
perform_cases {os} P (removes events) self same registers unregisters =
    elim (Result-cases
      (os.epoll_ctl self.epoll op_delete (fd events) (epoll_event events) self.world).0) [
        | inl (_, done) ↦ rw (done, remove) (unregisters events _ refl)
        | inr (_, failed) ↦ rw (failed, remove) (same _)
      ]
