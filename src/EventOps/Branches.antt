-- ===== src/EventOps/Branches.antt =====
-- `add` and `remove` branch by branch, and one after the other.
use event_manager.Prelude.{
  ◌≡◌, ◌⊎◌, inl, inr, none, some, [], ◌∷◌, ◌++◌, Result, ok, err, arith, count, count-append_one,
  count-remove_first, Option-cases, Result-cases,
}
use event_manager.Prelude.HashMap
use event_manager.Os.{Os, RawFd, IoError, op_add, op_delete, ControlOperation}
use event_manager.Error.{Error, fd_already_registered}
use event_manager.Events
use event_manager.Events.{Events}
use event_manager.Epoll.{SubscriberId, EpollWrapper, remove_event, watched, subscriber_id}
use event_manager.Epoll.Dispatch.{subscriber_id-remove_event, watched-remove_event}
use event_manager.EventOps.{EventOps, add, remove, ctl, register, unwatch, with_world, with_wrapper}
use event_manager.EventOps.Routing.{
  subscriber_id-register, watched-register, subscriber_id-unwatch, watched-unwatch,
}

module _ {os : Os} where
  -- The answer of the system call that an operation makes.
  abbrev pub answer : ControlOperation → Events os → EventOps os → Result (Unit {0}) IoError
  answer op e self = (os.epoll_ctl self.epoll op (Events.fd e) (Events.epoll_event e) self.world).0

  abbrev pub world_after : ControlOperation → Events os → EventOps os → os.World
  world_after op e self =
      (os.epoll_ctl self.epoll op (Events.fd e) (Events.epoll_event e) self.world).1

  -- `add` refuses a descriptor that is routed, without a system call; passes an error of the call
  -- on, with the wrapper as it was; and else routes the descriptor to its own subscriber only.
  pub add_branches :
      (e : Events os) (self : EventOps os)
      → ((id : SubscriberId) × (subscriber_id self.wrapper (Events.fd e) ≡ some id)
          × (add e self ≡ (err fd_already_registered, self)))
        ⊎ ((x : IoError) × (subscriber_id self.wrapper (Events.fd e) ≡ none)
            × (answer op_add e self ≡ err x)
            × (add e self ≡ (
              err (Error.epoll (os.errno_from x)),
              with_world self (world_after op_add e self),
            )))
        ⊎ ((subscriber_id self.wrapper (Events.fd e) ≡ none)
            × (answer op_add e self ≡ ok tt)
            × (add e self ≡ (
              ok tt,
              with_wrapper
                  (with_world self (world_after op_add e self))
                  (register (Events.fd e) self.subscriber_id self.wrapper),
            )))
  unfolding add ctl subscriber_id HashMap.contains_key
  add_branches e self = elim (Option-cases (HashMap.get self.fd_dispatch (Events.fd e))) [
    | inr (id, taken) ↦ inl (id, taken, rw (taken, add))
    | inl free ↦ elim (Result-cases (answer op_add e self)) [
      | inl (tt, done) ↦ inr (inr (free, done, rw (free, add) (rw done)))
      | inr (x, failed) ↦ inr (inl (x, free, failed, rw (free, add) (rw failed)))
    ]
  ]

  -- `remove` passes an error of the system call on, with the wrapper as it was; and else flushes and
  -- unroutes the descriptor, and takes it from the watch list of the subscriber that asked.
  pub remove_branches :
      (e : Events os) (self : EventOps os)
      → ((x : IoError) × (answer op_delete e self ≡ err x)
          × (remove e self ≡ (
            err (Error.epoll (os.errno_from x)),
            with_world self (world_after op_delete e self),
          )))
        ⊎ ((answer op_delete e self ≡ ok tt)
            × (remove e self ≡ (
              ok tt,
              with_wrapper (with_world self (world_after op_delete e self)) (
                  unwatch
                    (Events.fd e)
                    self.subscriber_id
                    (remove_event (Events.fd e) self.wrapper)),
            )))
  unfolding remove ctl
  remove_branches e self = elim (Result-cases (answer op_delete e self)) [
    | inl (tt, done) ↦ inr (done, rw (done, remove))
    | inr (x, failed) ↦ inl (x, failed, rw (failed, remove))
  ]

  -- The updates of `add` and `remove` cancel, on a descriptor that was not routed.
  unregister-register :
      (fd : RawFd) (id : SubscriberId) (w : EpollWrapper os)
      → subscriber_id w fd ≡ none
      → (j : RawFd) (i : SubscriberId)
      → (subscriber_id (unwatch fd id (remove_event fd (register fd id w))) j ≡ subscriber_id w j)
        × (count (watched (unwatch fd id (remove_event fd (register fd id w))) i) j
            ≡ count (watched w i) j)
  unregister-register fd id w free j i = (
    ground (
      arith,
      subscriber_id-unwatch fd j id (remove_event fd (register fd id w)),
      subscriber_id-remove_event fd j (register fd id w),
      subscriber_id-register fd j id w,
    ),
    ground (
      arith,
      watched-unwatch fd id i (remove_event fd (register fd id w)),
      watched-remove_event fd (register fd id w) i,
      watched-remove_event fd (register fd id w) id,
      watched-register fd id i w,
      watched-register fd id id w,
      count-remove_first fd j (watched w id ++ fd ∷ []),
      count-append_one (watched w id) fd j,
    ),
  )

  -- `add` followed by `remove` of the same events, both with success, restores every route and the
  -- contents of every watch list.
  pub remove-add :
      (e : Events os) (self : EventOps os)
      → (add e self).0 ≡ ok tt
      → (remove e (add e self).1).0 ≡ ok tt
      → (j : RawFd) (i : SubscriberId)
      → (subscriber_id (remove e (add e self).1).1.wrapper j ≡ subscriber_id self.wrapper j)
        × (count (watched (remove e (add e self).1).1.wrapper i) j
            ≡ count (watched self.wrapper i) j)
  remove-add e self added removed j i = elim (add_branches e self) [
    | inl (id, _, r) ↦ ground arith
    | inr (inl (x, _, _, r)) ↦ ground arith
    | inr (inr (free, _, r)) ↦ elim (remove_branches e (add e self).1) [
      | inl (x, _, q) ↦ ground arith
      | inr (_, q) ↦
          rw (q, r) (unregister-register (Events.fd e) self.subscriber_id self.wrapper free j i)
    ]
  ]
