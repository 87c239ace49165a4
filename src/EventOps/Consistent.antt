-- ===== src/EventOps/Consistent.antt =====
-- Requests, the agreement of `fd_dispatch` with the watch lists, and the buffer.
use event_manager.Prelude.{
  ℕ, ◌≡◌, none, some, arith, contains-append_self, contains-append_ne, count-append_one,
  contains-remove_first_ne, count-remove_first, ◌==◌, if◌then◌else◌, Bool-cases, inl, inr, subst,
  ◌∙◌, length, ap, refl,
}
use event_manager.Os.{Os, RawFd}
use event_manager.Events
use event_manager.Epoll.{SubscriberId, EpollWrapper, remove_event, watched, subscriber_id}
use event_manager.Epoll.Dispatch.{subscriber_id-remove_event, watched-remove_event}
use event_manager.Epoll.Consistent.{IsConsistent, IsExact}
use event_manager.Epoll.Buffer.{
  IsDeliverable, AllDeliverable, remove_event-AllDeliverable, length-remove_event,
}
use event_manager.EventOps.{EventOps, Request, adds, modifies, removes, perform, register, unwatch}
use event_manager.EventOps.Routing.{
  perform_cases, subscriber_id-register, watched-register, subscriber_id-unwatch, watched-unwatch,
  ready_events-unwatch, ready_events-register,
}

module _ {os : Os} (fd : RawFd) (id : SubscriberId) (w : EpollWrapper os) where
  abbrev unregister : EpollWrapper os
  unregister = unwatch fd id (remove_event fd w)

  pub subscriber_id-unregister :
      (j : RawFd) → subscriber_id unregister j ≡ (if fd == j then none else subscriber_id w j)
  subscriber_id-unregister j =
      ground (
        arith,
        subscriber_id-unwatch fd j id (remove_event fd w),
        subscriber_id-remove_event fd j w,
      )

  register-IsConsistent : IsConsistent os w → IsConsistent os (register fd id w)
  register-IsConsistent h j i e = ground (
    arith,
    subscriber_id-register fd j id w,
    watched-register fd id i w,
    h j i,
    contains-append_self (watched w id) fd,
    contains-append_ne (watched w id) fd j,
  )

  unregister-IsConsistent : IsConsistent os w → IsConsistent os unregister
  unregister-IsConsistent h j i e = ground (
    arith,
    subscriber_id-unregister j,
    watched-unwatch fd id i (remove_event fd w),
    watched-remove_event fd w i,
    watched-remove_event fd w id,
    h j i,
    contains-remove_first_ne fd j (watched w id),
  )

  register-IsExact : subscriber_id w fd ≡ none → IsExact os w → IsExact os (register fd id w)
  register-IsExact free exact j i = ground (
    arith,
    subscriber_id-register fd j id w,
    watched-register fd id i w,
    exact j i,
    count-append_one (watched w id) fd j,
  )

  unregister-IsExact : subscriber_id w fd ≡ some id → IsExact os w → IsExact os unregister
  unregister-IsExact owned exact j i = ground (
    arith,
    subscriber_id-unregister j,
    watched-unwatch fd id i (remove_event fd w),
    watched-remove_event fd w i,
    watched-remove_event fd w id,
    exact j i,
    count-remove_first fd j (watched w id),
  )

  routed-register :
      (j : RawFd)
      → ((i : SubscriberId) × (subscriber_id w j ≡ some i))
      → (i : SubscriberId) × (subscriber_id (register fd id w) j ≡ some i)
  routed-register j (i, e) = elim (Bool-cases (fd == j)) [
    | inl hit ↦ (id, ground (arith, subscriber_id-register fd j id w))
    | inr miss ↦ (i, ground (arith, subscriber_id-register fd j id w))
  ]

  register-IsDeliverable :
      (channel_fd : RawFd) (ev : os.EpollEvent)
      → IsDeliverable os w channel_fd ev
      → IsDeliverable os (register fd id w) channel_fd ev
  register-IsDeliverable channel_fd ev (inl gone) = inl gone
  register-IsDeliverable channel_fd ev (inr (inl routed)) =
      inr (inl (routed-register (os.event_fd ev) routed))
  register-IsDeliverable channel_fd ev (inr (inr channel)) = inr (inr channel)

  unwatch-IsDeliverable :
      (channel_fd : RawFd) (ev : os.EpollEvent)
      → IsDeliverable os w channel_fd ev
      → IsDeliverable os (unwatch fd id w) channel_fd ev
  unwatch-IsDeliverable channel_fd ev (inl gone) = inl gone
  unwatch-IsDeliverable channel_fd ev (inr (inl (i, e))) =
      inr (inl (i, subscriber_id-unwatch fd (os.event_fd ev) id w ∙ e))
  unwatch-IsDeliverable channel_fd ev (inr (inr channel)) = inr (inr channel)

module _ {os : Os} where
  -- No request changes the length of the buffer.
  pub perform-length :
      (r : Request os) (self : EventOps os)
      → length (perform r self).1.ready_events ≡ length self.ready_events
  perform-length r self =
      perform_cases (λ s. length s.ready_events ≡ length self.ready_events) r self (λ _. refl)
        (λ e _ _ _. ap length (ready_events-register (Events.fd e) self.subscriber_id self.wrapper))
        (λ e _ _.
          ap length (
            ready_events-unwatch (Events.fd e) self.subscriber_id
              (remove_event (Events.fd e) self.wrapper))
          ∙ length-remove_event (Events.fd e) self.wrapper)

  -- Every request keeps routed descriptors on the watch list of the subscriber they are routed to.
  pub perform-IsConsistent :
      (r : Request os) (self : EventOps os)
      → IsConsistent os self.wrapper
      → IsConsistent os (perform r self).1.wrapper
  perform-IsConsistent r self h =
      perform_cases (λ s. IsConsistent os s.wrapper) r self (λ _. h)
        (λ e _ _ _. register-IsConsistent (Events.fd e) self.subscriber_id self.wrapper h)
        (λ e _ _. unregister-IsConsistent (Events.fd e) self.subscriber_id self.wrapper h)

  -- A request takes from the buffer, or adds to the routes: what was deliverable stays so.
  pub perform-AllDeliverable :
      (n : ℕ) (channel_fd : RawFd) (r : Request os) (self : EventOps os)
      → AllDeliverable os n channel_fd self.wrapper
      → AllDeliverable os n channel_fd (perform r self).1.wrapper
  perform-AllDeliverable n channel_fd r self all =
      perform_cases (λ s. AllDeliverable os n channel_fd s.wrapper) r self (λ _. all)
        (λ e _ _ _ i ev lt found.
          register-IsDeliverable (Events.fd e) self.subscriber_id self.wrapper channel_fd ev (
            all i ev lt
              (rw (ready_events-register (Events.fd e) self.subscriber_id self.wrapper) at found)))
        (λ e _ _ i ev lt found.
          unwatch-IsDeliverable (Events.fd e) self.subscriber_id _ channel_fd ev (
            remove_event-AllDeliverable (Events.fd e) channel_fd n self.wrapper all i ev lt (
              rw
                (ready_events-unwatch (Events.fd e) self.subscriber_id
                  (remove_event (Events.fd e) self.wrapper))
                at found)))

  -- A request of a subscriber that removes no descriptor of another one, and none that is not routed.
  abbrev pub IsOwn : Request os → EventOps os → Type 0
  IsOwn (adds _) self = Unit
  IsOwn (modifies _) self = Unit
  IsOwn (removes e) self = subscriber_id self.wrapper (Events.fd e) ≡ some self.subscriber_id

  -- A request that removes only descriptors routed to the subscriber that makes it keeps every watch
  -- list exact: it
  -- names the descriptors routed to its subscriber, each once, and no others.
  pub perform-IsExact :
      (r : Request os) (self : EventOps os)
      → IsOwn r self
      → IsExact os self.wrapper
      → IsExact os (perform r self).1.wrapper
  perform-IsExact r self own exact =
      perform_cases (λ s. IsExact os s.wrapper) r self (λ _. exact)
        (λ e _ _ free. register-IsExact (Events.fd e) self.subscriber_id self.wrapper free exact)
        (λ e _ is.
          unregister-IsExact (Events.fd e) self.subscriber_id self.wrapper
            (subst (λ q. IsOwn q self) is own) exact)
