-- ===== src/EventOps/Flushed.antt =====
-- A descriptor that is removed and registered again while events are dispatched.
use event_manager.Prelude.{◌≡◌, ok, arith, inl, inr}
use event_manager.Os.{Os, RawFd}
use event_manager.Events
use event_manager.Events.{Events}
use event_manager.Epoll.{EpollWrapper, remove_event}
use event_manager.Epoll.Flushed.{IsFlushed, remove_event-IsFlushed, remove_event-keeps-IsFlushed}
use event_manager.EventOps.{EventOps, add, remove, register, unwatch}
use event_manager.EventOps.Routing.{ready_events-unwatch, ready_events-register}
use event_manager.EventOps.Branches.{add_branches, remove_branches}

module _ {os : Os} where
  same_buffer-IsFlushed :
      (fd : RawFd) (w w' : EpollWrapper os)
      → w'.ready_events ≡ w.ready_events
      → IsFlushed os fd w
      → IsFlushed os fd w'
  same_buffer-IsFlushed fd w w' same flushed i ev e = flushed i ev (rw same at e)

  pub removed-IsFlushed :
      (e : Events os) (self : EventOps os)
      → (remove e self).0 ≡ ok tt
      → IsFlushed os (Events.fd e) (remove e self).1.wrapper
  removed-IsFlushed e self removed = elim (remove_branches e self) [
    | inl (x, _, r) ↦ absurd (ground arith)
    | inr (_, r) ↦
        let w = remove_event (Events.fd e) self.wrapper in
        rw r (
          same_buffer-IsFlushed (Events.fd e) w (unwatch (Events.fd e) self.subscriber_id w)
            (ready_events-unwatch (Events.fd e) self.subscriber_id w)
            (remove_event-IsFlushed (Events.fd e) self.wrapper))
  ]

  pub removed_other-IsFlushed :
      (e : Events os) (self : EventOps os) (fd : RawFd)
      → IsFlushed os fd self.wrapper
      → IsFlushed os fd (remove e self).1.wrapper
  removed_other-IsFlushed e self fd flushed = elim (remove_branches e self) [
    | inl (x, _, r) ↦ rw r flushed
    | inr (_, r) ↦
        let w = remove_event (Events.fd e) self.wrapper in
        rw r (
          same_buffer-IsFlushed fd w (unwatch (Events.fd e) self.subscriber_id w)
            (ready_events-unwatch (Events.fd e) self.subscriber_id w)
            (remove_event-keeps-IsFlushed fd (Events.fd e) self.wrapper flushed))
  ]

  pub added-IsFlushed :
      (e : Events os) (self : EventOps os) (fd : RawFd)
      → IsFlushed os fd self.wrapper
      → IsFlushed os fd (add e self).1.wrapper
  added-IsFlushed e self fd flushed = elim (add_branches e self) [
    | inl (id, _, r) ↦ rw r flushed
    | inr (inl (x, _, _, r)) ↦ rw r flushed
    | inr (inr (_, _, r)) ↦ rw r (
        same_buffer-IsFlushed fd self.wrapper
          (register (Events.fd e) self.subscriber_id self.wrapper)
          (ready_events-register (Events.fd e) self.subscriber_id self.wrapper) flushed)
  ]

  -- After a successful `remove`, and also after an `add` of any events that follows it, every event
  -- that the buffer holds for the removed descriptor is a discarded one.
  pub add-remove-IsFlushed :
      (e e' : Events os) (self : EventOps os)
      → (remove e self).0 ≡ ok tt
      → IsFlushed os (Events.fd e) (remove e self).1.wrapper
        × IsFlushed os (Events.fd e) (add e' (remove e self).1).1.wrapper
  add-remove-IsFlushed e e' self removed = (
    removed-IsFlushed e self removed,
    added-IsFlushed e' (remove e self).1 (Events.fd e) (removed-IsFlushed e self removed),
  )
