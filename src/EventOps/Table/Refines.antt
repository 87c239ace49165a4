-- ===== src/EventOps/Table/Refines.antt =====
-- The operations on the watch lists, and the table of routes and registrations.
use event_manager.Prelude.{
  ◌≡◌, refl, fun_ext, none, some, List, [], ◌∷◌, arith, inl, inr, contains, contains_of_count,
  count_of_contains, Result-cases, ◌==◌, if◌then◌else◌,
}
use event_manager.Os.{Os, RawFd, op_add, op_modify, op_delete}
use event_manager.Events
use event_manager.Events.{Events}
use event_manager.Epoll
use event_manager.Epoll.{
  SubscriberId, EpollWrapper, Context, subscriber_id, watched, remove_event, remove_fd, remove_fds,
}
use event_manager.Epoll.Dispatch.{subscriber_id-remove_event}
use event_manager.Epoll.Consistent.{IsExact}
use event_manager.EventOps
use event_manager.EventOps.{
  EventOps, Request, adds, modifies, removes, perform, ops_unchecked, register, unwatch, ctl,
}
use event_manager.EventOps.Routing.{epoll-unwatch, subscriber_id-register, subscriber_id-unwatch}
use event_manager.EventOps.Consistent.{IsOwn}
use event_manager.EventOps.Branches.{add_branches, remove_branches, answer}
use event_manager.Kernel.{Kernel}
use event_manager.Kernel.Synced.{deleted_other}
use event_manager.EventOps.Table.{Table, entry, table, answered, dropped, IsPermitted, IsRefused}

module _ {os : Os} (kernel : Kernel os) where
  -- A route that is changed with the registration, or not at all.
  abbrev tab : EventOps os → Table os.EpollEvent
  tab self = table kernel self.context

  add-answered :
      (e : Events os) (self : EventOps os) (fd : RawFd)
      → tab (EventOps.add e self).1 fd
        ≡ answered self.subscriber_id (adds e) (EventOps.add e self).0 (tab self) fd
  unfolding register subscriber_id
  add-answered e self fd = elim (add_branches e self) [
    | inl (id, _, r) ↦ rw r
    | inr (inl (x, _, failed, r)) ↦ rw (
      r,
      kernel.ctl_err self.epoll op_add (Events.fd e) (Events.epoll_event e) self.world x fd failed,
    )
    | inr (inr (free, done, r)) ↦ rw r (
        ground (
          arith,
          subscriber_id-register (Events.fd e) fd self.subscriber_id self.wrapper,
          kernel.add_ok self.epoll (Events.fd e) (Events.epoll_event e) self.world fd done,
        ))
  ]

  modify-answered :
      (e : Events os) (self : EventOps os) (fd : RawFd)
      → tab (EventOps.modify e self).1 fd
        ≡ answered self.subscriber_id (modifies e) (EventOps.modify e self).0 (tab self) fd
  unfolding EventOps.modify ctl subscriber_id
  modify-answered e self fd = elim (Result-cases (answer op_modify e self)) [
    | inr (x, failed) ↦ rw (
      failed,
      kernel.ctl_err self.epoll op_modify (Events.fd e) (Events.epoll_event e) self.world x fd
          failed,
    )
    | inl (_, done) ↦
        let ((old, registered), listed) =
          kernel.modify_ok self.epoll (Events.fd e) (Events.epoll_event e) self.world fd done in
        rw done (ground (arith, listed, registered))
  ]

  -- The deletion of a descriptor, whatever it answers.
  remove_event-entry :
      (fd j : RawFd) (ev : os.EpollEvent) (w : EpollWrapper os) (world : os.World)
      → entry
          (subscriber_id (remove_event fd w) j)
          (kernel.interest w.epoll (os.epoll_ctl w.epoll op_delete fd ev world).1 j)
        ≡ (if fd == j then none else entry (subscriber_id w j) (kernel.interest w.epoll world j))
  remove_event-entry fd j ev w world =
      ground (arith, subscriber_id-remove_event fd j w, deleted_other kernel fd ev w world j)

  remove-answered :
      (e : Events os) (self : EventOps os) (fd : RawFd)
      → tab (EventOps.remove e self).1 fd
        ≡ answered self.subscriber_id (removes e) (EventOps.remove e self).0 (tab self) fd
  unfolding remove_event
  remove-answered e self fd = elim (remove_branches e self) [
    | inl (x, failed, r) ↦ rw (
      r,
      kernel.ctl_err self.epoll op_delete (Events.fd e) (Events.epoll_event e) self.world x fd
          failed,
    )
    | inr (done, r) ↦
        rw
          (
            r,
            subscriber_id-unwatch (Events.fd e) fd self.subscriber_id
                (remove_event (Events.fd e) self.wrapper),
            epoll-unwatch (Events.fd e) self.subscriber_id
                (remove_event (Events.fd e) self.wrapper),
          )
          (remove_event-entry (Events.fd e) fd (Events.epoll_event e) self.wrapper self.world)
  ]

  remove_fds-entry :
      (fds : List RawFd) (c : Context os) (j : RawFd)
      → table kernel (remove_fds fds c) j ≡ (if contains fds j then none else table kernel c j)
  unfolding remove_fds remove_fd remove_event
  remove_fds-entry [] c j = refl
  remove_fds-entry (fd ∷ fds) c j = ground (
    arith,
    remove_fds-entry fds (remove_fd fd c) j,
    remove_event-entry fd j os.event_default c.wrapper c.world,
  )

  remove-entry :
      (id : SubscriberId) (c : Context os) (fd : RawFd)
      → table kernel (Epoll.remove id c) fd
        ≡ (if contains (watched c.wrapper id) fd then none else table kernel c fd)
  unfolding Epoll.remove subscriber_id
  remove-entry id c fd = remove_fds-entry (watched c.wrapper id) _ fd

  -- Every entry of the subscriber goes, and no other.
  pub remove-dropped :
      (id : SubscriberId) (c : Context os) (fd : RawFd)
      → IsExact os c.wrapper
      → table kernel (Epoll.remove id c) fd ≡ dropped id (table kernel c) fd
  remove-dropped id c fd exact = ground (
    arith,
    remove-entry id c fd,
    exact fd id,
    contains_of_count (watched c.wrapper id) fd,
    count_of_contains (watched c.wrapper id) fd,
  )

  -- A request is answered as its table is.
  pub perform-answered :
      (r : Request os) (self : EventOps os)
      → tab (perform r self).1 ≡ answered self.subscriber_id r (perform r self).0 (tab self)
  unfolding perform
  perform-answered (adds e) self = fun_ext (add-answered e self)
  perform-answered (modifies e) self = fun_ext (modify-answered e self)
  perform-answered (removes e) self = fun_ext (remove-answered e self)

  -- An entry is routed to its subscriber.
  routed_of_entry :
      (c : Context os) (fd : RawFd) (id : SubscriberId) (event : os.EpollEvent)
      → table kernel c fd ≡ some (id, event)
      → subscriber_id c.wrapper fd ≡ some id
  routed_of_entry c fd id event e = ground arith

  pub perform-IsRefused :
      (r : Request os) (self : EventOps os) → IsRefused r (perform r self).0 (tab self)
  unfolding perform
  perform-IsRefused (adds e) self = λ (owner, event) found. elim (add_branches e self) [
    | inl (id, _, r) ↦ rw r
    | inr (inl (x, free, _, _)) ↦
        absurd (ground (arith, routed_of_entry self.context (Events.fd e) owner event))
    | inr (inr (free, _, _)) ↦
        absurd (ground (arith, routed_of_entry self.context (Events.fd e) owner event))
  ]
  perform-IsRefused (modifies e) self = tt
  perform-IsRefused (removes e) self = tt

  pub owned_of_permitted :
      (r : Request os) (self : EventOps os)
      → IsPermitted self.subscriber_id r (tab self)
      → IsOwn r self
  owned_of_permitted (adds e) self permitted = tt
  owned_of_permitted (modifies e) self permitted = tt
  owned_of_permitted (removes e) self (event, found) =
      routed_of_entry self.context (Events.fd e) self.subscriber_id event found
