-- ===== src/Kernel/Synced.antt =====
-- The operations on the wrapper, the interest list of epoll, and the routes.
use event_manager.Prelude.{
  ◌≡◌, ◌∙◌, none, some, List, [], ◌∷◌, ok, err, Option-cases, arith, ◌==◌, if◌then◌else◌, false,
  Bool-cases, Result-cases, inl, inr, sym, subst,
}
use event_manager.Os.{Os, RawFd, IoError, op_add, op_modify, op_delete}
use event_manager.Events
use event_manager.Events.{Events}
use event_manager.Epoll
use event_manager.Epoll.{
  SubscriberId, EpollWrapper, Context, subscriber_id, remove_event, remove_fd, remove_fds, watched,
}
use event_manager.Epoll.Dispatch.{subscriber_id-remove_event}
use event_manager.EventOps
use event_manager.EventOps.{
  EventOps, Request, adds, modifies, removes, perform, register, unwatch, ctl,
}
use event_manager.EventOps.Routing.{epoll-unwatch, subscriber_id-register, subscriber_id-unwatch}
use event_manager.EventOps.Branches.{add_branches, remove_branches, answer}
use event_manager.Kernel.{Kernel, IsUnshared, InSync, IsRouted}

module _ {os : Os} (kernel : Kernel os) where
  not_listed :
      (fd : RawFd) (ev : os.EpollEvent) (w : EpollWrapper os) (world : os.World) (e : IoError)
      → IsUnshared kernel w.epoll
      → (os.epoll_ctl w.epoll op_delete fd ev world).0 ≡ err e
      → kernel.interest w.epoll world fd ≡ none
  not_listed fd ev w world e unshared failed =
      elim (kernel.delete_err w.epoll fd ev world e failed) [
        | inl missing ↦ missing
        | inr closed ↦ elim (Option-cases (kernel.interest w.epoll world fd)) [
          | inl missing ↦ missing
          | inr (reg, listed) ↦ absurd (ground (arith, unshared world fd reg listed, closed))
        ]
      ]

  -- A deletion, successful or not, changes no other descriptor.
  pub deleted_other :
      (fd : RawFd) (ev : os.EpollEvent) (w : EpollWrapper os) (world : os.World) (j : RawFd)
      → (fd == j) ≡ false
      → kernel.interest w.epoll (os.epoll_ctl w.epoll op_delete fd ev world).1 j
        ≡ kernel.interest w.epoll world j
  deleted_other fd ev w world j other =
      elim (Result-cases (os.epoll_ctl w.epoll op_delete fd ev world).0) [
        | inl (_, done) ↦ ground (arith, kernel.delete_ok w.epoll fd ev world j done)
        | inr (e, failed) ↦ kernel.ctl_err w.epoll op_delete fd ev world e j failed
      ]

  -- After a deletion, successful or not, the descriptor is not on the list, if none on it is closed.
  pub deleted :
      (fd : RawFd) (ev : os.EpollEvent) (w : EpollWrapper os) (world : os.World) (j : RawFd)
      → IsUnshared kernel w.epoll
      → kernel.interest w.epoll (os.epoll_ctl w.epoll op_delete fd ev world).1 j
        ≡ (if fd == j then none else kernel.interest w.epoll world j)
  deleted fd ev w world j unshared =
      elim (Result-cases (os.epoll_ctl w.epoll op_delete fd ev world).0) [
        | inl (_, done) ↦ kernel.delete_ok w.epoll fd ev world j done
        | inr (e, failed) ↦ ground (
          arith,
          kernel.ctl_err w.epoll op_delete fd ev world e j failed,
          not_listed fd ev w world e unshared failed,
        )
      ]

module _ {os : Os} (kernel : Kernel os) (channel_fd : RawFd) where
  open kernel use {interest}

  -- The event that `add` or `modify` hands over carries the descriptor that it is registered for.
  event_fd-epoll_event : (e : Events os) → os.event_fd (Events.epoll_event e) ≡ Events.fd e
  unfolding Events.epoll_event Events.fd
  event_fd-epoll_event e = kernel.event_laws.fd_of_data e.inner

  -- Fewer registrations are still in step.
  pub fewer-InSync :
      (w : EpollWrapper os) (old new : os.World)
      → ((fd : RawFd) (ev : os.EpollEvent)
          → interest w.epoll new fd ≡ some ev
          → interest w.epoll old fd ≡ some ev)
      → InSync kernel channel_fd w old
      → InSync kernel channel_fd w new
  fewer-InSync w old new fewer sync fd ev e = sync fd ev (fewer fd ev e)

  same-InSync :
      (w : EpollWrapper os) (old new : os.World)
      → ((fd : RawFd) → interest w.epoll new fd ≡ interest w.epoll old fd)
      → InSync kernel channel_fd w old
      → InSync kernel channel_fd w new
  same-InSync w old new same sync fd ev e = sync fd ev (sym (same fd) ∙ e)

  keep_route :
      (w w' : EpollWrapper os) (fd : RawFd)
      → subscriber_id w' fd ≡ subscriber_id w fd
      → IsRouted channel_fd w fd
      → IsRouted channel_fd w' fd
  keep_route w w' fd same (inl (id, e)) = inl (id, same ∙ e)
  keep_route w w' fd same (inr channel) = inr channel

  registered-InSync :
      (e : Events os) (id : SubscriberId) (w : EpollWrapper os) (world : os.World)
      → (os.epoll_ctl w.epoll op_add (Events.fd e) (Events.epoll_event e) world).0 ≡ ok tt
      → InSync kernel channel_fd w world
      → InSync kernel channel_fd
          (register (Events.fd e) id w)
          (os.epoll_ctl w.epoll op_add (Events.fd e) (Events.epoll_event e) world).1
  unfolding register
  registered-InSync e id w world done sync fd ev found =
      let listed = kernel.add_ok w.epoll (Events.fd e) (Events.epoll_event e) world fd done in
      elim (Bool-cases (Events.fd e == fd)) [
        | inl hit ↦ (
          ground (arith, listed, event_fd-epoll_event e),
          inl (id, ground (arith, subscriber_id-register (Events.fd e) fd id w)),
        )
        | inr miss ↦
            let before = sync fd ev (ground (arith, listed)) in
            (
              before.0,
              keep_route w (register (Events.fd e) id w) fd
                  (ground (arith, subscriber_id-register (Events.fd e) fd id w)) before.1,
            )
      ]

  unregistered-InSync :
      (fd : RawFd) (ev : os.EpollEvent) (w : EpollWrapper os) (world : os.World)
      → ((j : RawFd)
          → interest w.epoll (os.epoll_ctl w.epoll op_delete fd ev world).1 j
            ≡ (if fd == j then none else interest w.epoll world j))
      → InSync kernel channel_fd w world
      → InSync kernel channel_fd (remove_event fd w) (os.epoll_ctl w.epoll op_delete fd ev world).1
  unfolding remove_event
  unregistered-InSync fd ev w world gone sync j reg found =
      let before = sync j reg (ground (arith, gone j)) in
      (
        before.0,
        keep_route w (remove_event fd w) j
            (ground (arith, subscriber_id-remove_event fd j w, gone j)) before.1,
      )

  remove_fds-InSync :
      (fds : List RawFd) (c : Context os)
      → IsUnshared kernel c.epoll
      → InSync kernel channel_fd c.wrapper c.world
      → InSync kernel channel_fd (remove_fds fds c).wrapper (remove_fds fds c).world
  unfolding remove_fds remove_fd remove_event
  remove_fds-InSync [] c unshared sync = sync
  remove_fds-InSync (fd ∷ fds) c unshared sync = remove_fds-InSync fds (remove_fd fd c) unshared (
      unregistered-InSync fd os.event_default c.wrapper c.world
        (λ j. deleted kernel fd os.event_default c.wrapper c.world j unshared) sync)

  -- Where no closed descriptor is registered, removing a subscriber leaves every registration on the
  -- interest list routed to a subscriber or the channel's, if that was so before: the descriptors
  -- that it unroutes leave the list.
  pub remove-InSync :
      (id : SubscriberId) (c : Context os)
      → IsUnshared kernel c.epoll
      → InSync kernel channel_fd c.wrapper c.world
      → InSync kernel channel_fd (Epoll.remove id c).wrapper (Epoll.remove id c).world
  unfolding Epoll.remove subscriber_id
  remove-InSync id c unshared sync = remove_fds-InSync (watched c.wrapper id) _ unshared sync

  unwatched-InSync :
      (fd : RawFd) (id : SubscriberId) (w : EpollWrapper os) (world : os.World)
      → (unwatch fd id w).epoll ≡ w.epoll
      → InSync kernel channel_fd w world
      → InSync kernel channel_fd (unwatch fd id w) world
  unwatched-InSync fd id w world same sync j ev found =
      let before = sync j ev (rw same at found) in
      (before.0, keep_route w (unwatch fd id w) j (subscriber_id-unwatch fd j id w) before.1)

  add-InSync :
      (e : Events os) (self : EventOps os)
      → InSync kernel channel_fd self.wrapper self.world
      → InSync kernel channel_fd (EventOps.add e self).1.wrapper (EventOps.add e self).1.world
  add-InSync e self sync = elim (add_branches e self) [
    | inl (id, _, r) ↦ rw r sync
    | inr (inl (x, _, failed, r)) ↦ rw r (
        same-InSync self.wrapper self.world _
          (λ fd. kernel.ctl_err self.epoll op_add _ _ self.world x fd failed) sync)
    | inr (inr (_, done, r)) ↦
        rw r (registered-InSync e self.subscriber_id self.wrapper self.world done sync)
  ]

  remove-request-InSync :
      (e : Events os) (self : EventOps os)
      → InSync kernel channel_fd self.wrapper self.world
      → InSync kernel channel_fd (EventOps.remove e self).1.wrapper (EventOps.remove e self).1.world
  remove-request-InSync e self sync = elim (remove_branches e self) [
    | inl (x, failed, r) ↦ rw r (
        same-InSync self.wrapper self.world _
          (λ fd. kernel.ctl_err self.epoll op_delete _ _ self.world x fd failed) sync)
    | inr (done, r) ↦ rw r (
        unwatched-InSync (Events.fd e) self.subscriber_id _ _ (epoll-unwatch _ _ _) (
          unregistered-InSync (Events.fd e) _ self.wrapper self.world
            (λ j. kernel.delete_ok self.epoll _ _ self.world j done) sync))
  ]

  modified-InSync :
      (e : Events os) (w : EpollWrapper os) (world : os.World)
      → (os.epoll_ctl w.epoll op_modify (Events.fd e) (Events.epoll_event e) world).0 ≡ ok tt
      → InSync kernel channel_fd w world
      → InSync kernel channel_fd w
          (os.epoll_ctl w.epoll op_modify (Events.fd e) (Events.epoll_event e) world).1
  modified-InSync e w world done sync fd ev found =
      let ((old, registered), listed) =
        kernel.modify_ok w.epoll (Events.fd e) (Events.epoll_event e) world fd done in
      elim (Bool-cases (Events.fd e == fd)) [
        | inl hit ↦
            let route = (sync (Events.fd e) old registered).1 in
            (
              ground (arith, listed, event_fd-epoll_event e),
              subst (IsRouted channel_fd w) (ground arith) route,
            )
        | inr miss ↦ sync fd ev (ground (arith, listed))
      ]

  modify-InSync :
      (e : Events os) (self : EventOps os)
      → InSync kernel channel_fd self.wrapper self.world
      → InSync kernel channel_fd (EventOps.modify e self).1.wrapper (EventOps.modify e self).1.world
  unfolding EventOps.modify ctl
  modify-InSync e self sync = elim (Result-cases (answer op_modify e self)) [
    | inr (x, failed) ↦
        same-InSync self.wrapper self.world _
          (λ fd. kernel.ctl_err self.epoll op_modify _ _ self.world x fd failed) sync
    | inl (_, done) ↦ modified-InSync e self.wrapper self.world done sync
  ]

  -- A request of a subscriber, whether its system call succeeds or fails, leaves every registration
  -- on the interest list routed to a subscriber or the channel's, if that was so before.
  pub perform-InSync :
      (r : Request os) (self : EventOps os)
      → InSync kernel channel_fd self.wrapper self.world
      → InSync kernel channel_fd (perform r self).1.wrapper (perform r self).1.world
  unfolding perform
  perform-InSync (adds e) self sync = add-InSync e self sync
  perform-InSync (modifies e) self sync = modify-InSync e self sync
  perform-InSync (removes e) self sync = remove-request-InSync e self sync
