-- ===== src/EventOps/Succeeded.antt =====
-- The routes after a request that has succeeded.
use event_manager.Prelude.{◌≡◌, refl, some, none, ok, arith, ◌==◌, if◌then◌else◌, inl, inr}
use event_manager.Os.{Os, RawFd}
use event_manager.Events
use event_manager.Events.{Events}
use event_manager.Epoll.{subscriber_id}
use event_manager.EventOps
use event_manager.EventOps.{EventOps, register, unwatch, ctl}
use event_manager.EventOps.Routing.{subscriber_id-register}
use event_manager.EventOps.Consistent.{subscriber_id-unregister}
use event_manager.EventOps.Branches.{add_branches, remove_branches}

module _ {os : Os} where
  pub subscriber_id-add :
      (e : Events os) (self : EventOps os) (j : RawFd)
      → (EventOps.add e self).0 ≡ ok tt
      → subscriber_id (EventOps.add e self).1.wrapper j
        ≡ (if Events.fd e == j then some self.subscriber_id else subscriber_id self.wrapper j)
  subscriber_id-add e self j added = elim (add_branches e self) [
    | inl (id, _, r) ↦ absurd (ground arith)
    | inr (inl (x, _, _, r)) ↦ absurd (ground arith)
    | inr (inr (free, _, r)) ↦
        rw r (subscriber_id-register (Events.fd e) j self.subscriber_id self.wrapper)
  ]

  pub subscriber_id-remove_request :
      (e : Events os) (self : EventOps os) (j : RawFd)
      → (EventOps.remove e self).0 ≡ ok tt
      → subscriber_id (EventOps.remove e self).1.wrapper j
        ≡ (if Events.fd e == j then none else subscriber_id self.wrapper j)
  subscriber_id-remove_request e self j removed = elim (remove_branches e self) [
    | inl (x, _, r) ↦ absurd (ground arith)
    | inr (_, r) ↦ rw r (subscriber_id-unregister (Events.fd e) self.subscriber_id self.wrapper j)
  ]

  pub subscriber_id-modify :
      (e : Events os) (self : EventOps os) (j : RawFd)
      → subscriber_id (EventOps.modify e self).1.wrapper j ≡ subscriber_id self.wrapper j
  unfolding EventOps.modify ctl subscriber_id
  subscriber_id-modify e self j = refl
