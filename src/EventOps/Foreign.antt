-- ===== src/EventOps/Foreign.antt =====
-- `remove` on a descriptor of another subscriber.
use event_manager.Prelude.{
  ◌≡◌, true, false, none, some, ok, arith, contains, ◌==◌, contains-append_self, inl, inr,
}
use event_manager.Os.{Os}
use event_manager.Events
use event_manager.Events.{Events}
use event_manager.Epoll
use event_manager.Epoll.{SubscriberId, EpollWrapper, Context, watched, subscriber_id, remove_event}
use event_manager.Epoll.Dispatch.{subscriber_id-remove, watched-remove_event}
use event_manager.Epoll.Consistent.{IsConsistent}
use event_manager.EventOps.{EventOps, add, remove, ops_unchecked}
use event_manager.EventOps.Routing.{watched-unwatch, watched-register, subscriber_id-register}
use event_manager.EventOps.Consistent.{subscriber_id-unregister}
use event_manager.EventOps.Branches.{add_branches, remove_branches}

module _ {os : Os} where
  -- The owner's list still names the descriptor after somebody else has removed it.
  remove_stale :
      (e : Events os) (self : EventOps os) (owner : SubscriberId)
      → (self.subscriber_id == owner) ≡ false
      → subscriber_id self.wrapper (Events.fd e) ≡ some owner
      → IsConsistent os self.wrapper
      → (remove e self).0 ≡ ok tt
      → (subscriber_id (remove e self).1.wrapper (Events.fd e) ≡ none)
        × (contains (watched (remove e self).1.wrapper owner) (Events.fd e) ≡ true)
  remove_stale e self owner foreign owned consistent removed = elim (remove_branches e self) [
    | inl (x, _, r) ↦ absurd (ground arith)
    | inr (_, r) ↦
        let fd = Events.fd e in
        rw r (
          ground (arith, subscriber_id-unregister fd self.subscriber_id self.wrapper fd),
          ground (
            arith,
            watched-unwatch fd self.subscriber_id owner (remove_event fd self.wrapper),
            watched-remove_event fd self.wrapper owner,
            consistent fd owner,
          ),
        )
  ]

  add_keeps_stale :
      (e : Events os) (self : EventOps os) (owner : SubscriberId)
      → contains (watched self.wrapper owner) (Events.fd e) ≡ true
      → (add e self).0 ≡ ok tt
      → (subscriber_id (add e self).1.wrapper (Events.fd e) ≡ some self.subscriber_id)
        × (contains (watched (add e self).1.wrapper owner) (Events.fd e) ≡ true)
  add_keeps_stale e self owner stale added = elim (add_branches e self) [
    | inl (id, _, r) ↦ absurd (ground arith)
    | inr (inl (x, _, _, r)) ↦ absurd (ground arith)
    | inr (inr (free, _, r)) ↦
        let fd = Events.fd e in
        rw r (
          ground (arith, subscriber_id-register fd fd self.subscriber_id self.wrapper),
          ground (
            arith,
            watched-register fd self.subscriber_id owner self.wrapper,
            contains-append_self (watched self.wrapper self.subscriber_id) fd,
          ),
        )
  ]

  -- A subscriber that is not the owner of a descriptor removes it, and a third one registers it,
  -- both with success. Then the descriptor is routed to the third subscriber, and when the former
  -- owner is removed from the manager, the descriptor is routed to nobody.
  pub foreign_remove :
      (e e' : Events os) (self : EventOps os) (owner third : SubscriberId)
      → (self.subscriber_id == owner) ≡ false
      → Events.fd e' ≡ Events.fd e
      → subscriber_id self.wrapper (Events.fd e) ≡ some owner
      → IsConsistent os self.wrapper
      → (remove e self).0 ≡ ok tt
      → (add e' (ops_unchecked (remove e self).1.context third)).0 ≡ ok tt
      → (subscriber_id
            (add e' (ops_unchecked (remove e self).1.context third)).1.wrapper
            (Events.fd e)
          ≡ some third)
        × (subscriber_id
              (Epoll.remove owner
                (add e' (ops_unchecked (remove e self).1.context third)).1.context).wrapper
              (Events.fd e)
            ≡ none)
  unfolding ops_unchecked
  foreign_remove e e' self owner third foreign same owned consistent removed added =
      let ops = ops_unchecked (remove e self).1.context third in
      let stale = (remove_stale e self owner foreign owned consistent removed).1 in
      let left = add_keeps_stale e' ops owner (rw same stale) added in
      (
        rw⁻¹ same (left.0),
        ground (arith, subscriber_id-remove owner (add e' ops).1.context (Events.fd e), left.1),
      )
