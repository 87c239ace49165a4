-- ===== src/Utilities/Reuse.antt =====
-- A subscriber that removes its descriptors and registers them again while its events are processed.
use event_manager.Prelude.{
  if_true, if_both, subst, Ensures-map, ◌≡◌, ◌⊎◌, inl, inr, refl, ◌∙◌, sym, ap, true, false, some,
  List, [], ◌∷◌, ok, Ensures, arith, contains, ◌==◌, Bool-cases,
}
use event_manager.Os.{Os, RawFd}
use event_manager.Events
use event_manager.Events.{Events}
use event_manager.Epoll.{SubscriberId, subscriber_id}
use event_manager.Epoll.Flushed.{IsFlushed}
use event_manager.EventOps
use event_manager.EventOps.{EventOps, Request, adds, removes, perform, register}
use event_manager.EventOps.Succeeded.{subscriber_id-add}
use event_manager.EventOps.Flushed.{added-IsFlushed, removed-IsFlushed, removed_other-IsFlushed}
use event_manager.Handler.{Handler, Scope, run_handler}
use event_manager.Manager.Wellformed.{perform-own}
use event_manager.Utilities.Expect.{expect_step}
use event_manager.Utilities.{
  CounterSubscriberWithData, expect_all, events_with_data, match_with_data, process_with_data,
}

module _ {os : Os} where
  -- A successful `add` routes its descriptor to the subscriber, and keeps the other routes.
  add-routes :
      (e : Events os) (self : EventOps os) (fd : RawFd)
      → (EventOps.add e self).0 ≡ ok tt
      → (subscriber_id self.wrapper fd ≡ some self.subscriber_id) ⊎ ((Events.fd e == fd) ≡ true)
      → subscriber_id (EventOps.add e self).1.wrapper fd ≡ some self.subscriber_id
  add-routes e self fd added before = ground (arith, subscriber_id-add e self fd added, before)

  -- The descriptors of some events.
  abbrev pub fds : List (Events os) → List RawFd
  fds [] = []
  fds (e ∷ es) = Events.fd e ∷ fds es

module _ {os : Os} (fd : RawFd) (e : Events os) (es : List (Events os)) (self : EventOps os) where
  next-IsFlushed : IsFlushed os fd self.wrapper → IsFlushed os fd (perform (adds e) self).1.wrapper
  unfolding perform
  next-IsFlushed flushed = added-IsFlushed e self fd flushed

  added_next :
      (own : SubscriberId)
      → self.subscriber_id ≡ own
      → (subscriber_id self.wrapper fd ≡ some own) ⊎ (contains (fds (e ∷ es)) fd ≡ true)
      → (perform (adds e) self).0 ≡ ok tt
      → (subscriber_id (perform (adds e) self).1.wrapper fd ≡ some own)
        ⊎ (contains (fds es) fd ≡ true)
  unfolding perform
  added_next own is_own before added = elim (Bool-cases (Events.fd e == fd)) [
    | inl hit ↦ inl (add-routes e self fd added (inr hit) ∙ ap some is_own)
    | inr miss ↦ elim before [
      | inl routed ↦
          inl (add-routes e self fd added (inl (routed ∙ ap some (sym is_own))) ∙ ap some is_own)
      | inr listed ↦ inr (ground arith)
    ]
  ]

  removed_next :
      IsFlushed os fd self.wrapper ⊎ (contains (fds (e ∷ es)) fd ≡ true)
      → (perform (removes e) self).0 ≡ ok tt
      → IsFlushed os fd (perform (removes e) self).1.wrapper ⊎ (contains (fds es) fd ≡ true)
  unfolding perform
  removed_next before removed = elim (Bool-cases (Events.fd e == fd)) [
    | inl hit ↦ inl (
        subst (λ j. IsFlushed os j (EventOps.remove e self).1.wrapper) (ground arith)
          (removed-IsFlushed e self removed))
    | inr miss ↦ elim before [
      | inl flushed ↦ inl (removed_other-IsFlushed e self fd flushed)
      | inr listed ↦ inr (ground arith)
    ]
  ]

module _ {os : Os} {S R A : Type 0} (Q : A × Scope os S R → Type 0) (fd : RawFd)
    (h : Handler os S R A) where
  -- What the body that follows may rely on: the descriptor is routed to the subscriber, and its
  -- buffered events are discarded.
  abbrev Follows : SubscriberId → Type 0
  Follows own =
      (self : Scope os S R)
      → self.subscriber_id ≡ own
      → subscriber_id self.wrapper fd ≡ some own
      → IsFlushed os fd self.wrapper
      → Ensures Q (run_handler h self)

  pub adds-Ensures :
      (es : List (Events os)) (self : Scope os S R) (own : SubscriberId)
      → self.subscriber_id ≡ own
      → (subscriber_id self.wrapper fd ≡ some own) ⊎ (contains (fds es) fd ≡ true)
      → IsFlushed os fd self.wrapper
      → Follows own
      → Ensures Q (run_handler (expect_all adds es h) self)
  unfolding expect_all
  adds-Ensures [] self own is_own (inl routed) flushed k = k self is_own routed flushed
  adds-Ensures [] self own is_own (inr listed) flushed k = absurd (ground arith)
  adds-Ensures (e ∷ es) self own is_own before flushed k = expect_step Q adds e es h self (λ added.
      adds-Ensures es _ own (perform-own (adds e) self.ops ∙ is_own)
        (added_next fd e es self.ops own is_own before added)
        (next-IsFlushed fd e es self.ops flushed) k)

  pub removes-Ensures :
      (es : List (Events os)) (self : Scope os S R) (own : SubscriberId)
      → self.subscriber_id ≡ own
      → (IsFlushed os fd self.wrapper) ⊎ (contains (fds es) fd ≡ true)
      → ((self' : Scope os S R)
          → self'.subscriber_id ≡ own
          → IsFlushed os fd self'.wrapper
          → Ensures Q (run_handler h self'))
      → Ensures Q (run_handler (expect_all removes es h) self)
  unfolding expect_all
  removes-Ensures [] self own is_own (inl flushed) k = k self is_own flushed
  removes-Ensures [] self own is_own (inr listed) k = absurd (ground arith)
  removes-Ensures (e ∷ es) self own is_own before k = expect_step Q removes e es h self (λ removed.
      removes-Ensures es _ own (perform-own (removes e) self.ops ∙ is_own)
        (removed_next fd e es self.ops before removed) k)

module _ {os : Os} {S R : Type 0} where
  -- The `match` on the events leaves the scope alone, or panics.
  match_with_data-Ensures :
      (s : CounterSubscriberWithData os) (events : Events os) (self : Scope os S R)
      → Ensures (λ left. left.1 ≡ self) (run_handler (match_with_data s events) self)
  unfolding match_with_data run_handler
  match_with_data-Ensures s events self =
      if_both Leaves (Events.event_set events == os.set_in) _ _ refl (
        if_both Leaves (Events.event_set events == os.set_error) _ _ refl (
          if_both Leaves (Events.event_set events == os.set_hang_up) _ _
            (expect_step (λ left. left.1 ≡ self) removes events [] Handler.panics self (λ _. tt))
            refl))
    where
      Leaves : Handler os S R (CounterSubscriberWithData os) → Type 0
      Leaves h = Ensures (λ left. left.1 ≡ self) (run_handler h self)

  -- If the body of a subscriber whose registry is to be toggled returns, then each of its descriptors
  -- is routed to it again, and every event that the buffer holds for one of them is a discarded one.
  pub process_with_data-reuses :
      (s : CounterSubscriberWithData os) (events : Events os) (self : Scope os S R) (fd : RawFd)
      → s.toggle_registry ≡ true
      → contains (fds (events_with_data s)) fd ≡ true
      → Ensures
          (λ left.
            (subscriber_id left.1.wrapper fd ≡ some self.subscriber_id)
            × IsFlushed os fd left.1.wrapper)
          (run_handler (process_with_data s events) self)
  unfolding process_with_data events_with_data
  process_with_data-reuses s events self fd on listed =
      let Q : CounterSubscriberWithData os × Scope os S R → Type 0 = λ left.
        (subscriber_id left.1.wrapper fd ≡ some self.subscriber_id)
        × IsFlushed os fd left.1.wrapper in
      let s' = record s { toggle_registry = false } in
      let h = match_with_data s' events in
      subst (λ body. Ensures Q (run_handler body self))
        (sym (if_true s.toggle_registry _ (match_with_data s events) on))
        (removes-Ensures Q fd (expect_all adds (events_with_data s') h) (events_with_data s') self
          self.subscriber_id refl (inr listed)
          (λ removed own flushed.
            adds-Ensures Q fd h (events_with_data s') removed self.subscriber_id own (inr listed)
              flushed
              (λ added own' routed flushed'.
                Ensures-map (λ left. left.1 ≡ added) Q (run_handler h added)
                  (λ left same. (
                    subst (λ sc. subscriber_id sc.wrapper fd ≡ some self.subscriber_id) (sym same)
                        routed,
                    subst (λ sc. IsFlushed os fd sc.wrapper) (sym same) flushed',
                  ))
                  (match_with_data-Ensures s' events added))))
