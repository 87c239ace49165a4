-- ===== src/Manager/Found.antt =====
-- The loop over the events of a turn in which the wait has reported the channel's descriptor.
use event_manager.Prelude.{
  ℕ, zero, suc, ◌+◌, ◌≡◌, refl, sym, ap, ◌∙◌, true, false, none, some, Option, Ensures, Ensures-and,
  Ensures-bind, Ensures-true, arith, subst, get_elem?, Option-cases, Bool-cases, inl, inr, is_some,
  ◌==◌,
}
use event_manager.Os.{Os}
use event_manager.Epoll.{subscriber_id}
use event_manager.Epoll.Buffer.{is_discarded}
use event_manager.Endpoint
use event_manager.Endpoint.{FnMsg}
use event_manager.Handler.{MutEventSubscriber}
use event_manager.Handler.Rules.{Extends}
use event_manager.Manager.{Machine}
use event_manager.Manager.Loop
use event_manager.Manager.Deferred.{dispatch_from-Extends}
use event_manager.Manager.Awaited.{AllSpare, Waits}
use event_manager.Manager.HandedOver.{dispatch_from-split, dispatch_from-Waits}

module _ {os : Os} {S R : Type 0} ⦃sub : MutEventSubscriber os S R S⦄ where
  -- An endpoint event that has been found stays found.
  dispatch_event-is_some :
      (ev : os.EpollEvent) (found : os.EpollEvent) (m : Machine os S R)
      → Ensures (λ left. is_some left.0 ≡ true) (Loop.dispatch_event ev (some found) m)
  unfolding Loop.dispatch_event
  dispatch_event-is_some ev found m = elim (Bool-cases (is_discarded os ev)) [
    | inl gone ↦ rw (gone, Loop.dispatch_event) refl
    | inr kept ↦ elim (Option-cases (subscriber_id m.epoll_context (os.event_fd ev))) [
      | inr (id, routed) ↦
          rw (kept, routed, Loop.dispatch_event)
            (Ensures-bind (λ _. Unit) _ (Loop.process_event id ev m) _
              (Ensures-true (Loop.process_event id ev m)) (λ left p. refl))
      | inl unrouted ↦ elim (Bool-cases (os.event_fd ev == Endpoint.fd m.channel)) [
        | inl channel ↦ rw (kept, unrouted, channel, Loop.dispatch_event) refl
        | inr other ↦ rw (kept, unrouted, other, Loop.dispatch_event) tt
      ]
    ]
  ]

  dispatch_from-is_some :
      (rounds ev_index : ℕ) (e : Option os.EpollEvent) (m : Machine os S R)
      → is_some e ≡ true
      → Ensures (λ left. is_some left.0 ≡ true) (Loop.dispatch_from rounds ev_index e m)
  unfolding Loop.dispatch_from
  dispatch_from-is_some rounds ev_index none m found = cc
  dispatch_from-is_some zero ev_index (some e) m found = refl
  dispatch_from-is_some (suc rounds) ev_index (some e) m found =
      elim (Option-cases (get_elem? m.epoll_context.ready_events ev_index)) [
        | inl missing ↦ rw (missing, Loop.dispatch_from) tt
        | inr (ev, queued) ↦
            rw (queued, Loop.dispatch_from)
              (Ensures-bind (λ left. is_some left.0 ≡ true) _ (Loop.dispatch_event ev (some e) m) _
                (dispatch_event-is_some ev e m)
                (λ left p. dispatch_from-is_some rounds (ev_index + 1) left.0 left.1 p))
      ]

  -- The round of the channel's event finds it.
  round-is_some :
      (k j : ℕ) (ev : os.EpollEvent) (e : Option os.EpollEvent) (m : Machine os S R)
      → Waits j ev none m.epoll_context
      → is_discarded os ev ≡ false
      → os.event_fd ev ≡ Endpoint.fd m.channel
      → Ensures (λ left. is_some left.0 ≡ true) (Loop.dispatch_from (suc k) j e m)
  unfolding Loop.dispatch_from Loop.dispatch_event
  round-is_some k j ev e m waits kept is_fd =
      let same : (os.event_fd ev == Endpoint.fd m.channel) ≡ true = ground arith in
      rw (waits.queued, Loop.dispatch_from)
        (rw (kept, waits.routed, same, Loop.dispatch_event)
          (dispatch_from-is_some k (j + 1) (some ev) m refl))

  -- So the loop finds it, whatever is done for the events before and after it.
  pub found_at :
      (i k : ℕ) (ev : os.EpollEvent) (m : Machine os S R)
      → AllSpare none (os.event_fd ev) sub
      → Waits i ev none m.epoll_context
      → is_discarded os ev ≡ false
      → os.event_fd ev ≡ Endpoint.fd m.channel
      → Ensures (λ left. is_some left.0 ≡ true) (Loop.dispatch_from (i + suc k) 0 none m)
  unfolding Endpoint.fd
  found_at i k ev m spare waits kept is_fd =
      let start : i ≡ 0 + i = omega arith in
      rw (dispatch_from-split i (suc k) (i + suc k) 0 none m refl) (
        Ensures-bind
          (λ left. Waits i ev none left.1.epoll_context × Extends m.channel left.1.channel)
          (λ left. is_some left.0 ≡ true) (Loop.dispatch_from i 0 none m) _
          (Ensures-and _ _ (Loop.dispatch_from i 0 none m)
            (dispatch_from-Waits i ev none i m spare waits) (dispatch_from-Extends i 0 none m))
          (λ left p.
            subst
              (λ j. Ensures (λ l. is_some l.0 ≡ true) (Loop.dispatch_from (suc k) j left.0 left.1))
              start
              (round-is_some k i ev left.0 left.1 p.0 kept
                (is_fd ∙ ap os.eventfd_raw (sym p.1.same_fd)))))
