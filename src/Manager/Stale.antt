-- ===== src/Manager/Stale.antt =====
-- A registration that `remove_subscriber` could not delete: `EpollWrapper::remove` ignores the error of
-- the kernel, and `dispatch_events` meets the event of a descriptor that it knows no more.
use event_manager.Prelude.{
  ℕ, suc, ◌≡◌, ◌∙◌, refl, ap, none, some, ok, false, panicked, arith, get_elem?, ◌==◌,
}
use event_manager.Os.{Os, RawFd}
use event_manager.Epoll
use event_manager.Epoll.{SubscriberId, subscriber_id}
use event_manager.Epoll.Buffer.{is_discarded}
use event_manager.Epoll.Dispatch.{subscriber_id-remove}
use event_manager.Endpoint
use event_manager.Handler.{MutEventSubscriber}
use event_manager.Manager.{Machine, context, remove_subscriber}
use event_manager.Manager.Cases.{remove_subscriber_cases}
use event_manager.Manager.Loop
use event_manager.Manager.Noticed.{polled}
use event_manager.Manager.Wellformed.{IsWellformed}

module _ {os : Os} {S R : Type 0} (id : SubscriberId) (fd : RawFd) (m : Machine os S R) where
  remove_subscriber-unroutes :
      IsWellformed m
      → subscriber_id m.epoll_context fd ≡ some id
      → subscriber_id (remove_subscriber id m).1.epoll_context fd ≡ none
  remove_subscriber-unroutes wf routed =
      remove_subscriber_cases id m (λ left. subscriber_id left.1.epoll_context fd ≡ none)
        (λ missing. absurd (ground (arith, missing, wf.live fd id routed)))
        (λ t found.
          ground (arith, subscriber_id-remove id (context m) fd, wf.consistent fd id routed))

  remove_subscriber-same_fd : Endpoint.fd (remove_subscriber id m).1.channel ≡ Endpoint.fd m.channel
  remove_subscriber-same_fd =
      remove_subscriber_cases id m (λ left. Endpoint.fd left.1.channel ≡ Endpoint.fd m.channel)
        (λ _. refl) (λ _ _. refl)

module _ {os : Os} {S R : Type 0} ⦃sub : MutEventSubscriber os S R S⦄ where
  unrouted_panics :
      (n : ℕ) (ev : os.EpollEvent) (m : Machine os S R)
      → get_elem? m.epoll_context.ready_events 0 ≡ some ev
      → is_discarded os ev ≡ false
      → subscriber_id m.epoll_context (os.event_fd ev) ≡ none
      → (os.event_fd ev == Endpoint.fd m.channel) ≡ false
      → Loop.dispatch_from (suc n) 0 none m ≡ panicked
  unfolding Loop.dispatch_from Loop.dispatch_event
  unrouted_panics n ev m queued kept unrouted other =
      rw (queued, Loop.dispatch_from) (rw (kept, unrouted, other, Loop.dispatch_event))

  -- In a well-formed manager, remove a subscriber to which a descriptor other than the channel's is
  -- routed. If the next wait still reports an event that is not discarded for this descriptor, and no
  -- other before it, then that turn of the event loop panics.
  pub run_with_timeout-panics :
      (fuel ms n : ℕ) (id : SubscriberId) (fd : RawFd) (ev : os.EpollEvent) (m : Machine os S R)
      → IsWellformed m
      → subscriber_id m.epoll_context fd ≡ some id
      → (fd == Endpoint.fd m.channel) ≡ false
      → (Epoll.poll ms (context (remove_subscriber id m).1)).0 ≡ ok (suc n)
      → get_elem? (polled ms (remove_subscriber id m).1).epoll_context.ready_events 0 ≡ some ev
      → is_discarded os ev ≡ false
      → os.event_fd ev ≡ fd
      → Loop.run_with_timeout fuel ms (remove_subscriber id m).1 ≡ panicked
  unfolding Loop.run_with_timeout Loop.dispatch_events Epoll.poll subscriber_id
  run_with_timeout-panics fuel ms n id fd ev m wf routed other waited queued kept is_fd =
      let left = (remove_subscriber id m).1 in
      let unrouted =
        ap (subscriber_id left.epoll_context) is_fd
        ∙ remove_subscriber-unroutes id fd m wf routed in
      let not_channel =
        ap (λ x. x == Endpoint.fd left.channel) is_fd
        ∙ ap (λ x. fd == x) (remove_subscriber-same_fd id fd m)
        ∙ other in
      let loop : Loop.dispatch_from (suc n) 0 none (polled ms left) ≡ panicked =
        unrouted_panics n ev (polled ms left) queued kept unrouted not_channel in
      rw (waited, Loop.run_with_timeout) (rw (loop, Loop.dispatch_events) refl)
