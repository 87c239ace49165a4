-- ===== src/Manager/Rules.antt =====
-- Rules for the event loop, for a property of the manager that its parts keep.
use event_manager.Prelude.{
  ℕ, zero, suc, ◌+◌, ◌≡◌, Option, none, some, ◌∷◌, List, Ensures, Ensures-bind, Option-cases,
  Bool-cases, Result-cases, List-cases, inl, inr, ◌==◌, get_elem?,
}
use event_manager.Prelude.HashMap
use event_manager.Os.{Os}
use event_manager.Epoll
use event_manager.Epoll.{SubscriberId, subscriber_id}
use event_manager.Epoll.Buffer.{is_discarded}
use event_manager.Events.{with_inner}
use event_manager.Subscribers
use event_manager.Endpoint
use event_manager.EventOps.{Request}
use event_manager.Endpoint.{Closure, FnMsg, reply_to}
use event_manager.Handler.{MutEventSubscriber, run_handler}
use event_manager.Manager.{
  remove_subscriber, subscriber_mut, event_ops_request, send_message, Machine, context,
  with_context, with_channel, scope, after_handler,
}
use event_manager.Manager.Loop

module _ {os : Os} {S R : Type 0} ⦃sub : MutEventSubscriber os S R S⦄
    (Inv : Machine os S R → Type 0)
    (processed : (t : S) (event : os.EpollEvent) (id : SubscriberId) (m : Machine os S R)
      → HashMap.get m.subscribers.subscribers id ≡ some t
      → Inv m
      → Ensures
          (λ left. Inv (after_handler m id left))
          (run_handler (sub.process t (with_inner event)) (scope m id))) where
  process_event-Ensures :
      (id : SubscriberId) (event : os.EpollEvent) (m : Machine os S R)
      → Inv m
      → Ensures Inv (Loop.process_event id event m)
  unfolding Loop.process_event Subscribers.get_mut_unchecked
  process_event-Ensures id event m inv =
      elim (Option-cases (HashMap.get m.subscribers.subscribers id)) [
        | inl missing ↦ rw (missing, Loop.process_event) tt
        | inr (t, found) ↦
            rw (found, Loop.process_event)
              (Ensures-bind (λ left. Inv (after_handler m id left)) Inv
                (run_handler (sub.process t (with_inner event)) (scope m id)) _
                (processed t event id m found inv) (λ left p. p))
      ]

  dispatch_event-Ensures :
      (event : os.EpollEvent) (endpoint_event : Option os.EpollEvent) (m : Machine os S R)
      → Inv m
      → Ensures (λ left. Inv left.1) (Loop.dispatch_event event endpoint_event m)
  unfolding Loop.dispatch_event
  dispatch_event-Ensures event endpoint_event m inv = elim (Bool-cases (is_discarded os event)) [
    | inl gone ↦ rw (gone, Loop.dispatch_event) inv
    | inr kept ↦ elim (Option-cases (subscriber_id m.epoll_context (os.event_fd event))) [
      | inr (id, routed) ↦
          rw (kept, routed, Loop.dispatch_event)
            (Ensures-bind Inv (λ left. Inv left.1) (Loop.process_event id event m) _
              (process_event-Ensures id event m inv) (λ left p. p))
      | inl unrouted ↦ elim (Bool-cases (os.event_fd event == Endpoint.fd m.channel)) [
        | inl channel ↦ rw (kept, unrouted, channel, Loop.dispatch_event) inv
        | inr other ↦ rw (kept, unrouted, other, Loop.dispatch_event) tt
      ]
    ]
  ]

  -- What every run of `process` keeps, the loop of `dispatch_events` keeps.
  pub dispatch_from-Ensures :
      (rounds ev_index : ℕ) (endpoint_event : Option os.EpollEvent) (m : Machine os S R)
      → Inv m
      → Ensures (λ left. Inv left.1) (Loop.dispatch_from rounds ev_index endpoint_event m)
  unfolding Loop.dispatch_from
  dispatch_from-Ensures zero ev_index endpoint_event m inv = inv
  dispatch_from-Ensures (suc rounds) ev_index endpoint_event m inv =
      elim (Option-cases (get_elem? m.epoll_context.ready_events ev_index)) [
        | inl missing ↦ rw (missing, Loop.dispatch_from) tt
        | inr (event, found) ↦
            rw (found, Loop.dispatch_from)
              (Ensures-bind (λ left. Inv left.1) (λ left. Inv left.1)
                (Loop.dispatch_event event endpoint_event m) _
                (dispatch_event-Ensures event endpoint_event m inv)
                (λ left p. dispatch_from-Ensures rounds (ev_index + 1) left.0 left.1 p))
      ]

  module _
      (called : (msg : FnMsg os S R) (rest : List (FnMsg os S R)) (m : Machine os S R)
        → m.channel.messages ≡ msg ∷ rest
        → Inv m
        → Ensures
            (λ left. Inv (with_channel left.1 (reply_to msg.sender left.0 left.1.channel)))
            (Loop.run_closure msg.fnbox (with_channel m (record (m.channel) { messages = rest }))))
      (drained : (m : Machine os S R)
        → Inv m
        → Inv (record m { world = (os.eventfd_read m.channel.event_fd m.world).1 })) where
    receive_all-Ensures :
        (fuel : ℕ) (m : Machine os S R) → Inv m → Ensures Inv (Loop.receive_all fuel m)
    unfolding Loop.receive_all
    receive_all-Ensures zero m inv = tt
    receive_all-Ensures (suc fuel) m inv = elim (List-cases m.channel.messages) [
      | inl empty ↦ rw (empty, Loop.receive_all) inv
      | inr (msg, rest, queued) ↦
          rw (queued, Loop.receive_all)
            (Ensures-bind
              (λ left. Inv (with_channel left.1 (reply_to msg.sender left.0 left.1.channel))) Inv
              (Loop.run_closure msg.fnbox _) _ (called msg rest m queued inv)
              (λ left p. receive_all-Ensures fuel _ p))
    ]

    endpoint_event-Ensures :
        (fuel : ℕ) (endpoint_event : Option os.EpollEvent) (m : Machine os S R)
        → Inv m
        → Ensures Inv (Loop.dispatch_endpoint_event fuel endpoint_event m)
    unfolding Loop.dispatch_endpoint_event Loop.handle_endpoint_calls
    endpoint_event-Ensures fuel none m inv = inv
    endpoint_event-Ensures fuel (some event) m inv =
        elim (Bool-cases (os.event_set event == os.set_in)) [
          | inl input ↦
              rw (input, Loop.dispatch_endpoint_event) (receive_all-Ensures fuel _ (drained m inv))
          | inr other ↦ rw (other, Loop.dispatch_endpoint_event) tt
        ]

    -- What every remote closure keeps as well, `dispatch_events` keeps.
    pub dispatch_events-Ensures :
        (fuel event_count : ℕ) (m : Machine os S R)
        → Inv m
        → Ensures Inv (Loop.dispatch_events fuel event_count m)
    unfolding Loop.dispatch_events
    dispatch_events-Ensures fuel event_count m inv =
        Ensures-bind (λ left. Inv left.1) Inv (Loop.dispatch_from event_count 0 none m) _
          (dispatch_from-Ensures event_count 0 none m inv)
          (λ left p. endpoint_event-Ensures fuel left.0 left.1 p)

    pub run_with_timeout-Ensures :
        (fuel milliseconds : ℕ) (m : Machine os S R)
        → Inv (with_context m (Epoll.poll milliseconds (context m)).1)
        → Ensures (λ left. Inv left.1) (Loop.run_with_timeout fuel milliseconds m)
    unfolding Loop.run_with_timeout
    run_with_timeout-Ensures fuel milliseconds m inv =
        elim (Result-cases (Epoll.poll milliseconds (context m)).0) [
          | inl (event_count, polled) ↦
              rw (polled, Loop.run_with_timeout)
                (Ensures-bind Inv (λ left. Inv left.1) (Loop.dispatch_events fuel event_count _) _
                  (dispatch_events-Ensures fuel event_count _ inv) (λ left p. p))
          | inr (e, failed) ↦ rw (failed, Loop.run_with_timeout) inv
        ]

-- What each call of `SubscriberOps`, each message and each effect keeps, a remote closure keeps.
module _ {os : Os} {S R : Type 0} ⦃sub : MutEventSubscriber os S R S⦄
    (Inv : Machine os S R → Type 0)
    (adds : (t : S) (m : Machine os S R)
      → Inv m
      → Ensures (λ left. Inv left.1) (Loop.add_subscriber t m))
    (removes : (id : SubscriberId) (m : Machine os S R) → Inv m → Inv (remove_subscriber id m).1)
    (changes : (id : SubscriberId) (change : S → S) (m : Machine os S R)
      → Inv m
      → Ensures (λ left. Inv left.1) (subscriber_mut id change m))
    (requests : (id : SubscriberId) (r : Request os) (m : Machine os S R)
      → Inv m
      → Inv (event_ops_request id r m).1)
    (sends : (msg : FnMsg os S R) (m : Machine os S R) → Inv m → Inv (send_message msg m).1)
    (elsewhere : (m : Machine os S R) (world : os.World)
      → Inv m
      → Inv (record m { world = world })) where
  pub run_closure-Ensures :
      (c : Closure os S R) (m : Machine os S R)
      → Inv m
      → Ensures (λ left. Inv left.1) (Loop.run_closure c m)
  unfolding Loop.run_closure
  run_closure-Ensures (Closure.done r) m inv = inv
  run_closure-Ensures Closure.panics m inv = tt
  run_closure-Ensures (Closure.add_subscriber t k) m inv =
      Ensures-bind (λ left. Inv left.1) _ (Loop.add_subscriber t m) _ (adds t m inv)
        (λ left p. run_closure-Ensures (k left.0) left.1 p)
  run_closure-Ensures (Closure.remove_subscriber id k) m inv =
      run_closure-Ensures (k _) _ (removes id m inv)
  run_closure-Ensures (Closure.subscriber_mut id change k) m inv =
      Ensures-bind (λ left. Inv left.1) _ (subscriber_mut id change m) _ (changes id change m inv)
        (λ left p. run_closure-Ensures (k left.0) left.1 p)
  run_closure-Ensures (Closure.event_ops id r k) m inv =
      run_closure-Ensures (k _) _ (requests id r m inv)
  run_closure-Ensures (Closure.send f reply k) m inv = run_closure-Ensures (k _) _ (sends _ m inv)
  run_closure-Ensures (Closure.effect change k) m inv =
      run_closure-Ensures (k m.world) _ (elsewhere m _ inv)
