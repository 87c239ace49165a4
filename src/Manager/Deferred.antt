-- ===== src/Manager/Deferred.antt =====
-- The channel while the subscribers' events are handled.
use event_manager.Prelude.{ℕ, Option, Ensures, Ensures-true, Ensures-bind, Ensures-map}
use event_manager.Os.{Os}
use event_manager.EventOps.{Request}
use event_manager.Epoll.{SubscriberId}
use event_manager.Events.{with_inner}
use event_manager.Subscribers
use event_manager.Endpoint.{Closure, FnMsg}
use event_manager.Handler.{MutEventSubscriber, run_handler}
use event_manager.Handler.Rules.{
  Extends, Extends-refl, Extends-trans, send_msg-Extends, run_handler-Extends,
}
use event_manager.Manager.Cases.{
  remove_subscriber_cases, subscriber_mut-Ensures, event_ops_request_cases,
}
use event_manager.Manager.{
  Machine, with_subscribers, scope, remove_subscriber, subscriber_mut, event_ops_request,
  send_message,
}
use event_manager.Manager.Loop
use event_manager.Manager.Rules.{run_closure-Ensures, dispatch_from-Ensures}

module _ {os : Os} {S R : Type 0} where
  remove_subscriber-Extends :
      (id : SubscriberId) (m : Machine os S R)
      → Extends m.channel (remove_subscriber id m).1.channel
  remove_subscriber-Extends id m =
      remove_subscriber_cases id m (λ left. Extends m.channel left.1.channel)
        (λ _. Extends-refl m.channel) (λ _ _. Extends-refl m.channel)

  subscriber_mut-Extends :
      (id : SubscriberId) (change : S → S) (m : Machine os S R)
      → Ensures (λ left. Extends m.channel left.1.channel) (subscriber_mut id change m)
  subscriber_mut-Extends id change m =
      subscriber_mut-Ensures id m (λ m'. Extends m.channel m'.channel) change
        (Extends-refl m.channel) (λ _ _. Extends-refl m.channel)

  event_ops_request-Extends :
      (id : SubscriberId) (r : Request os) (m : Machine os S R)
      → Extends m.channel (event_ops_request id r m).1.channel
  event_ops_request-Extends id r m =
      event_ops_request_cases id m (λ left. Extends m.channel left.1.channel) r
        (λ _. Extends-refl m.channel) (λ _ _. Extends-refl m.channel)

  send_message-Extends :
      (msg : FnMsg os S R) (m : Machine os S R) → Extends m.channel (send_message msg m).1.channel
  unfolding send_message
  send_message-Extends msg m = send_msg-Extends msg m.channel m.world

module _ {os : Os} {S R : Type 0} ⦃sub : MutEventSubscriber os S R S⦄ where
  -- No request is taken from the channel, and no reply sent, while subscriber events are handled.
  pub dispatch_from-Extends :
      (rounds ev_index : ℕ) (endpoint_event : Option os.EpollEvent) (m : Machine os S R)
      → Ensures
          (λ left. Extends m.channel left.1.channel)
          (Loop.dispatch_from rounds ev_index endpoint_event m)
  dispatch_from-Extends rounds ev_index endpoint_event m =
      dispatch_from-Ensures (λ m'. Extends m.channel m'.channel)
        (λ t event id m' _ before.
          Ensures-map _ _ (run_handler (sub.process t (with_inner event)) (scope m' id))
            (λ left. Extends-trans before)
            (run_handler-Extends (sub.process t (with_inner event)) (scope m' id)))
        rounds ev_index endpoint_event m (Extends-refl m.channel)

  add_subscriber-Extends :
      (t : S) (m : Machine os S R)
      → Ensures (λ left. Extends m.channel left.1.channel) (Loop.add_subscriber t m)
  unfolding Loop.add_subscriber
  add_subscriber-Extends t m =
      let (id, subscribers') = Subscribers.add t m.subscribers in
      let m' = with_subscribers m subscribers' in
      Ensures-bind (λ _. Unit) _ (Subscribers.get_mut_unchecked id subscribers') _
        (Ensures-true (Subscribers.get_mut_unchecked id subscribers'))
        (λ added _.
          Ensures-bind _ _ (run_handler (sub.init added) (scope m' id)) _
            (run_handler-Extends (sub.init added) (scope m' id)) (λ left p. p))

  -- Nor does a closure take requests or send replies itself.
  pub run_closure-Extends :
      (c : Closure os S R) (m : Machine os S R)
      → Ensures (λ left. Extends m.channel left.1.channel) (Loop.run_closure c m)
  run_closure-Extends c m =
      run_closure-Ensures (λ m'. Extends m.channel m'.channel)
        (λ t m' before.
          Ensures-map _ _ (Loop.add_subscriber t m') (λ left. Extends-trans before)
            (add_subscriber-Extends t m'))
        (λ id m' before. Extends-trans before (remove_subscriber-Extends id m'))
        (λ id change m' before.
          Ensures-map _ _ (subscriber_mut id change m') (λ left. Extends-trans before)
            (subscriber_mut-Extends id change m'))
        (λ id r m' before. Extends-trans before (event_ops_request-Extends id r m'))
        (λ msg m' before. Extends-trans before (send_message-Extends msg m'))
        (λ m' world before. before) c m (Extends-refl m.channel)
