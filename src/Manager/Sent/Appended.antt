-- ===== src/Manager/Sent/Appended.antt =====
-- The queue after the dispatch loop, a remote closure and `receive_all`: what was sent stands at its end.
use event_manager.Prelude.{
  ℕ, zero, suc, ◌+◌, ◌≡◌, refl, sym, ap, ◌∙◌, Option, none, some, List, [], ◌++◌, Outcome, returned,
  panicked, unfinished, ◌>>=◌, Ensures, Ensures-bind, Ensures-map, Ensures-self, Bool-cases,
  Option-cases, inl, inr, get_elem?, ◌==◌,
}
use mathlib.Core.List.{append_assoc, append-nil}
use event_manager.Prelude.HashMap
use event_manager.Os.{Os}
use event_manager.Events.{with_inner}
use event_manager.Epoll.{SubscriberId, subscriber_id}
use event_manager.Epoll.Buffer.{is_discarded}
use event_manager.Subscribers
use event_manager.Endpoint
use event_manager.Endpoint.{Closure, FnMsg}
use event_manager.Handler.{MutEventSubscriber, run_handler}
use event_manager.Manager.{
  Machine, scope, with_subscribers, subscriber_mut, remove_subscriber, event_ops_request,
  send_message,
}
use event_manager.Manager.Loop
use event_manager.Manager.Cases.{remove_subscriber_cases, event_ops_request_cases}
use event_manager.Manager.Kept.{get-add_self}
use event_manager.Manager.Sent.{
  sent_at, sent_by, sent_from, sent_after, sent_by_closure, accepted, run_handler-sent,
  messages-send_msg,
}

module _ {os : Os} {S R : Type 0} ⦃sub : MutEventSubscriber os S R S⦄ where
  process_event-sent :
      (id : SubscriberId) (event : os.EpollEvent) (t : S) (m : Machine os S R)
      → HashMap.get m.subscribers.subscribers id ≡ some t
      → Ensures
          (λ m'.
            m'.channel.messages
            ≡ m.channel.messages ++ sent_by (sub.process t (with_inner event)) (scope m id))
          (Loop.process_event id event m)
  unfolding Loop.process_event Subscribers.get_mut_unchecked
  process_event-sent id event t m found =
      rw (found, Loop.process_event)
        (Ensures-bind
          (λ left.
            left.1.channel.messages
            ≡ m.channel.messages ++ sent_by (sub.process t (with_inner event)) (scope m id))
          _ (run_handler (sub.process t (with_inner event)) (scope m id)) _
          (run_handler-sent (sub.process t (with_inner event)) (scope m id)) (λ left p. p))

  process_event-missing :
      (id : SubscriberId) (event : os.EpollEvent) (m : Machine os S R)
      → HashMap.get m.subscribers.subscribers id ≡ none
      → Ensures (λ _. ⊥) (Loop.process_event id event m)
  unfolding Loop.process_event Subscribers.get_mut_unchecked
  process_event-missing id event m missing = rw (missing, Loop.process_event) tt

  dispatch_event-sent :
      (event : os.EpollEvent) (endpoint_event : Option os.EpollEvent) (m : Machine os S R)
      → Ensures
          (λ left. left.1.channel.messages ≡ m.channel.messages ++ sent_at event m)
          (Loop.dispatch_event event endpoint_event m)
  unfolding Loop.dispatch_event sent_at
  dispatch_event-sent event endpoint_event m = elim (Bool-cases (is_discarded os event)) [
    | inl gone ↦ rw (gone, Loop.dispatch_event, sent_at) (sym (append-nil _))
    | inr kept ↦ elim (Option-cases (subscriber_id m.epoll_context (os.event_fd event))) [
      | inl unrouted ↦ elim (Bool-cases (os.event_fd event == Endpoint.fd m.channel)) [
        | inl channel ↦
            rw (kept, unrouted, channel, Loop.dispatch_event, sent_at) (sym (append-nil _))
        | inr other ↦ rw (kept, unrouted, other, Loop.dispatch_event) tt
      ]
      | inr (id, routed) ↦ elim (Option-cases (HashMap.get m.subscribers.subscribers id)) [
        | inl missing ↦
            rw (kept, routed, Loop.dispatch_event)
              (Ensures-bind (λ _. ⊥) _ (Loop.process_event id event m) _
                (process_event-missing id event m missing) (λ left p. absurd p))
        | inr (t, found) ↦
            rw (kept, routed, found, Loop.dispatch_event, sent_at)
              (Ensures-bind
                (λ m'.
                  m'.channel.messages
                  ≡ m.channel.messages ++ sent_by (sub.process t (with_inner event)) (scope m id))
                _ (Loop.process_event id event m) _ (process_event-sent id event t m found)
                (λ left p. p))
      ]
    ]
  ]

  -- The dispatch loop appends to the queue what the subscribers send.
  pub dispatch_from-sent :
      (rounds ev_index : ℕ) (endpoint_event : Option os.EpollEvent) (m : Machine os S R)
      → Ensures
          (λ left.
            left.1.channel.messages
            ≡ m.channel.messages ++ sent_from rounds ev_index endpoint_event m)
          (Loop.dispatch_from rounds ev_index endpoint_event m)
  unfolding Loop.dispatch_from sent_from sent_after
  dispatch_from-sent zero ev_index endpoint_event m = sym (append-nil _)
  dispatch_from-sent (suc rounds) ev_index endpoint_event m =
      elim (Option-cases (get_elem? m.epoll_context.ready_events ev_index)) [
        | inl missing ↦ rw (missing, Loop.dispatch_from) tt
        | inr (event, found) ↦
            rw (found, Loop.dispatch_from, sent_from)
              (Ensures-bind
                (λ left.
                  (Loop.dispatch_event event endpoint_event m ≡ returned left)
                  × (left.1.channel.messages ≡ m.channel.messages ++ sent_at event m))
                _ (Loop.dispatch_event event endpoint_event m) _
                (Ensures-self _ _ (dispatch_event-sent event endpoint_event m))
                (λ left p.
                  Ensures-map _ _ (Loop.dispatch_from rounds (ev_index + 1) left.0 left.1)
                    (λ left' q.
                      q
                      ∙ ap (λ l. l ++ sent_from rounds (ev_index + 1) left.0 left.1) p.1
                      ∙ append_assoc m.channel.messages (sent_at event m)
                          (sent_from rounds (ev_index + 1) left.0 left.1)
                      ∙ ap
                          (λ o.
                            m.channel.messages
                            ++ (sent_at event m
                                ++ sent_after o
                                    (λ (e', m'). sent_from rounds (ev_index + 1) e' m')))
                          (sym p.0))
                    (dispatch_from-sent rounds (ev_index + 1) left.0 left.1)))
      ]

  add_subscriber-sent :
      (t : S) (m : Machine os S R)
      → Ensures
          (λ left.
            left.1.channel.messages
            ≡ m.channel.messages
              ++ sent_by (sub.init t) (
                  scope
                    (with_subscribers m (Subscribers.add t m.subscribers).1)
                    (Subscribers.add t m.subscribers).0))
          (Loop.add_subscriber t m)
  unfolding Loop.add_subscriber Subscribers.get_mut_unchecked
  add_subscriber-sent t m =
      let (id, subscribers') = Subscribers.add t m.subscribers in
      let m' = with_subscribers m subscribers' in
      rw (get-add_self t m.subscribers, Loop.add_subscriber)
        (Ensures-bind
          (λ left.
            left.1.channel.messages ≡ m.channel.messages ++ sent_by (sub.init t) (scope m' id))
          _ (run_handler (sub.init t) (scope m' id)) _ (run_handler-sent (sub.init t) (scope m' id))
          (λ left p. p))

  subscriber_mut-same :
      (id : ℕ) (change : S → S) (m : Machine os S R)
      → Ensures (λ left. left.1.channel.messages ≡ m.channel.messages) (subscriber_mut id change m)
  unfolding subscriber_mut Subscribers.get_mut_unchecked
  subscriber_mut-same id change m = elim (Bool-cases (Subscribers.contains id m.subscribers)) [
    | inl is ↦ elim (Option-cases (HashMap.get m.subscribers.subscribers id)) [
      | inl missing ↦ rw (is, missing, subscriber_mut) tt
      | inr (t, found) ↦ rw (is, found, subscriber_mut) refl
    ]
    | inr other ↦ rw (other, subscriber_mut) refl
  ]

  -- What a closure sends comes after what is in the queue.
  chained :
      {A : Type 0} (o : Outcome (A × Machine os S R)) (l sent : List (FnMsg os S R))
      (f : A → Closure os S R)
      → Ensures (λ left. left.1.channel.messages ≡ l ++ sent) o
      → ((left : A × Machine os S R)
          → Ensures
              (λ left'.
                left'.1.channel.messages
                ≡ left.1.channel.messages ++ sent_by_closure (f left.0) left.1)
              (Loop.run_closure (f left.0) left.1))
      → Ensures
          (λ left.
            left.1.channel.messages
            ≡ l ++ (sent ++ sent_after o (λ (a, m'). sent_by_closure (f a) m')))
          (o >>= (λ (a, m'). Loop.run_closure (f a) m'))
  unfolding sent_after
  chained (returned (a, m')) l sent f p rest =
      Ensures-map _ _ (Loop.run_closure (f a) m')
        (λ left q. q ∙ ap (λ l. l ++ sent_by_closure (f a) m') p ∙ append_assoc l sent _)
        (rest (a, m'))
  chained panicked l sent f p rest = tt
  chained unfinished l sent f p rest = tt

  same_queue :
      (o : Outcome (R × Machine os S R)) {before queue : List (FnMsg os S R)}
      (sent : List (FnMsg os S R))
      → before ≡ queue
      → Ensures (λ left. left.1.channel.messages ≡ before ++ sent) o
      → Ensures (λ left. left.1.channel.messages ≡ queue ++ sent) o
  same_queue o sent same = Ensures-map _ _ o (λ left q. q ∙ ap (λ l. l ++ sent) same)

  pub run_closure-sent :
      (c : Closure os S R) (m : Machine os S R)
      → Ensures
          (λ left. left.1.channel.messages ≡ m.channel.messages ++ sent_by_closure c m)
          (Loop.run_closure c m)
  unfolding Loop.run_closure sent_by_closure send_message
  run_closure-sent (Closure.done r) m = sym (append-nil _)
  run_closure-sent Closure.panics m = tt
  run_closure-sent (Closure.add_subscriber t k) m =
      chained (Loop.add_subscriber t m) m.channel.messages _ k (add_subscriber-sent t m)
        (λ left. run_closure-sent (k left.0) left.1)
  run_closure-sent (Closure.remove_subscriber id k) m =
      same_queue _ _
        (remove_subscriber_cases id m (λ left. left.1.channel.messages ≡ m.channel.messages)
          (λ _. refl) (λ _ _. refl))
        (run_closure-sent (k (remove_subscriber id m).0) (remove_subscriber id m).1)
  run_closure-sent (Closure.subscriber_mut id change k) m =
      chained (subscriber_mut id change m) m.channel.messages [] k
        (Ensures-map _ _ (subscriber_mut id change m) (λ left p. p ∙ sym (append-nil _))
          (subscriber_mut-same id change m))
        (λ left. run_closure-sent (k left.0) left.1)
  run_closure-sent (Closure.event_ops id r k) m =
      same_queue _ _
        (event_ops_request_cases id m (λ left. left.1.channel.messages ≡ m.channel.messages) r
          (λ _. refl) (λ _ _. refl))
        (run_closure-sent (k (event_ops_request id r m).0) (event_ops_request id r m).1)
  run_closure-sent (Closure.send f reply k) m =
      let msg : FnMsg os S R = record { fnbox = f; sender = reply } in
      let next = send_message msg m in
      Ensures-map _ _ (Loop.run_closure (k next.0) next.1)
        (λ left p.
          p
          ∙ ap (λ l. l ++ sent_by_closure (k next.0) next.1)
              (messages-send_msg msg m.channel m.world)
          ∙ append_assoc m.channel.messages (accepted m.channel msg)
              (sent_by_closure (k next.0) next.1))
        (run_closure-sent (k next.0) next.1)
  run_closure-sent (Closure.effect change k) m = run_closure-sent (k m.world) _
