-- ===== src/Manager/Loop.antt =====
-- The operations of `EventManager` that call subscribers or remote closures, and its event loop.
use event_manager.Prelude.{
  ℕ, zero, suc, ◌+◌, Option, none, some, [], ◌∷◌, Result, ok, err, Outcome, returned, panicked,
  unfinished, ◌>>=◌, get_elem?, ◌==◌, if◌then◌else◌, ◌^◌, ◌-◌,
}
use event_manager.Os.{Os}
use event_manager.Error.{Error}
use event_manager.Events.{with_inner}
use event_manager.Epoll
use event_manager.Epoll.{SubscriberId, EpollWrapper, subscriber_id}
use event_manager.Epoll.Buffer.{is_discarded}
use event_manager.Subscribers
use event_manager.Endpoint
use event_manager.Endpoint.{Closure, FnMsg, reply_to}
use event_manager.Handler.{MutEventSubscriber, run_handler}
use event_manager.Manager.{
  Machine, context, with_context, with_subscribers, with_channel, scope, after_handler,
  remove_subscriber, subscriber_mut, event_ops_request, send_message,
}

module _ {os : Os} {S R : Type 0} ⦃sub : MutEventSubscriber os S R S⦄ where
  unfoldable pub add_subscriber : S → Machine os S R → Outcome (SubscriberId × Machine os S R)
  add_subscriber subscriber self =
      let (id, subscribers') = Subscribers.add subscriber self.subscribers in
      let self' = with_subscribers self subscribers' in
      Subscribers.get_mut_unchecked id subscribers' >>= (λ added.
        run_handler (sub.init added) (scope self' id)
        >>= (λ left. returned (id, after_handler self' id left)))

  -- The call of `process` for one ready event.
  unfoldable pub process_event :
      SubscriberId → os.EpollEvent → Machine os S R → Outcome (Machine os S R)
  unfolding with_inner
  process_event id event self = Subscribers.get_mut_unchecked id self.subscribers >>= (λ subscriber.
      run_handler (sub.process subscriber (with_inner event)) (scope self id)
      >>= (λ left. returned (after_handler self id left)))

  -- The body of the loop in `dispatch_events`, with the endpoint event found so far.
  unfoldable pub dispatch_event :
      os.EpollEvent
      → Option os.EpollEvent
      → Machine os S R
      → Outcome (Option os.EpollEvent × Machine os S R)
  unfolding process_event
  dispatch_event event endpoint_event self =
      if is_discarded os event
      then returned (endpoint_event, self)
      else (elim (subscriber_id self.epoll_context (os.event_fd event)) [
        | some id ↦ process_event id event self >>= (λ self'. returned (endpoint_event, self'))
        | none ↦
            if os.event_fd event == Endpoint.fd self.channel
            then returned (some event, self)
            else panicked
      ])

  -- The rounds that are left, and the index of the next one. The buffer is read anew each time.
  unfoldable pub dispatch_from :
      ℕ
      → ℕ
      → Option os.EpollEvent
      → Machine os S R
      → Outcome (Option os.EpollEvent × Machine os S R)
  dispatch_from zero ev_index endpoint_event self = returned (endpoint_event, self)
  dispatch_from (suc rounds) ev_index endpoint_event self =
      elim (get_elem? self.epoll_context.ready_events ev_index) [
        | none ↦ panicked
        | some event ↦ dispatch_event event endpoint_event self >>= (λ (endpoint_event', self').
            dispatch_from rounds (ev_index + 1) endpoint_event' self')
      ]

  -- A closure called with the manager as its `SubscriberOps`.
  unfoldable pub run_closure : Closure os S R → Machine os S R → Outcome (R × Machine os S R)
  unfolding add_subscriber
  run_closure (Closure.done r) self = returned (r, self)
  run_closure Closure.panics self = panicked
  run_closure (Closure.add_subscriber subscriber k) self =
      add_subscriber subscriber self >>= (λ (id, self'). run_closure (k id) self')
  run_closure (Closure.remove_subscriber id k) self =
      let (answer, self') = remove_subscriber id self in run_closure (k answer) self'
  run_closure (Closure.subscriber_mut id change k) self =
      subscriber_mut id change self >>= (λ (answer, self'). run_closure (k answer) self')
  run_closure (Closure.event_ops id r k) self =
      let (answer, self') = event_ops_request id r self in run_closure (k answer) self'
  run_closure (Closure.send f reply k) self =
      let (answer, self') = send_message (record { fnbox = f; sender = reply }) self in
      run_closure (k answer) self'
  run_closure (Closure.effect change k) self =
      run_closure (k self.world) (record self { world = change self.world })

  -- The loop of `handle_endpoint_calls`: `try_recv` until the queue is empty.
  unfoldable pub receive_all : ℕ → Machine os S R → Outcome (Machine os S R)
  unfolding run_closure
  receive_all zero self = unfinished
  receive_all (suc fuel) self = elim self.channel.messages [
    | [] ↦ returned self
    | msg ∷ rest ↦
        run_closure msg.fnbox (with_channel self (record (self.channel) { messages = rest }))
        >>= (λ (result, self').
            receive_all fuel (with_channel self' (reply_to msg.sender result self'.channel)))
  ]

  unfoldable pub handle_endpoint_calls : ℕ → Machine os S R → Outcome (Machine os S R)
  unfolding receive_all
  handle_endpoint_calls fuel self =
      let (_, world') = os.eventfd_read self.channel.event_fd self.world in
      receive_all fuel (record self { world = world' })

  unfoldable pub dispatch_endpoint_event :
      ℕ → Option os.EpollEvent → Machine os S R → Outcome (Machine os S R)
  unfolding handle_endpoint_calls
  dispatch_endpoint_event fuel none self = returned self
  dispatch_endpoint_event fuel (some event) self =
      if os.event_set event == os.set_in then handle_endpoint_calls fuel self else panicked

  unfoldable pub dispatch_events : ℕ → ℕ → Machine os S R → Outcome (Machine os S R)
  unfolding dispatch_from dispatch_endpoint_event
  dispatch_events fuel event_count self =
      dispatch_from event_count 0 none self
      >>= (λ (endpoint_event, self'). dispatch_endpoint_event fuel endpoint_event self')

  unfoldable pub run_with_timeout :
      ℕ → ℕ → Machine os S R → Outcome (Result ℕ (Error os) × Machine os S R)
  unfolding dispatch_events
  run_with_timeout fuel milliseconds self =
      let (polled, context') = Epoll.poll milliseconds (context self) in
      let self' = with_context self context' in
      elim polled [
        | err e ↦ returned (err e, self')
        | ok event_count ↦
            dispatch_events fuel event_count self' >>= (λ self''. returned (ok event_count, self''))
      ]

  -- A timeout of -1 waits for ever.
  unfoldable pub run : ℕ → Machine os S R → Outcome (Result ℕ (Error os) × Machine os S R)
  unfolding run_with_timeout
  run fuel self = run_with_timeout fuel (2 ^ 32 - 1) self
