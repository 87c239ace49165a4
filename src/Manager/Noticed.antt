-- ===== src/Manager/Noticed.antt =====
-- A turn of the event loop in which the wait has reported the channel's descriptor.
use event_manager.Prelude.{
  ℕ, suc, ◌+◌, ◌-◌, ◌<◌, ◌≡◌, refl, sym, ap, ◌∙◌, true, false, none, some, Option, Result, ok, [],
  ◌++◌, returned, ◌>>=◌, Ensures-and, Ensures-map, Ensures-returned, map, Returns, Returns-and,
  Returns-bind, Returns-map, Returns-value, Returns-Ensures, arith, subst, get_elem?, length,
  is_some, ◌==◌,
}
use event_manager.Os.{Os, RawFd}
use event_manager.Error.{Error}
use event_manager.Epoll
use event_manager.Epoll.{SubscriberId, subscriber_id}
use event_manager.Epoll.Buffer.{is_discarded}
use event_manager.Endpoint
use event_manager.Endpoint.{FnMsg}
use event_manager.Endpoint.Callers.{senders, answered}
use event_manager.Handler.{MutEventSubscriber}
use event_manager.Handler.Rules.{Extends}
use event_manager.Kernel.{Kernel}
use event_manager.Manager.{Machine, context, with_context}
use event_manager.Manager.Loop
use event_manager.Manager.Safe.{IsReady, IsInput, dispatch_from-IsReady}
use event_manager.Manager.Deferred.{dispatch_from-Extends}
use event_manager.Manager.Sent.{sent_from}
use event_manager.Manager.Sent.Appended.{dispatch_from-sent}
use event_manager.Manager.Total.{AllPlain, AllQuiet, Drained, handle_endpoint_calls-Returns}
use event_manager.Manager.Turn.{AllTame, IsTame-Calm, dispatch_from-AllPlain}
use event_manager.Manager.Awaited.{AllSpare, Waits}
use event_manager.Manager.Polled.{IsRunnable, ReportsInput, answered-IsReady, subscriber_id-poll}
use event_manager.Manager.Found.{found_at}

-- The state in which the loop over the events starts, once the wait has filled the buffer.
abbrev pub polled : {os : Os} {S R : Type 0} → ℕ → Machine os S R → Machine os S R
polled ms m = with_context m (Epoll.poll ms (context m)).1

-- A turn that has handled the queue: the messages in it, and those that subscribers have sent in the
-- turn. Each blocking call among them has been answered, in their order.
pub record AllAnswered {os : Os} {S R : Type 0} ⦃sub : MutEventSubscriber os S R S⦄ (ms n : ℕ)
    (m : Machine os S R) (left : Result ℕ (Error os) × Machine os S R) : Type 0 where
  pub answer : left.0 ≡ ok n
  pub emptied : left.1.channel.messages ≡ []
  pub replied :
      answered left.1.channel
      ≡ answered m.channel ++ senders (m.channel.messages ++ sent_from n 0 none (polled ms m))

module _ {os : Os} {S R : Type 0} ⦃sub : MutEventSubscriber os S R S⦄ (tame : AllTame sub)
    (quiet : AllQuiet sub) where
  -- The queue is handled where the loop has found an endpoint event.
  endpoint_event-handles :
      (fuel : ℕ) (found : Option os.EpollEvent) (m : Machine os S R)
      → is_some found ≡ true
      → IsInput os found
      → Loop.dispatch_endpoint_event fuel found m ≡ Loop.handle_endpoint_calls fuel m
  unfolding Loop.dispatch_endpoint_event
  endpoint_event-handles fuel none m is input = cc
  endpoint_event-handles fuel (some ev) m is input =
      let same : (os.event_set ev == os.set_in) ≡ true = ground arith in
      rw (same, Loop.dispatch_endpoint_event) refl

  -- The loop over the events, before the queue is handled.
  record IsFound (m : Machine os S R) (left : Option os.EpollEvent × Machine os S R) : Type 0 where
    found : is_some left.0 ≡ true
    input : IsInput os left.0
    extends : Extends m.channel left.1.channel
    plain : AllPlain left.1.channel.messages

  dispatch_from-IsFound :
      (i k : ℕ) (ev : os.EpollEvent) (m : Machine os S R)
      → AllSpare none (os.event_fd ev) sub
      → IsReady (i + suc k) m
      → AllPlain m.channel.messages
      → Waits i ev none m.epoll_context
      → is_discarded os ev ≡ false
      → os.event_fd ev ≡ Endpoint.fd m.channel
      → Returns (IsFound m) (Loop.dispatch_from (i + suc k) 0 none m)
  dispatch_from-IsFound i k ev m spare ready all waits kept is_fd =
      let loop = Loop.dispatch_from (i + suc k) 0 none m in
      let still =
        dispatch_from-IsReady (λ t e. IsTame-Calm (sub.process t e) (tame t e)) (i + suc k)
          (i + suc k) 0 none m (omega arith) tt ready in
      Returns-and (IsFound m) loop (Returns-map _ _ loop (λ _ _. tt) still) (
        Ensures-map _ (IsFound m) loop
          (λ left p. record { found = p.1.0; input = p.0.0; extends = p.1.1.0; plain = p.1.1.1 })
          (Ensures-and (λ left. IsInput os left.0 × IsReady (i + suc k) left.1) _ loop
            (Returns-Ensures _ loop still)
            (Ensures-and _ _ loop (found_at i k ev m spare waits kept is_fd) (
              Ensures-and _ _ loop (dispatch_from-Extends (i + suc k) 0 none m)
                (dispatch_from-AllPlain tame (i + suc k) 0 none m all)))))

module _ {os : Os} {S R : Type 0} ⦃sub : MutEventSubscriber os S R S⦄ (kernel : Kernel os)
    (ep : os.Epoll) (tame : AllTame sub) (quiet : AllQuiet sub) (channel_fd : RawFd) where
  -- The turn handles the queue, with the messages that subscribers have sent in it, once the loop has
  -- found the channel's event.
  pub record IsTurn (ms n : ℕ) (m : Machine os S R) : Type 0 where
    pub endpoint_event : Option os.EpollEvent
    pub dispatched : Machine os S R
    pub looped : Loop.dispatch_from n 0 none (polled ms m) ≡ returned (endpoint_event, dispatched)
    pub extends : Extends m.channel dispatched.channel
    pub plain : AllPlain dispatched.channel.messages
    pub handled :
        (fuel : ℕ)
        → Loop.run_with_timeout fuel ms m
          ≡ (Loop.handle_endpoint_calls fuel dispatched >>= (λ left. returned (ok n, left)))

  found-IsTurn :
      (ms n : ℕ) (m : Machine os S R) (dispatched : Option os.EpollEvent × Machine os S R)
      → (Epoll.poll ms (context m)).0 ≡ ok n
      → Loop.dispatch_from n 0 none (polled ms m) ≡ returned dispatched
      → IsFound tame quiet (polled ms m) dispatched
      → IsTurn ms n m
  unfolding Loop.run_with_timeout Loop.dispatch_events
  found-IsTurn ms n m dispatched answer looped p = record {
    endpoint_event = dispatched.0;
    dispatched = dispatched.1;
    looped = looped;
    extends = p.extends;
    plain = p.plain;
    handled = λ fuel.
        rw (answer, Loop.run_with_timeout)
          (rw (looped, Loop.dispatch_events)
            (ap (λ o. o >>= (λ left. returned (ok n, left)))
              (endpoint_event-handles tame quiet fuel dispatched.0 dispatched.1 p.found p.input)));
  }

  pub run_with_timeout-IsTurn :
      (i ms n : ℕ) (ev : os.EpollEvent) (m : Machine os S R)
      → ReportsInput ms channel_fd m
      → IsRunnable kernel ep channel_fd m
      → (Epoll.poll ms (context m)).0 ≡ ok n
      → i < n
      → get_elem? (Epoll.poll ms (context m)).1.wrapper.ready_events i ≡ some ev
      → is_discarded os ev ≡ false
      → os.event_fd ev ≡ channel_fd
      → subscriber_id m.epoll_context channel_fd ≡ none
      → AllSpare none channel_fd sub
      → IsTurn ms n m
  run_with_timeout-IsTurn i ms n ev m input run answer lt queued kept is_fd unrouted spare =
      let m' = polled ms m in
      let k = n - suc i in
      let total : i + suc k ≡ n = omega (arith, lt) in
      let ready = answered-IsReady kernel ep channel_fd ms n m input run answer in
      let free =
        subscriber_id-poll kernel ep channel_fd ms m (os.event_fd ev)
        ∙ ap (subscriber_id m.epoll_context) is_fd
        ∙ unrouted in
      let (dispatched, looped, p) = Returns-value _ _ (
        dispatch_from-IsFound tame quiet i k ev m'
          (subst (λ fd. AllSpare none fd sub) (sym is_fd) spare)
          (subst (λ t. IsReady t m') (sym total) ready) run.plain
          (record { queued = queued; routed = free }) kept (is_fd ∙ sym run.in_step.same_fd)) in
      found-IsTurn ms n m dispatched answer
        (subst (λ t. Loop.dispatch_from t 0 none m' ≡ returned dispatched) total looped) p

  IsTurn-AllAnswered :
      (fuel ms n : ℕ) (m : Machine os S R) (turn : IsTurn ms n m)
      → length turn.dispatched.channel.messages < fuel
      → Returns (AllAnswered ms n m) (Loop.run_with_timeout fuel ms m)
  IsTurn-AllAnswered fuel ms n m turn enough =
      subst (Returns (AllAnswered ms n m)) (sym (turn.handled fuel)) (
        Returns-bind (Drained turn.dispatched.channel.messages turn.dispatched) (AllAnswered ms n m)
          (Loop.handle_endpoint_calls fuel turn.dispatched) _
          (handle_endpoint_calls-Returns quiet fuel turn.dispatched turn.plain enough)
          (λ left q. record {
            answer = refl;
            emptied = q.0;
            replied =
                q.1
                ∙ ap (λ l. answered turn.dispatched.channel ++ senders l)
                    (Ensures-returned
                      (λ found.
                        found.1.channel.messages
                        ≡ m.channel.messages ++ sent_from n 0 none (polled ms m))
                      (Loop.dispatch_from n 0 none (polled ms m)) turn.looped
                      (dispatch_from-sent n 0 none (polled ms m)))
                ∙ ap
                    (λ r.
                      map (λ x. x.0) r
                      ++ senders (m.channel.messages ++ sent_from n 0 none (polled ms m)))
                    turn.extends.same_replies;
          }))

  -- On an epoll that behaves as documented, under the conditions on which a turn of the event loop
  -- returns, let the wait report an event that is not discarded, for the channel's descriptor, which
  -- is routed to no subscriber, and which no subscriber adds or removes. Then with fuel above some
  -- bound the turn returns, the queue is empty, and the blocking calls that were queued before the
  -- turn, and after them those that subscribers have sent in the rounds of the loop, have been answered
  -- once each, in their order.
  pub run_with_timeout-AllAnswered :
      (i ms n : ℕ) (ev : os.EpollEvent) (m : Machine os S R)
      → ReportsInput ms channel_fd m
      → IsRunnable kernel ep channel_fd m
      → (Epoll.poll ms (context m)).0 ≡ ok n
      → i < n
      → get_elem? (Epoll.poll ms (context m)).1.wrapper.ready_events i ≡ some ev
      → is_discarded os ev ≡ false
      → os.event_fd ev ≡ channel_fd
      → subscriber_id m.epoll_context channel_fd ≡ none
      → AllSpare none channel_fd sub
      → (bound : ℕ) × ((fuel : ℕ)
          → bound < fuel
          → Returns (AllAnswered ms n m) (Loop.run_with_timeout fuel ms m))
  run_with_timeout-AllAnswered i ms n ev m input run answer lt queued kept is_fd unrouted spare =
      let turn =
        run_with_timeout-IsTurn i ms n ev m input run answer lt queued kept is_fd unrouted spare in
      (
        length turn.dispatched.channel.messages,
        λ fuel enough. IsTurn-AllAnswered fuel ms n m turn enough,
      )
