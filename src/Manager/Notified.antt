-- ===== src/Manager/Notified.antt =====
-- A turn of the event loop and one event that the wait has reported.
use event_manager.Prelude.{
  ℕ, suc, ◌+◌, ◌-◌, ◌<◌, ◌≡◌, sym, ap, ◌∙◌, false, none, some, Option, Result, ok, returned,
  >>=-eq-returned, returned_injective, Returns, Returns-returned, Returns-value, arith, subst,
  get_elem?,
}
use event_manager.Os.{Os, RawFd}
use event_manager.Error.{Error}
use event_manager.Epoll
use event_manager.Epoll.{SubscriberId, subscriber_id}
use event_manager.Epoll.Buffer.{is_discarded}
use event_manager.Handler.{MutEventSubscriber}
use event_manager.Kernel.{Kernel}
use event_manager.Manager.{Machine, context, with_context}
use event_manager.Manager.Loop
use event_manager.Manager.Safe.{IsReady}
use event_manager.Manager.Total.{AllQuiet}
use event_manager.Manager.Turn.{AllTame, IsTame-Calm}
use event_manager.Manager.Awaited.{AllSpare}
use event_manager.Manager.HandedOver.{IsHandedOver, dispatch_from-IsHandedOver}
use event_manager.Manager.Polled.{IsRunnable, ReportsInput, answered-IsReady, subscriber_id-poll}
use event_manager.Manager.Runnable.{run_with_timeout-settles}

-- A turn that has dispatched the event at `i` to the subscriber, and has then handled the queue.
pub record IsNotified {os : Os} {S R : Type 0} ⦃sub : MutEventSubscriber os S R S⦄ (i fuel : ℕ)
    (ev : os.EpollEvent) (id : SubscriberId) (n : ℕ) (polled : Machine os S R)
    (left : Result ℕ (Error os) × Machine os S R) : Type 0 where
  pub answer : left.0 ≡ ok n
  pub rest : ℕ
  pub within : n ≡ i + suc rest
  pub dispatched : Option os.EpollEvent × Machine os S R
  pub handed : IsHandedOver i rest ev id polled dispatched
  pub ended : Loop.dispatch_endpoint_event fuel dispatched.0 dispatched.1 ≡ returned left.1

module _ {os : Os} {S R : Type 0} ⦃sub : MutEventSubscriber os S R S⦄ where
  -- What a turn that returns is made of.
  turn_parts :
      (fuel ms n : ℕ) (m : Machine os S R) (left : Result ℕ (Error os) × Machine os S R)
      → (Epoll.poll ms (context m)).0 ≡ ok n
      → Loop.run_with_timeout fuel ms m ≡ returned left
      → (left.0 ≡ ok n)
        × (dispatched : Option os.EpollEvent × Machine os S R) × (Loop.dispatch_from n 0 none
              (with_context m (Epoll.poll ms (context m)).1)
            ≡ returned dispatched)
        × (Loop.dispatch_endpoint_event fuel dispatched.0 dispatched.1 ≡ returned left.1)
  unfolding Loop.run_with_timeout Loop.dispatch_events
  turn_parts fuel ms n m left answer ran =
      let m' = with_context m (Epoll.poll ms (context m)).1 in
      let (left', turn, same) =
        >>=-eq-returned (Loop.dispatch_events fuel n m') _
          (rw (answer, Loop.run_with_timeout) at ran) in
      let (dispatched, first, ended) = >>=-eq-returned (Loop.dispatch_from n 0 none m') _ turn in
      let is : (ok n, left') ≡ left = returned_injective same in
      (sym (ap (λ l. l.0) is), dispatched, first, ended ∙ ap (λ l. returned (l.1)) is)

module _ {os : Os} {S R : Type 0} ⦃sub : MutEventSubscriber os S R S⦄ (kernel : Kernel os)
    (ep : os.Epoll) (tame : AllTame sub) (quiet : AllQuiet sub) (channel_fd : RawFd) where
  turn-IsNotified :
      (i fuel ms n : ℕ) (ev : os.EpollEvent) (id : SubscriberId) (m : Machine os S R)
      (left : Result ℕ (Error os) × Machine os S R)
      → (Epoll.poll ms (context m)).0 ≡ ok n
      → i < n
      → IsReady n (with_context m (Epoll.poll ms (context m)).1)
      → AllSpare (some id) (os.event_fd ev) sub
      → is_discarded os ev ≡ false
      → get_elem? (Epoll.poll ms (context m)).1.wrapper.ready_events i ≡ some ev
      → subscriber_id (Epoll.poll ms (context m)).1.wrapper (os.event_fd ev) ≡ some id
      → Loop.run_with_timeout fuel ms m ≡ returned left
      → IsNotified i fuel ev id n (with_context m (Epoll.poll ms (context m)).1) left
  turn-IsNotified i fuel ms n ev id m left answer lt ready spare kept queued routed ran =
      let m' = with_context m (Epoll.poll ms (context m)).1 in
      let k = n - suc i in
      let total : n ≡ i + suc k = omega (arith, lt) in
      let (is_ok, dispatched, first, ended) = turn_parts fuel ms n m left answer ran in
      record {
        answer = is_ok;
        rest = k;
        within = total;
        dispatched = dispatched;
        handed =
            Returns-returned _ (Loop.dispatch_from (i + suc k) 0 none m')
              (subst (λ t. Loop.dispatch_from t 0 none m' ≡ returned dispatched) total first)
              (dispatch_from-IsHandedOver (λ t e. IsTame-Calm (sub.process t e) (tame t e)) i k ev
                id m' spare (subst (λ t. IsReady t m') total ready) kept queued routed);
        ended = ended;
      }

  -- On an epoll that behaves as documented, under the conditions on which a turn of the event loop
  -- returns, let the wait report an event that is not discarded, for a descriptor that is routed to a
  -- subscriber and that no subscriber removes. Then with fuel above some bound the turn returns the
  -- number of events, in the event's round it is dispatched to that subscriber, which is stored as
  -- `process` leaves it, whatever is done for the events before it, and the queue is handled after
  -- all events.
  pub run_with_timeout-IsNotified :
      (i ms n : ℕ) (ev : os.EpollEvent) (id : SubscriberId) (m : Machine os S R)
      → ReportsInput ms channel_fd m
      → IsRunnable kernel ep channel_fd m
      → (Epoll.poll ms (context m)).0 ≡ ok n
      → i < n
      → get_elem? (Epoll.poll ms (context m)).1.wrapper.ready_events i ≡ some ev
      → is_discarded os ev ≡ false
      → subscriber_id m.epoll_context (os.event_fd ev) ≡ some id
      → AllSpare (some id) (os.event_fd ev) sub
      → (bound : ℕ) × ((fuel : ℕ)
          → bound < fuel
          → Returns
              (IsNotified i fuel ev id n (with_context m (Epoll.poll ms (context m)).1))
              (Loop.run_with_timeout fuel ms m))
  run_with_timeout-IsNotified i ms n ev id m input run answer lt queued kept routed spare =
      let (bound, returns) =
        run_with_timeout-settles kernel ep tame quiet channel_fd ms m input run in
      let still = subscriber_id-poll kernel ep channel_fd ms m (os.event_fd ev) ∙ routed in
      let ready = answered-IsReady kernel ep channel_fd ms n m input run answer in
      (
        bound,
        λ fuel enough.
            let (left, ran, _) =
              Returns-value _ (Loop.run_with_timeout fuel ms m) (returns fuel enough) in
            subst (Returns _) (sym ran) (
              turn-IsNotified i fuel ms n ev id m left answer lt ready spare kept queued still ran),
      )
