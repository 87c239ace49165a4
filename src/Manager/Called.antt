-- ===== src/Manager/Called.antt =====
-- `call_blocking` from its `send` to its result: the eventfd that it writes to wakes the manager up.
use event_manager.Prelude.{
  ℕ, ◌<◌, ◌%◌, ◌^◌, ◌≡◌, refl, sym, ap, ◌∙◌, true, false, Option, none, some, returned, Result, ok,
  [], ◌∷◌, ◌++◌, Returns, Returns-bind, subst, arith, get_elem?, length, Bool-cases, inl, inr,
  contains,
}
use event_manager.Prelude.HashMap
use mathlib.Core.List.{append_assoc}
use event_manager.Os.{Os, RawFd}
use event_manager.Error.{Error}
use event_manager.Epoll
use event_manager.Epoll.{SubscriberId, subscriber_id, poll_result}
use event_manager.Epoll.Buffer.{is_discarded}
use event_manager.Endpoint
use event_manager.Endpoint.{Closure, FnMsg, EventManagerChannel, call_send, send_msg, kick, recv}
use event_manager.Endpoint.Callers.{senders, call_result, recv_result}
use event_manager.Handler.{MutEventSubscriber}
use event_manager.Kernel.{Kernel}
use event_manager.Kernel.Level.{IsLevel}
use event_manager.Manager.{Machine, context, send_message}
use event_manager.Manager.Loop
use event_manager.Manager.Total.{IsPlain, AllPlain, AllQuiet}
use event_manager.Manager.Turn.{AllPlain-after, AllTame, send_msg-AllPlain}
use event_manager.Manager.Awaited.{AllSpare}
use event_manager.Manager.Wellformed.{send_message-IsWellformed}
use event_manager.Manager.Synced.{IsModestClosure}
use event_manager.Manager.InStep.{send_message-IsInStep}
use event_manager.Manager.Polled.{poll-wait, IsRunnable, ReportsInput}
use event_manager.Manager.Noticed.{polled, IsTurn, run_with_timeout-IsTurn}
use event_manager.Manager.Blocking.{IsAnswered, woken, calls, handle_endpoint_calls-IsAnswered}

module _ {os : Os} {S R : Type 0} where
  -- The manager after the `send` of `call_blocking`.
  abbrev pub called : Closure os S R → ℕ → Machine os S R → Machine os S R
  called f reply m = (send_message (record { fnbox = f; sender = some reply }) m).1

module _ {os : Os} {S R : Type 0} where
  -- What the queue is after a `send` that has succeeded.
  call_send_ok :
      (f : Closure os S R) (reply : ℕ) (m : Machine os S R)
      → (call_send f reply m.channel m.world).0 ≡ ok tt
      → ((called f reply m).channel.messages
          ≡ m.channel.messages ++ record { fnbox = f; sender = some reply } ∷ [])
        × ((called f reply m).world ≡ (os.eventfd_write m.channel.event_fd 1 m.world).1)
        × ((called f reply m).channel.replies ≡ m.channel.replies)
  unfolding call_send send_msg kick send_message
  call_send_ok f reply m sent = elim (Bool-cases m.channel.receiver_alive) [
    | inl alive ↦ rw alive (refl, refl, refl)
    | inr dead ↦ absurd (ground arith)
  ]

  -- The caller has a result that its temporary channel holds.
  call_result-received :
      (reply : ℕ) (answer : Result (Unit {0}) (Error os)) (c : EventManagerChannel os S R)
      (result : R)
      → answer ≡ ok tt
      → recv reply c ≡ some result
      → call_result answer reply c ≡ some (ok result)
  unfolding call_result recv_result
  call_result-received reply answer c result sent received =
      rw (sent, call_result, recv_result, received) refl

-- What a turn leaves. The loop over the events has ended in `dispatched`, and the queue has been
-- handled from there: the requests that were queued before the call, the closure of the caller on the
-- state that they have left, and the rest of the queue. `call_blocking` returns `Ok` with the result
-- that the closure had there.
pub record IsReturned {os : Os} {S R : Type 0} ⦃sub : MutEventSubscriber os S R S⦄
    (quiet : AllQuiet sub) (f : Closure os S R) (plain : IsPlain f) (reply ms n : ℕ)
    (m : Machine os S R) (left : Result ℕ (Error os) × Machine os S R) : Type 0 where
  pub answer : left.0 ≡ ok n
  pub endpoint_event : Option os.EpollEvent
  pub dispatched : Machine os S R
  pub looped :
      Loop.dispatch_from n 0 none (polled ms (called f reply m))
      ≡ returned (endpoint_event, dispatched)
  pub closure : IsAnswered quiet f plain reply (length m.channel.messages) (woken dispatched) left.1
  pub is_ok :
      call_result (call_send f reply m.channel m.world).0 reply left.1.channel
      ≡ some (ok closure.result)

module _ {os : Os} {S R : Type 0} ⦃sub : MutEventSubscriber os S R S⦄ (kernel : Kernel os)
    (ep : os.Epoll) (tame : AllTame sub) (quiet : AllQuiet sub) (channel_fd : RawFd)
    (f : Closure os S R) (plain : IsPlain f) (reply : ℕ) where
  called-IsRunnable :
      (m : Machine os S R)
      → IsModestClosure kernel ep f
      → IsRunnable kernel ep channel_fd m
      → IsRunnable kernel ep channel_fd (called f reply m)
  unfolding send_message
  called-IsRunnable m modest run =
      let msg : FnMsg os S R = record { fnbox = f; sender = some reply } in
      record {
        wf = send_message-IsWellformed msg m run.wf;
        in_step = send_message-IsInStep kernel ep channel_fd msg m modest run.in_step;
        plain = send_msg-AllPlain msg m.channel m.world run.plain plain;
      }

  IsTurn-IsReturned :
      (fuel ms n : ℕ) (m : Machine os S R)
      (turn : IsTurn kernel ep tame quiet channel_fd ms n (called f reply m))
      → IsRunnable kernel ep channel_fd m
      → (call_send f reply m.channel m.world).0 ≡ ok tt
      → contains (senders m.channel.messages) reply ≡ false
      → recv reply m.channel ≡ none
      → length turn.dispatched.channel.messages < fuel
      → Returns
          (IsReturned quiet f plain reply ms n m)
          (Loop.run_with_timeout fuel ms (called f reply m))
  unfolding recv
  IsTurn-IsReturned fuel ms n m turn run sent fresh missing enough =
      let (queued, _, same) = call_send_ok f reply m sent in
      let is_queue : turn.dispatched.channel.messages
          ≡ calls m.channel.messages f reply turn.extends.sent =
        turn.extends.appended
        ∙ ap (λ l. l ++ turn.extends.sent) queued
        ∙ append_assoc m.channel.messages (record { fnbox = f; sender = some reply } ∷ [])
            turn.extends.sent in
      let empty : recv reply turn.dispatched.channel ≡ none =
        ap (λ r. HashMap.get r reply) (turn.extends.same_replies ∙ same) ∙ missing in
      subst (Returns (IsReturned quiet f plain reply ms n m)) (sym (turn.handled fuel)) (
        Returns-bind
          (IsAnswered quiet f plain reply (length m.channel.messages) (woken turn.dispatched)) _
          (Loop.handle_endpoint_calls fuel turn.dispatched) _
          (handle_endpoint_calls-IsAnswered quiet f plain reply m.channel.messages turn.extends.sent
            fuel turn.dispatched is_queue run.plain
            (AllPlain-after m.channel.messages _ turn.extends.sent
              (subst AllPlain is_queue turn.plain))
            fresh empty (omega (arith, ap length is_queue, enough)))
          (λ left p. record {
            answer = refl;
            endpoint_event = turn.endpoint_event;
            dispatched = turn.dispatched;
            looped = turn.looped;
            closure = p;
            is_ok = call_result-received reply _ left.channel p.result sent p.received;
          }))

  -- The wait reports the channel's eventfd, which the caller has written to.
  record IsReported (ms n : ℕ) (m : Machine os S R) : Type 0 where
    index : ℕ
    event : os.EpollEvent
    within : index < n
    queued :
        get_elem? (Epoll.poll ms (context (called f reply m))).1.wrapper.ready_events index
        ≡ some event
    kept : is_discarded os event ≡ false
    is_fd : os.event_fd event ≡ channel_fd

  called-IsReported :
      (ms n : ℕ) (m : Machine os S R) (registered : os.EpollEvent)
      → IsLevel kernel ep m.channel.event_fd
      → IsRunnable kernel ep channel_fd m
      → kernel.interest ep m.world channel_fd ≡ some registered
      → os.event_set registered ≡ os.set_in
      → (call_send f reply m.channel m.world).0 ≡ ok tt
      → (os.epoll_wait ep ms m.epoll_context.ready_events (called f reply m).world).0 ≡ ok n
      → n < length m.epoll_context.ready_events
      → IsReported ms n m
  unfolding Endpoint.fd Epoll.poll send_message
  called-IsReported ms n m registered level run listed set sent waited room =
      let world' = (called f reply m).world in
      let written = (call_send_ok f reply m sent).1 in
      let still : kernel.interest ep world' (os.eventfd_raw m.channel.event_fd) ≡ some registered =
        ap (λ w. kernel.interest ep w (os.eventfd_raw m.channel.event_fd)) written
        ∙ kernel.write_interest ep m.channel.event_fd 1 m.world _
        ∙ ap (kernel.interest ep m.world) run.in_step.same_fd
        ∙ listed in
      let can : level.readable world' ≡ true =
        ap level.readable written ∙ level.write_readable m.world in
      let (i, ev, lt, queued, same, some_bits) =
        level.wait_readable ms m.epoll_context.ready_events world' n registered still set can waited
          room in
      record {
        index = i;
        event = ev;
        within = lt;
        queued =
            ap (λ e. get_elem? (os.epoll_wait e ms m.epoll_context.ready_events world').1 i)
              run.in_step.same_epoll
            ∙ queued;
        kept = ground (arith, some_bits);
        is_fd =
            kernel.event_laws.fd_of_data ev
            ∙ ap (λ d. d % 2 ^ 32) same
            ∙ sym (kernel.event_laws.fd_of_data registered)
            ∙ (run.in_step.in_sync channel_fd registered
                (ap (λ e. kernel.interest e m.world channel_fd) run.in_step.same_epoll ∙ listed)).0;
      }

  -- On a level-triggered epoll that behaves as documented, under the conditions on which a turn of the
  -- event loop returns, let the channel's descriptor be registered for input, be routed to no
  -- subscriber, and be added and removed by none, and let a thread call `call_blocking` with a new
  -- temporary channel and with a closure that neither panics nor sends a request, and whose effects
  -- register nothing on this instance. If its `send` succeeds, and the wait of the next turn returns
  -- with room left in its buffer, then with fuel above some bound that turn returns the number of
  -- events, and `call_blocking` returns the result that the closure had when it ran on the manager in
  -- this turn: after the loop over the events and the requests that were queued before the call, on the
  -- state that these had left. The turn goes on from the state that the closure leaves. All this holds
  -- whatever subscribers send in the turn.
  pub call_blocking-Returns :
      (ms n : ℕ) (m : Machine os S R) (registered : os.EpollEvent)
      → IsLevel kernel ep m.channel.event_fd
      → IsRunnable kernel ep channel_fd m
      → kernel.interest ep m.world channel_fd ≡ some registered
      → os.event_set registered ≡ os.set_in
      → subscriber_id m.epoll_context channel_fd ≡ none
      → AllSpare none channel_fd sub
      → IsModestClosure kernel ep f
      → (call_send f reply m.channel m.world).0 ≡ ok tt
      → contains (senders m.channel.messages) reply ≡ false
      → recv reply m.channel ≡ none
      → ReportsInput ms channel_fd (called f reply m)
      → (os.epoll_wait ep ms m.epoll_context.ready_events (called f reply m).world).0 ≡ ok n
      → n < length m.epoll_context.ready_events
      → (bound : ℕ) × ((fuel : ℕ)
          → bound < fuel
          → Returns
              (IsReturned quiet f plain reply ms n m)
              (Loop.run_with_timeout fuel ms (called f reply m)))
  unfolding send_message
  call_blocking-Returns ms n m registered level run listed set unrouted spare modest sent fresh
        missing input waited room =
      let reported = called-IsReported ms n m registered level run listed set sent waited room in
      let waited' =
        ap (λ e. (os.epoll_wait e ms m.epoll_context.ready_events (called f reply m).world).0)
          run.in_step.same_epoll
        ∙ waited in
      let turn =
        run_with_timeout-IsTurn kernel ep tame quiet channel_fd reported.index ms n reported.event
          (called f reply m) input (called-IsRunnable m modest run)
          (poll-wait ms n (called f reply m) waited') reported.within reported.queued reported.kept
          reported.is_fd unrouted spare in
      (
        length turn.dispatched.channel.messages,
        λ fuel enough. IsTurn-IsReturned fuel ms n m turn run sent fresh missing enough,
      )
