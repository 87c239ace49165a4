-- ===== src/Manager/Kept.antt =====
-- The invariant of the manager in the event loop, every handler and every remote closure.
use event_manager.Prelude.{ℕ, ◌≡◌, some, Ensures, Ensures-bind, Ensures-map, List, arith}
use event_manager.Prelude.HashMap
use event_manager.Os.{Os}
use event_manager.Epoll
use event_manager.Epoll.{SubscriberId, subscriber_id, watched}
use event_manager.Events.{with_inner}
use event_manager.Subscribers
use event_manager.Subscribers.{Subscribers}
use event_manager.Subscribers.Identifiers.{get-add}
use event_manager.Endpoint.{Closure, FnMsg, reply_to}
use event_manager.Handler.{MutEventSubscriber, run_handler}
use event_manager.Manager.{Machine, with_subscribers, with_channel, after_handler, scope}
use event_manager.Manager.Rules.{
  run_closure-Ensures, dispatch_events-Ensures, run_with_timeout-Ensures,
}
use event_manager.Manager.Loop
use event_manager.Manager.Wellformed.{
  IsWellformed, handled-IsWellformed, add-IsLive, remove_subscriber-IsWellformed,
  event_ops_request-IsWellformed, subscriber_mut-IsWellformed, send_message-IsWellformed,
}

-- The subscriber that `add` has stored is found under its identifier.
pub get-add_self :
    {S : Type 0} (t : S) (subs : Subscribers S)
    → HashMap.get (Subscribers.add t subs).1.subscribers (Subscribers.add t subs).0 ≡ some t
unfolding Subscribers.add
get-add_self t subs = ground (arith, get-add t subs subs.next_id)

module _ {os : Os} {S R : Type 0} ⦃sub : MutEventSubscriber os S R S⦄ where
  -- Adding a subscriber keeps the manager well-formed, whatever its `init` registers.
  pub add_subscriber-IsWellformed :
      (t : S) (m : Machine os S R)
      → IsWellformed m
      → Ensures (λ left. IsWellformed left.1) (Loop.add_subscriber t m)
  unfolding Loop.add_subscriber Subscribers.get_mut_unchecked
  add_subscriber-IsWellformed t m wf =
      let (id, subscribers') = Subscribers.add t m.subscribers in
      let m' = with_subscribers m subscribers' in
      rw (get-add_self t m.subscribers, Loop.add_subscriber)
        (Ensures-bind _ _ (run_handler (sub.init t) (scope m' id)) _
          (handled-IsWellformed (sub.init t) m' id (rw (get-add_self t m.subscribers)) (record {
            consistent = wf.consistent;
            live = add-IsLive m.subscribers t m.epoll_context wf.live;
          }))
          (λ left p. p))

  -- A remote closure keeps the manager well-formed, whatever it calls.
  pub run_closure-IsWellformed :
      (c : Closure os S R) (m : Machine os S R)
      → IsWellformed m
      → Ensures (λ left. IsWellformed left.1) (Loop.run_closure c m)
  run_closure-IsWellformed =
      run_closure-Ensures IsWellformed add_subscriber-IsWellformed remove_subscriber-IsWellformed
        subscriber_mut-IsWellformed event_ops_request-IsWellformed send_message-IsWellformed
        (λ m world wf. record { consistent = wf.consistent; live = wf.live })

  processed-IsWellformed :
      (t : S) (event : os.EpollEvent) (id : SubscriberId) (m : Machine os S R)
      → HashMap.get m.subscribers.subscribers id ≡ some t
      → IsWellformed m
      → Ensures
          (λ left. IsWellformed (after_handler m id left))
          (run_handler (sub.process t (with_inner event)) (scope m id))
  processed-IsWellformed t event id m found wf =
      handled-IsWellformed (sub.process t (with_inner event)) m id (rw found) wf

  called-IsWellformed :
      (msg : FnMsg os S R) (rest : List (FnMsg os S R)) (m : Machine os S R)
      → IsWellformed m
      → Ensures
          (λ left. IsWellformed (with_channel left.1 (reply_to msg.sender left.0 left.1.channel)))
          (Loop.run_closure msg.fnbox (with_channel m (record (m.channel) { messages = rest })))
  called-IsWellformed msg rest m wf =
      Ensures-map _ _ (Loop.run_closure msg.fnbox _)
        (λ left p. record { consistent = p.consistent; live = p.live })
        (run_closure-IsWellformed msg.fnbox _
          (record { consistent = wf.consistent; live = wf.live }))

  pub dispatch_events-IsWellformed :
      (fuel event_count : ℕ) (m : Machine os S R)
      → IsWellformed m
      → Ensures IsWellformed (Loop.dispatch_events fuel event_count m)
  dispatch_events-IsWellformed =
      dispatch_events-Ensures IsWellformed processed-IsWellformed
        (λ msg rest m _. called-IsWellformed msg rest m)
        (λ m wf. record { consistent = wf.consistent; live = wf.live })

  -- One turn of the event loop keeps the manager well-formed, whatever the poll reports, whatever the
  -- subscribers do to their watch lists, and whatever the remote closures call.
  pub run_with_timeout-IsWellformed :
      (fuel milliseconds : ℕ) (m : Machine os S R)
      → IsWellformed m
      → Ensures (λ left. IsWellformed left.1) (Loop.run_with_timeout fuel milliseconds m)
  unfolding Epoll.poll subscriber_id watched
  run_with_timeout-IsWellformed fuel milliseconds m wf =
      run_with_timeout-Ensures IsWellformed processed-IsWellformed
        (λ msg rest m _. called-IsWellformed msg rest m)
        (λ m wf. record { consistent = wf.consistent; live = wf.live }) fuel milliseconds m
        (record { consistent = wf.consistent; live = wf.live })
