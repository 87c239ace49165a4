-- ===== src/Manager/InStep.antt =====
-- The operations of the manager and its event loop, and the interest list of epoll.
use event_manager.Prelude.{
  ℕ, ◌≡◌, Option, none, some, List, ◌∷◌, Ensures, Ensures-bind, Ensures-map, subst,
}
use event_manager.Os.{Os, RawFd}
use event_manager.Events.{Events, with_inner}
use event_manager.Epoll.{SubscriberId, subscriber_id}
use event_manager.EventOps.{Request, ops_unchecked}
use event_manager.Subscribers
use event_manager.Endpoint
use event_manager.Endpoint.{Closure, FnMsg, reply_to}
use event_manager.Handler.{Handler, MutEventSubscriber, run_handler}
use event_manager.Kernel.{Kernel, IsUnshared}
use event_manager.Kernel.Synced.{fewer-InSync}
use event_manager.Manager.Cases.{
  remove_subscriber_cases, subscriber_mut-Ensures, event_ops_request_cases,
}
use event_manager.Manager.{
  Machine, context, with_subscribers, with_channel, scope, after_handler, remove_subscriber,
  subscriber_mut, event_ops_request, send_message,
}
use event_manager.Manager.Loop
use event_manager.Manager.Rules.{dispatch_events-Ensures}
use event_manager.Manager.Kept.{get-add_self}
use event_manager.Manager.Synced.{
  IsModestClosure, IsModestHandler, AllModest, IsInStep, run_handler-IsSynced, remove-IsSynced,
  perform-IsSynced, send_msg-IsSynced, changed-IsSynced,
}

-- No subscriber registers descriptors on the epoll instance but through its `EventOps`.
pub record AllModestHandlers {os : Os} {S R : Type 0} (kernel : Kernel os) (ep : os.Epoll)
    (sub : MutEventSubscriber os S R S) : Type 0 where
  pub modest_process : (t : S) (e : Events os) → IsModestHandler kernel ep (sub.process t e)
  pub modest_init : (t : S) → IsModestHandler kernel ep (sub.init t)

module _ {os : Os} {S R : Type 0} (kernel : Kernel os) (ep : os.Epoll) (channel_fd : RawFd) where
  abbrev InStep : Machine os S R → Type 0
  InStep = IsInStep kernel ep channel_fd

  pub handled-IsInStep :
      (h : Handler os S R S) (m : Machine os S R) (id : SubscriberId)
      → IsModestHandler kernel ep h
      → InStep m
      → Ensures (λ left. InStep (after_handler m id left)) (run_handler h (scope m id))
  unfolding ops_unchecked
  handled-IsInStep h m id modest synced =
      run_handler-IsSynced kernel ep channel_fd h (scope m id) modest synced

  pub remove_subscriber-IsInStep :
      IsUnshared kernel ep
      → (id : SubscriberId) (m : Machine os S R) → InStep m
      → InStep (remove_subscriber id m).1
  remove_subscriber-IsInStep unshared id m synced =
      remove_subscriber_cases id m (λ left. InStep left.1) (λ _. synced)
        (λ _ _. remove-IsSynced kernel ep channel_fd unshared id (context m) m.channel synced)

  pub subscriber_mut-IsInStep :
      (id : SubscriberId) (change : S → S) (m : Machine os S R)
      → InStep m
      → Ensures (λ left. InStep left.1) (subscriber_mut id change m)
  subscriber_mut-IsInStep id change m synced =
      subscriber_mut-Ensures id m InStep change synced (λ _ _. synced)

  pub event_ops_request-IsInStep :
      (id : SubscriberId) (r : Request os) (m : Machine os S R)
      → InStep m
      → InStep (event_ops_request id r m).1
  unfolding ops_unchecked
  event_ops_request-IsInStep id r m synced =
      event_ops_request_cases id m (λ left. InStep left.1) r (λ _. synced)
        (λ _ _.
          perform-IsSynced kernel ep channel_fd r (ops_unchecked (context m) id) m.channel synced)

  pub send_message-IsInStep :
      (msg : FnMsg os S R) (m : Machine os S R)
      → IsModestClosure kernel ep msg.fnbox
      → InStep m
      → InStep (send_message msg m).1
  unfolding send_message
  send_message-IsInStep msg m modest synced =
      send_msg-IsSynced kernel ep channel_fd msg (context m) m.channel modest synced

  pub drained-IsInStep :
      (m : Machine os S R)
      → InStep m
      → InStep (record m { world = (os.eventfd_read m.channel.event_fd m.world).1 })
  unfolding subscriber_id
  drained-IsInStep m synced = record {
    same_epoll = synced.same_epoll;
    same_fd = synced.same_fd;
    in_sync =
        fewer-InSync kernel channel_fd m.epoll_context m.world _
          (λ fd ev.
            rw (kernel.read_interest m.epoll_context.epoll m.channel.event_fd m.world fd) (λ e. e))
          synced.in_sync;
    modest = synced.modest;
  }

module _ {os : Os} {S R : Type 0} ⦃sub : MutEventSubscriber os S R S⦄ (kernel : Kernel os)
    (ep : os.Epoll) (unshared : IsUnshared kernel ep) (modest : AllModestHandlers kernel ep sub)
    (channel_fd : RawFd) where
  abbrev Keeps : Machine os S R → Type 0
  Keeps = IsInStep kernel ep channel_fd

  pub add_subscriber-IsInStep :
      (t : S) (m : Machine os S R)
      → Keeps m
      → Ensures (λ left. Keeps left.1) (Loop.add_subscriber t m)
  unfolding Loop.add_subscriber Subscribers.get_mut_unchecked
  add_subscriber-IsInStep t m synced =
      let (id, subscribers') = Subscribers.add t m.subscribers in
      let m' = with_subscribers m subscribers' in
      rw (get-add_self t m.subscribers, Loop.add_subscriber)
        (Ensures-bind _ _ (run_handler (sub.init t) (scope m' id)) _
          (handled-IsInStep kernel ep channel_fd (sub.init t) m' id (modest.modest_init t) synced)
          (λ left p. p))

  -- Where no closed descriptor stays registered, because no duplicate outlives it, and where neither a
  -- remote closure nor a subscriber registers anything but through `EventOps`, the closure, whatever
  -- it calls, leaves every registration on the interest list of epoll routed to a subscriber or the
  -- channel's, if that was so before.
  pub run_closure-IsInStep :
      (c : Closure os S R) (m : Machine os S R)
      → IsModestClosure kernel ep c
      → Keeps m
      → Ensures (λ left. Keeps left.1) (Loop.run_closure c m)
  unfolding Loop.run_closure
  run_closure-IsInStep (Closure.done r) m plain synced = synced
  run_closure-IsInStep Closure.panics m plain synced = tt
  run_closure-IsInStep (Closure.add_subscriber t k) m plain synced =
      Ensures-bind (λ left. Keeps left.1) _ (Loop.add_subscriber t m) _
        (add_subscriber-IsInStep t m synced)
        (λ left p. run_closure-IsInStep (k left.0) left.1 (plain left.0) p)
  run_closure-IsInStep (Closure.remove_subscriber id k) m plain synced =
      run_closure-IsInStep (k _) _ (plain _)
        (remove_subscriber-IsInStep kernel ep channel_fd unshared id m synced)
  run_closure-IsInStep (Closure.subscriber_mut id change k) m plain synced =
      Ensures-bind (λ left. Keeps left.1) _ (subscriber_mut id change m) _
        (subscriber_mut-IsInStep kernel ep channel_fd id change m synced)
        (λ left p. run_closure-IsInStep (k left.0) left.1 (plain left.0) p)
  run_closure-IsInStep (Closure.event_ops id r k) m plain synced =
      run_closure-IsInStep (k _) _ (plain _)
        (event_ops_request-IsInStep kernel ep channel_fd id r m synced)
  run_closure-IsInStep (Closure.send f reply k) m plain synced =
      run_closure-IsInStep (k _) _ (plain.1 _) (
        send_message-IsInStep kernel ep channel_fd (record { fnbox = f; sender = reply }) m plain.0
          synced)
  run_closure-IsInStep (Closure.effect change k) m plain synced =
      run_closure-IsInStep (k m.world) _ (plain.1 m.world)
        (changed-IsSynced kernel ep channel_fd change (context m) m.channel plain.0 synced)

  reply_to-IsInStep :
      (sender : Option ℕ) (result : R) (m : Machine os S R)
      → Keeps m
      → Keeps (with_channel m (reply_to sender result m.channel))
  unfolding reply_to Endpoint.fd
  reply_to-IsInStep none result m synced = synced
  reply_to-IsInStep (some reply) result m synced = record {
    same_epoll = synced.same_epoll;
    same_fd = synced.same_fd;
    in_sync = synced.in_sync;
    modest = synced.modest;
  }

  called-IsInStep :
      (msg : FnMsg os S R) (rest : List (FnMsg os S R)) (m : Machine os S R)
      → m.channel.messages ≡ msg ∷ rest
      → Keeps m
      → Ensures
          (λ left. Keeps (with_channel left.1 (reply_to msg.sender left.0 left.1.channel)))
          (Loop.run_closure msg.fnbox (with_channel m (record (m.channel) { messages = rest })))
  unfolding Endpoint.fd
  called-IsInStep msg rest m queued synced =
      let queue = subst (AllModest kernel ep) queued synced.modest in
      Ensures-map _ _ (Loop.run_closure msg.fnbox _)
        (λ left. reply_to-IsInStep msg.sender left.0 left.1)
        (run_closure-IsInStep msg.fnbox _ queue.0 (record {
          same_epoll = synced.same_epoll;
          same_fd = synced.same_fd;
          in_sync = synced.in_sync;
          modest = queue.1;
        }))

  -- So does `dispatch_events`, through every handler and every remote closure.
  pub dispatch_events-IsInStep :
      (fuel event_count : ℕ) (m : Machine os S R)
      → Keeps m
      → Ensures Keeps (Loop.dispatch_events fuel event_count m)
  dispatch_events-IsInStep =
      dispatch_events-Ensures Keeps
        (λ t event id m _.
          handled-IsInStep kernel ep channel_fd (sub.process t (with_inner event)) m id
            (modest.modest_process t (with_inner event)))
        called-IsInStep (drained-IsInStep kernel ep channel_fd)
