-- ===== src/Manager/Typed/Run.antt =====
-- Turns of the event loop, and the types of what they send back.
use event_manager.Prelude.{
  ℕ, ◌≡◌, sym, subst, List, ◌∷◌, Ensures, Ensures-bind, Ensures-map, Returns-Ensures,
}
use event_manager.Os.{Os}
use event_manager.Epoll.{SubscriberId}
use event_manager.Events.{with_inner}
use event_manager.Subscribers
use event_manager.Endpoint.{Closure, FnMsg, reply_to}
use event_manager.Endpoint.Erased.{Types, ErasedResult, sent_type}
use event_manager.Handler.{Handler, MutEventSubscriber, run_handler}
use event_manager.Manager.{
  Machine, scope, with_subscribers, with_channel, after_handler, remove_subscriber, subscriber_mut,
  event_ops_request, send_message,
}
use event_manager.Manager.Loop
use event_manager.Manager.Kept.{get-add_self}
use event_manager.Manager.Rules.{run_with_timeout-Ensures}
use event_manager.Manager.Total.{
  remove_subscriber-channel, subscriber_mut-channel, event_ops_request-channel,
}
use event_manager.Manager.Typed.{
  Yields, AllMessages, IsTyped, AllTypedHandlers, send_msg-IsTyped, reply_to-IsTyped,
  run_handler-IsTyped, IsTypedHandler,
}

module _ (types : Types) (result_type : ℕ → types.Code) {os : Os} {S : Type 0}
    ⦃sub : MutEventSubscriber os S (ErasedResult types) S⦄
    (typed : AllTypedHandlers types result_type sub) where
  abbrev Typed : Machine os S (ErasedResult types) → Type 0
  Typed m = IsTyped types result_type m.channel

  handled-IsTyped :
      (h : Handler os S (ErasedResult types) S) (m : Machine os S (ErasedResult types))
      (id : SubscriberId)
      → IsTypedHandler types result_type h
      → Typed m
      → Ensures (λ left. Typed (after_handler m id left)) (run_handler h (scope m id))
  handled-IsTyped h m id is_typed all =
      run_handler-IsTyped types result_type h (scope m id) is_typed all

  pub add_subscriber-IsTyped :
      (t : S) (m : Machine os S (ErasedResult types))
      → Typed m
      → Ensures (λ left. Typed left.1) (Loop.add_subscriber t m)
  unfolding Loop.add_subscriber Subscribers.get_mut_unchecked
  add_subscriber-IsTyped t m all =
      let (id, subscribers') = Subscribers.add t m.subscribers in
      let m' = with_subscribers m subscribers' in
      rw (get-add_self t m.subscribers, Loop.add_subscriber)
        (Ensures-bind _ _ (run_handler (sub.init t) (scope m' id)) _
          (handled-IsTyped (sub.init t) m' id (typed.typed_init t) all) (λ left p. p))

  pub same_channel :
      (m m' : Machine os S (ErasedResult types)) → m'.channel ≡ m.channel → Typed m → Typed m'
  same_channel m m' same all = subst (IsTyped types result_type) (sym same) all

  -- A closure returns a value of its type.
  run_closure-IsTyped :
      (code : types.Code) (c : Closure os S (ErasedResult types))
      (m : Machine os S (ErasedResult types))
      → Yields types result_type code c
      → Typed m
      → Ensures (λ left. (left.0.0 ≡ code) × Typed left.1) (Loop.run_closure c m)
  unfolding Loop.run_closure send_message
  run_closure-IsTyped code (Closure.done r) m yields all = (yields, all)
  run_closure-IsTyped code Closure.panics m yields all = tt
  run_closure-IsTyped code (Closure.add_subscriber t k) m yields all =
      Ensures-bind (λ left. Typed left.1) _ (Loop.add_subscriber t m) _
        (add_subscriber-IsTyped t m all)
        (λ left p. run_closure-IsTyped code (k left.0) left.1 (yields left.0) p)
  run_closure-IsTyped code (Closure.remove_subscriber id k) m yields all =
      run_closure-IsTyped code (k _) _ (yields _)
        (same_channel m (remove_subscriber id m).1 (remove_subscriber-channel id m) all)
  run_closure-IsTyped code (Closure.subscriber_mut id change k) m yields all =
      Ensures-bind (λ left. left.1.channel ≡ m.channel) _ (subscriber_mut id change m) _
        (Returns-Ensures _ (subscriber_mut id change m) (subscriber_mut-channel id change m))
        (λ left p.
          run_closure-IsTyped code (k left.0) left.1 (yields left.0) (same_channel m left.1 p all))
  run_closure-IsTyped code (Closure.event_ops id r k) m yields all =
      run_closure-IsTyped code (k _) _ (yields _)
        (same_channel m (event_ops_request id r m).1 (event_ops_request-channel id r m) all)
  run_closure-IsTyped code (Closure.send f reply k) m yields all =
      run_closure-IsTyped code (k _) _ (yields.1 _) (
        send_msg-IsTyped types result_type (record { fnbox = f; sender = reply }) m.channel m.world
          yields.0 all)
  run_closure-IsTyped code (Closure.effect change k) m yields all =
      run_closure-IsTyped code (k m.world) _ (yields m.world) all

  called-IsTyped :
      (msg : FnMsg os S (ErasedResult types)) (rest : List (FnMsg os S (ErasedResult types)))
      (m : Machine os S (ErasedResult types))
      → m.channel.messages ≡ msg ∷ rest
      → Typed m
      → Ensures
          (λ left. Typed (with_channel left.1 (reply_to msg.sender left.0 left.1.channel)))
          (Loop.run_closure msg.fnbox (with_channel m (record (m.channel) { messages = rest })))
  called-IsTyped msg rest m queued all =
      let queue = subst (AllMessages types result_type) queued all.messages in
      Ensures-map _ _ (Loop.run_closure msg.fnbox _)
        (λ left p. reply_to-IsTyped types result_type msg.sender left.0 left.1.channel p.0 p.1)
        (run_closure-IsTyped (sent_type types result_type msg.sender) msg.fnbox _ queue.0
          (record { messages = queue.1; replies = all.replies }))

  pub run_with_timeout-IsTyped :
      (fuel ms : ℕ) (m : Machine os S (ErasedResult types))
      → Typed m
      → Ensures (λ left. Typed left.1) (Loop.run_with_timeout fuel ms m)
  run_with_timeout-IsTyped fuel ms m all =
      run_with_timeout-Ensures Typed
        (λ t event id m' _.
          handled-IsTyped (sub.process t (with_inner event)) m' id
            (typed.typed_process t (with_inner event)))
        called-IsTyped (λ m' p. p) fuel ms m all
