-- ===== src/Manager/Total.antt =====
-- Requests that neither panic nor send further requests, and the fuel of `handle_endpoint_calls`.
use event_manager.Prelude.{
  ℕ, zero, suc, ◌<◌, ◌≡◌, refl, sym, ap, ◌∙◌, List, [], ◌∷◌, ◌++◌, Outcome, Result, Returns,
  Returns-bind, Returns-map, arith, length, subst,
}
use mathlib.Core.List.{append-nil, append_assoc}
use event_manager.Os.{Os}
use event_manager.Error.{Error}
use event_manager.Epoll.{SubscriberId}
use event_manager.EventOps.{Request}
use event_manager.Subscribers
use event_manager.Endpoint.{Closure, FnMsg, EventManagerChannel}
use event_manager.Handler.{Handler, MutEventSubscriber, Scope, run_handler}
use event_manager.Manager.Cases.{
  remove_subscriber_cases, subscriber_mut_cases, event_ops_request_cases,
}
use event_manager.Manager.{
  Machine, with_subscribers, scope, remove_subscriber, subscriber_mut, event_ops_request,
}
use event_manager.Manager.Loop
use event_manager.Manager.Kept.{get-add_self}
use event_manager.Endpoint.Callers.{senders, answered}
use event_manager.Manager.Remote.{answered-reply_to, messages-reply_to}

-- A handler that does not panic and sends nothing.
abbrev pub IsQuiet : {os : Os} {S R A : Type 0} → Handler os S R A → Type 0
IsQuiet (Handler.done a) = Unit
IsQuiet Handler.panics = ⊥
IsQuiet {os} (Handler.request r k) = (x : Result (Unit {0}) (Error os)) → IsQuiet (k x)
IsQuiet (Handler.send f reply k) = ⊥
IsQuiet {os} (Handler.effect change k) = (w : os.World) → IsQuiet (k w)

-- A closure that does not panic and sends nothing.
abbrev pub IsPlain : {os : Os} {S R : Type 0} → Closure os S R → Type 0
IsPlain (Closure.done r) = Unit
IsPlain Closure.panics = ⊥
IsPlain (Closure.add_subscriber t k) = (id : SubscriberId) → IsPlain (k id)
IsPlain {os} {S} (Closure.remove_subscriber id k) = (x : Result S (Error os)) → IsPlain (k x)
IsPlain {os} {S} (Closure.subscriber_mut id change k) = (x : Result S (Error os)) → IsPlain (k x)
IsPlain {os} (Closure.event_ops id r k) = (x : Result (Unit {0}) (Error os)) → IsPlain (k x)
IsPlain (Closure.send f reply k) = ⊥
IsPlain {os} (Closure.effect change k) = (w : os.World) → IsPlain (k w)

abbrev pub AllPlain : {os : Os} {S R : Type 0} → List (FnMsg os S R) → Type 0
AllPlain [] = Unit
AllPlain (msg ∷ msgs) = IsPlain msg.fnbox × AllPlain msgs

-- The `init` of every subscriber is quiet.
abbrev pub AllQuiet : {os : Os} {S R : Type 0} → MutEventSubscriber os S R S → Type 0
AllQuiet {os} {S} sub = (t : S) → IsQuiet (sub.init t)

module _ {os : Os} {S R : Type 0} where
  run_handler-IsQuiet :
      {A : Type 0} (h : Handler os S R A) (self : Scope os S R)
      → IsQuiet h
      → Returns (λ left. left.1.channel ≡ self.channel) (run_handler h self)
  unfolding run_handler
  run_handler-IsQuiet (Handler.done a) self quiet = refl
  run_handler-IsQuiet Handler.panics self quiet = quiet
  run_handler-IsQuiet (Handler.request r k) self quiet = run_handler-IsQuiet (k _) _ (quiet _)
  run_handler-IsQuiet (Handler.send f reply k) self quiet = absurd quiet
  run_handler-IsQuiet (Handler.effect change k) self quiet = run_handler-IsQuiet (k _) _ (quiet _)

  pub remove_subscriber-channel :
      (id : SubscriberId) (m : Machine os S R) → (remove_subscriber id m).1.channel ≡ m.channel
  remove_subscriber-channel id m =
      remove_subscriber_cases id m (λ left. left.1.channel ≡ m.channel) (λ _. refl) (λ _ _. refl)

  pub subscriber_mut-channel :
      (id : SubscriberId) (change : S → S) (m : Machine os S R)
      → Returns (λ left. left.1.channel ≡ m.channel) (subscriber_mut id change m)
  subscriber_mut-channel id change m =
      subscriber_mut_cases id m (λ left. left.1.channel ≡ m.channel) change (λ _. refl)
        (λ _ _. refl)

  pub event_ops_request-channel :
      (id : SubscriberId) (r : Request os) (m : Machine os S R)
      → (event_ops_request id r m).1.channel ≡ m.channel
  event_ops_request-channel id r m =
      event_ops_request_cases id m (λ left. left.1.channel ≡ m.channel) r (λ _. refl) (λ _ _. refl)

-- The queue is empty, and each blocking caller among `l` has been answered, in the order of `l`.
abbrev pub Drained :
    {os : Os} {S R : Type 0} → List (FnMsg os S R) → Machine os S R → Machine os S R → Type 0
Drained l m m' =
    (m'.channel.messages ≡ []) × (answered m'.channel ≡ answered m.channel ++ senders l)

module _ {os : Os} {S R : Type 0} ⦃sub : MutEventSubscriber os S R S⦄ (quiet : AllQuiet sub) where
  pub add_subscriber-channel :
      (t : S) (m : Machine os S R)
      → Returns (λ left. left.1.channel ≡ m.channel) (Loop.add_subscriber t m)
  unfolding Loop.add_subscriber Subscribers.get_mut_unchecked
  add_subscriber-channel t m =
      let (id, subscribers') = Subscribers.add t m.subscribers in
      let m' = with_subscribers m subscribers' in
      rw (get-add_self t m.subscribers, Loop.add_subscriber)
        (Returns-bind _ _ (run_handler (sub.init t) (scope m' id)) _
          (run_handler-IsQuiet (sub.init t) (scope m' id) (quiet t)) (λ left p. p))

  then_channel :
      (c : EventManagerChannel os S R) (o : Outcome (R × Machine os S R))
      {d : EventManagerChannel os S R}
      → d ≡ c
      → Returns (λ left. left.1.channel ≡ d) o
      → Returns (λ left. left.1.channel ≡ c) o
  then_channel c o e p = subst (λ d. Returns (λ left. left.1.channel ≡ d) o) e p

  pub run_closure-IsPlain :
      (c : Closure os S R) (m : Machine os S R)
      → IsPlain c
      → Returns (λ left. left.1.channel ≡ m.channel) (Loop.run_closure c m)
  unfolding Loop.run_closure
  run_closure-IsPlain (Closure.done r) m plain = refl
  run_closure-IsPlain Closure.panics m plain = plain
  run_closure-IsPlain (Closure.add_subscriber t k) m plain =
      Returns-bind (λ left. left.1.channel ≡ m.channel) _ (Loop.add_subscriber t m) _
        (add_subscriber-channel t m)
        (λ left p.
          then_channel m.channel (Loop.run_closure (k left.0) left.1) p
            (run_closure-IsPlain (k left.0) left.1 (plain left.0)))
  run_closure-IsPlain (Closure.remove_subscriber id k) m plain =
      then_channel m.channel (Loop.run_closure (k _) _) (remove_subscriber-channel id m)
        (run_closure-IsPlain (k _) _ (plain _))
  run_closure-IsPlain (Closure.subscriber_mut id change k) m plain =
      Returns-bind (λ left. left.1.channel ≡ m.channel) _ (subscriber_mut id change m) _
        (subscriber_mut-channel id change m)
        (λ left p.
          then_channel m.channel (Loop.run_closure (k left.0) left.1) p
            (run_closure-IsPlain (k left.0) left.1 (plain left.0)))
  run_closure-IsPlain (Closure.event_ops id r k) m plain =
      then_channel m.channel (Loop.run_closure (k _) _) (event_ops_request-channel id r m)
        (run_closure-IsPlain (k _) _ (plain _))
  run_closure-IsPlain (Closure.send f reply k) m plain = absurd plain
  run_closure-IsPlain (Closure.effect change k) m plain =
      run_closure-IsPlain (k m.world) _ (plain _)

  receive_all-Returns :
      (fuel : ℕ) (m : Machine os S R) (l : List (FnMsg os S R))
      → m.channel.messages ≡ l
      → AllPlain l
      → length l < fuel
      → Returns (Drained l m) (Loop.receive_all fuel m)
  unfolding Loop.receive_all
  receive_all-Returns zero m l queued plain enough = absurd (omega arith)
  receive_all-Returns (suc fuel) m [] queued plain enough =
      rw (queued, Loop.receive_all) (queued, sym (append-nil _))
  receive_all-Returns (suc fuel) m (msg ∷ rest) queued plain enough =
      rw (queued, Loop.receive_all)
        (Returns-bind (λ left. left.1.channel ≡ record (m.channel) { messages = rest }) _
          (Loop.run_closure msg.fnbox _) _ (run_closure-IsPlain msg.fnbox _ plain.0)
          (λ left p.
            Returns-map _ _ (Loop.receive_all fuel _)
              (λ m' q. (
                q.0,
                q.1
                    ∙ simp (
                      answered-reply_to msg.sender left.0 left.1.channel,
                      ap answered p,
                      append_assoc,
                    ),
              ))
              (receive_all-Returns fuel _ rest
                (messages-reply_to msg.sender left.0 left.1.channel ∙ ap (λ c. c.messages) p)
                plain.1 (omega arith))))

  -- If no queued request panics or sends a request, and no `init` does, then fuel for one round more
  -- than there are requests is enough: `handle_endpoint_calls` returns, the queue is empty, and each
  -- blocking caller has been answered once, in the order of the requests.
  pub handle_endpoint_calls-Returns :
      (fuel : ℕ) (m : Machine os S R)
      → AllPlain m.channel.messages
      → length m.channel.messages < fuel
      → Returns (Drained m.channel.messages m) (Loop.handle_endpoint_calls fuel m)
  unfolding Loop.handle_endpoint_calls
  handle_endpoint_calls-Returns fuel m all enough =
      receive_all-Returns fuel _ m.channel.messages refl all enough
