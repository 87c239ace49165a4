-- ===== src/Manager/Sent.antt =====
-- What handlers and remote closures send, by what they ask for: a list of messages that is described
-- without the queue.
use event_manager.Prelude.{
  ℕ, zero, suc, ◌+◌, ◌≡◌, refl, sym, ap, ◌∙◌, true, false, Option, none, some, List, [], ◌∷◌, ◌++◌,
  Outcome, returned, panicked, unfinished, Ensures, Ensures-bind, Ensures-map, Bool-cases,
  Option-cases, List-cases, inl, inr, if◌then◌else◌, get_elem?, ◌==◌,
}
use mathlib.Core.List.{append_assoc, append-nil}
pub mod Appended
use event_manager.Prelude.HashMap
use event_manager.Os.{Os}
use event_manager.Events.{with_inner}
use event_manager.Epoll.{subscriber_id}
use event_manager.Epoll.Buffer.{is_discarded}
use event_manager.EventOps.{perform, with_world}
use event_manager.Subscribers
use event_manager.Endpoint
use event_manager.Endpoint.{Closure, FnMsg, EventManagerChannel, send_msg, reply_to}
use event_manager.Handler.{Handler, MutEventSubscriber, Scope, run_handler}
use event_manager.Manager.{
  Machine, with_subscribers, with_channel, scope, after_handler, remove_subscriber, subscriber_mut,
  event_ops_request, send_message,
}
use event_manager.Manager.Loop
use event_manager.Manager.Kept.{get-add_self}

-- The messages of a queue while the receiving end is alive.
abbrev pub accepted :
    {os : Os} {S R : Type 0} → EventManagerChannel os S R → FnMsg os S R → List (FnMsg os S R)
accepted channel msg = if channel.receiver_alive then msg ∷ [] else []

module _ {os : Os} {S R : Type 0} where
  -- The messages that a handler sends when it runs in a scope.
  unfoldable pub sent_by : {A : Type 0} → Handler os S R A → Scope os S R → List (FnMsg os S R)
  sent_by (Handler.done a) self = []
  sent_by Handler.panics self = []
  sent_by (Handler.request r k) self =
      sent_by (k (perform r self.ops).0) (record self { ops = (perform r self.ops).1 })
  sent_by (Handler.send f reply k) self =
      let msg : FnMsg os S R = record { fnbox = f; sender = reply } in
      let (answer, channel', world') = send_msg msg self.channel self.world in
      accepted self.channel msg
      ++ sent_by (k answer) (record { ops = with_world self.ops world'; channel = channel' })
  sent_by (Handler.effect change k) self =
      sent_by (k self.world) (record self { ops = with_world self.ops (change self.world) })

  pub messages-send_msg :
      (msg : FnMsg os S R) (c : EventManagerChannel os S R) (world : os.World)
      → (send_msg msg c world).1.messages ≡ c.messages ++ accepted c msg
  unfolding send_msg
  messages-send_msg msg c world = elim (Bool-cases c.receiver_alive) [
    | inl alive ↦ rw alive refl
    | inr dropped ↦ rw dropped (sym (append-nil c.messages))
  ]

  -- They are what the handler appends to the queue.
  pub run_handler-sent :
      {A : Type 0} (h : Handler os S R A) (self : Scope os S R)
      → Ensures
          (λ left. left.1.channel.messages ≡ self.channel.messages ++ sent_by h self)
          (run_handler h self)
  unfolding run_handler sent_by
  run_handler-sent (Handler.done a) self = sym (append-nil self.channel.messages)
  run_handler-sent Handler.panics self = tt
  run_handler-sent (Handler.request r k) self = run_handler-sent (k _) _
  run_handler-sent (Handler.send f reply k) self =
      let msg : FnMsg os S R = record { fnbox = f; sender = reply } in
      let next = send_msg msg self.channel self.world in
      let self' : Scope os S R = record { ops = with_world self.ops next.2; channel = next.1 } in
      Ensures-map _ _ (run_handler (k _) _)
        (λ left p.
          p
          ∙ ap (λ l. l ++ sent_by (k next.0) self') (messages-send_msg msg self.channel self.world)
          ∙ append_assoc self.channel.messages (accepted self.channel msg) _)
        (run_handler-sent (k _) _)
  run_handler-sent (Handler.effect change k) self = run_handler-sent (k _) _

module _ {os : Os} {S R : Type 0} ⦃sub : MutEventSubscriber os S R S⦄ where
  -- The messages that the `process` called for an event sends.
  unfoldable pub sent_at : os.EpollEvent → Machine os S R → List (FnMsg os S R)
  unfolding sent_by
  sent_at ev m =
      if is_discarded os ev then [] else (elim (subscriber_id m.epoll_context (os.event_fd ev)) [
        | none ↦ []
        | some id ↦ elim (HashMap.get m.subscribers.subscribers id) [
          | none ↦ []
          | some t ↦ sent_by (sub.process t (with_inner ev)) (scope m id)
        ]
      ])

  -- What goes on with the result of code that has returned.
  unfoldable pub sent_after :
      {A : Type 0} → Outcome A → (A → List (FnMsg os S R)) → List (FnMsg os S R)
  sent_after (returned a) k = k a
  sent_after panicked k = []
  sent_after unfinished k = []

  -- The messages that subscribers send in the rounds of the dispatch loop, in order.
  unfoldable pub sent_from : ℕ → ℕ → Option os.EpollEvent → Machine os S R → List (FnMsg os S R)
  unfolding sent_at sent_after
  sent_from zero ev_index e m = []
  sent_from (suc rounds) ev_index e m = elim (get_elem? m.epoll_context.ready_events ev_index) [
    | none ↦ []
    | some ev ↦
        sent_at ev m
        ++ sent_after (Loop.dispatch_event ev e m)
            (λ (e', m'). sent_from rounds (ev_index + 1) e' m')
  ]

  -- The messages that a closure sends, those of the `init` that it calls included.
  unfoldable pub sent_by_closure : Closure os S R → Machine os S R → List (FnMsg os S R)
  unfolding sent_by sent_after
  sent_by_closure (Closure.done r) m = []
  sent_by_closure Closure.panics m = []
  sent_by_closure (Closure.add_subscriber t k) m =
      let (id, subscribers') = Subscribers.add t m.subscribers in
      sent_by (sub.init t) (scope (with_subscribers m subscribers') id)
      ++ sent_after (Loop.add_subscriber t m) (λ (id, m'). sent_by_closure (k id) m')
  sent_by_closure (Closure.remove_subscriber id k) m =
      sent_by_closure (k (remove_subscriber id m).0) (remove_subscriber id m).1
  sent_by_closure (Closure.subscriber_mut id change k) m =
      sent_after (subscriber_mut id change m) (λ (answer, m'). sent_by_closure (k answer) m')
  sent_by_closure (Closure.event_ops id r k) m =
      sent_by_closure (k (event_ops_request id r m).0) (event_ops_request id r m).1
  sent_by_closure (Closure.send f reply k) m =
      let msg : FnMsg os S R = record { fnbox = f; sender = reply } in
      accepted m.channel msg ++ sent_by_closure (k (send_message msg m).0) (send_message msg m).1
  sent_by_closure (Closure.effect change k) m =
      sent_by_closure (k m.world) (record m { world = change m.world })

  -- The messages that the requests of a queue send while it is handled, in order.
  unfoldable pub sent_by_queue : ℕ → Machine os S R → List (FnMsg os S R)
  unfolding sent_by_closure sent_after
  sent_by_queue zero m = []
  sent_by_queue (suc fuel) m = elim m.channel.messages [
    | [] ↦ []
    | msg ∷ rest ↦
        let m₀ = with_channel m (record (m.channel) { messages = rest }) in
        sent_by_closure msg.fnbox m₀
        ++ sent_after (Loop.run_closure msg.fnbox m₀) (λ (result, m').
          sent_by_queue fuel (with_channel m' (reply_to msg.sender result m'.channel)))
  ]
