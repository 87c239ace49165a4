-- ===== src/Manager/Remote.antt =====
-- `handle_endpoint_calls`: the order of the requests, and the replies to blocking callers.
use event_manager.Prelude.{
  ℕ, zero, suc, ◌≡◌, refl, sym, ◌∙◌, Option, none, some, List, [], ◌∷◌, ◌++◌, Ensures, Ensures-bind,
  Ensures-map, Ensures-self, Ensures-and, returned, subst, inl, inr, List-cases,
}
use mathlib.Core.List.{append-nil, append_assoc, map-append}
use event_manager.Os.{Os}
use event_manager.Endpoint.{FnMsg, EventManagerChannel, reply_to}
use event_manager.Endpoint.Callers.{one_sender, senders, answered}
use event_manager.Handler.{MutEventSubscriber}
use event_manager.Handler.Rules.{Extends}
use event_manager.Manager.{Machine, with_channel}
use event_manager.Manager.Loop
use event_manager.Manager.Deferred.{run_closure-Extends}
use event_manager.Manager.Sent.{sent_by_closure, sent_after, sent_by_queue}
use event_manager.Manager.Sent.Appended.{run_closure-sent}

module _ {os : Os} {S R : Type 0} where
  pub answered-reply_to :
      (reply : Option ℕ) (result : R) (c : EventManagerChannel os S R)
      → answered (reply_to reply result c) ≡ answered c ++ one_sender reply
  unfolding reply_to
  answered-reply_to none result c = sym (append-nil (answered c))
  answered-reply_to (some reply) result c = map-append _ c.replies ((reply, result) ∷ [])

  pub messages-reply_to :
      (reply : Option ℕ) (result : R) (c : EventManagerChannel os S R)
      → (reply_to reply result c).messages ≡ c.messages
  unfolding reply_to
  messages-reply_to none result c = refl
  messages-reply_to (some reply) result c = refl

  alive-reply_to :
      (reply : Option ℕ) (result : R) (c : EventManagerChannel os S R)
      → (reply_to reply result c).receiver_alive ≡ c.receiver_alive
  unfolding reply_to
  alive-reply_to none result c = refl
  alive-reply_to (some reply) result c = refl

-- From one channel state to the next: the receiving end is as before, the messages that were queued
-- and those that came `later` have been handled, none is left, and just their senders have been
-- answered, in order.
pub record Served {os : Os} {S R : Type 0} (later : List (FnMsg os S R))
    (old new : EventManagerChannel os S R) : Type 0 where
  pub drained : new.messages ≡ []
  pub same_alive : new.receiver_alive ≡ old.receiver_alive
  pub replied : answered new ≡ answered old ++ senders (old.messages ++ later)

module _ {os : Os} {S R : Type 0} where
  Served-cons :
      (c : EventManagerChannel os S R) (msg : FnMsg os S R) (rest sent later : List (FnMsg os S R))
      (result : R) {c₁ c₂ : EventManagerChannel os S R}
      → Extends (record c { messages = rest }) c₁
      → c₁.messages ≡ rest ++ sent
      → Served later (reply_to msg.sender result c₁) c₂
      → Served (sent ++ later) (record c { messages = msg ∷ rest }) c₂
  Served-cons c msg rest sent later result {c₁} p appended q = record {
    drained = q.drained;
    same_alive = q.same_alive ∙ alive-reply_to msg.sender result c₁ ∙ p.same_alive;
    replied =
        q.replied
        ∙ simp (
          answered-reply_to msg.sender result c₁,
          messages-reply_to msg.sender result c₁,
          appended,
          p.same_replies,
          append_assoc,
        );
  }

module _ {os : Os} {S R : Type 0} ⦃sub : MutEventSubscriber os S R S⦄ where
  -- If the loop of `handle_endpoint_calls` returns, the queue is empty, and the blocking callers among
  -- the messages that were queued, and after them those among the messages that the requests
  -- themselves, and the `init` that they call, have sent, have been answered once each, in the order of
  -- the messages. A request may call anything.
  pub receive_all-Served :
      (fuel : ℕ) (m : Machine os S R)
      → Ensures (λ m'. Served (sent_by_queue fuel m) m.channel m'.channel) (Loop.receive_all fuel m)
  unfolding Loop.receive_all sent_by_queue sent_after
  receive_all-Served zero m = tt
  receive_all-Served (suc fuel) m = elim (List-cases m.channel.messages) [
    | inl empty ↦
        rw (empty, Loop.receive_all, sent_by_queue)
          (record { drained = empty; same_alive = refl; replied = sym (append-nil _) })
    | inr (msg, rest, queued) ↦
        let m₀ = with_channel m (record (m.channel) { messages = rest }) in
        let run = Loop.run_closure msg.fnbox m₀ in
        rw (queued, Loop.receive_all, sent_by_queue)
          (Ensures-bind
            (λ left.
              (run ≡ returned left)
              × (Extends m₀.channel left.1.channel
                  × (left.1.channel.messages ≡ rest ++ sent_by_closure msg.fnbox m₀)))
            _ run _
            (Ensures-self _ run (
              Ensures-and _ _ run (run_closure-Extends msg.fnbox m₀)
                (run_closure-sent msg.fnbox m₀)))
            (λ left p.
              let next = with_channel left.1 (reply_to msg.sender left.0 left.1.channel) in
              Ensures-map _ _ (Loop.receive_all fuel next)
                (λ m' q.
                  subst
                    (λ o.
                      Served
                        (sent_by_closure msg.fnbox m₀
                          ++ sent_after o (λ (result, m'').
                            sent_by_queue fuel
                              (with_channel m'' (reply_to msg.sender result m''.channel))))
                        (record (m.channel) { messages = msg ∷ rest }) m'.channel)
                    (sym p.0)
                    (Served-cons m.channel msg rest (sent_by_closure msg.fnbox m₀)
                      (sent_by_queue fuel next) left.0 p.1.0 p.1.1 q))
                (receive_all-Served fuel next)))
  ]

  pub handle_endpoint_calls-alive :
      (fuel : ℕ) (m : Machine os S R)
      → Ensures
          (λ m'. m'.channel.receiver_alive ≡ m.channel.receiver_alive)
          (Loop.handle_endpoint_calls fuel m)
  unfolding Loop.handle_endpoint_calls
  handle_endpoint_calls-alive fuel m =
      let m' = record m { world = (os.eventfd_read m.channel.event_fd m.world).1 } in
      Ensures-map (λ left. Served (sent_by_queue fuel m') m.channel left.channel) _
        (Loop.receive_all fuel m') (λ left p. p.same_alive) (receive_all-Served fuel m')
