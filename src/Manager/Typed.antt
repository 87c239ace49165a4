-- ===== src/Manager/Typed.antt =====
-- The types of erased results: what is sent over a temporary channel has the type of its caller.
pub mod Run
pub mod Session
use event_manager.Prelude.{
  ℕ, ◌≡◌, ◌≢◌, refl, sym, subst, Option, none, some, List, [], ◌∷◌, ◌++◌, Result, ok, err, Outcome,
  returned, panicked, Ensures, Ensures-bind, Ensures-map, arith, Bool-cases, Option-cases, inl, inr,
  ◌==◌, true,
}
use event_manager.Prelude.HashMap
use event_manager.Os.{Os}
use event_manager.Error.{Error}
use event_manager.Epoll.{SubscriberId}
use event_manager.Events.{Events, with_inner}
use event_manager.Subscribers
use event_manager.Endpoint.{Closure, FnMsg, EventManagerChannel, send_msg, reply_to}
use event_manager.Endpoint.Erased.{
  Types, ErasedResult, erase, downcast, sent_type, TypedClosure, fnbox,
}
use event_manager.Handler.{Handler, MutEventSubscriber, Scope, run_handler}
use event_manager.Manager.{
  Machine, scope, with_subscribers, with_channel, after_handler, remove_subscriber, subscriber_mut,
  event_ops_request, send_message,
}
use event_manager.Manager.Loop
use event_manager.Manager.Kept.{get-add_self}
use event_manager.Manager.Total.{
  remove_subscriber-channel, subscriber_mut-channel, event_ops_request-channel,
}

module _ (types : Types) (result_type : ℕ → types.Code) where
  -- A closure that returns a value of a type, and sends only closures that return what is expected.
  abbrev pub Yields :
      {os : Os} {S : Type 0} → types.Code → Closure os S (ErasedResult types) → Type 0
  Yields code (Closure.done r) = r.0 ≡ code
  Yields code Closure.panics = Unit
  Yields code (Closure.add_subscriber t k) = (id : SubscriberId) → Yields code (k id)
  Yields {os} {S} code (Closure.remove_subscriber id k) =
      (x : Result S (Error os)) → Yields code (k x)
  Yields {os} {S} code (Closure.subscriber_mut id change k) =
      (x : Result S (Error os)) → Yields code (k x)
  Yields {os} code (Closure.event_ops id r k) =
      (x : Result (Unit {0}) (Error os)) → Yields code (k x)
  Yields {os} code (Closure.send f reply k) =
      Yields (sent_type types result_type reply) f
      × ((x : Result (Unit {0}) (Error os)) → Yields code (k x))
  Yields {os} code (Closure.effect change k) = (w : os.World) → Yields code (k w)

  -- A handler that sends only such closures.
  abbrev pub IsTypedHandler :
      {os : Os} {S A : Type 0} → Handler os S (ErasedResult types) A → Type 0
  IsTypedHandler (Handler.done a) = Unit
  IsTypedHandler Handler.panics = Unit
  IsTypedHandler {os} (Handler.request r k) =
      (x : Result (Unit {0}) (Error os)) → IsTypedHandler (k x)
  IsTypedHandler {os} (Handler.send f reply k) =
      Yields (sent_type types result_type reply) f
      × ((x : Result (Unit {0}) (Error os)) → IsTypedHandler (k x))
  IsTypedHandler {os} (Handler.effect change k) = (w : os.World) → IsTypedHandler (k w)

  abbrev pub AllMessages : {os : Os} {S : Type 0} → List (FnMsg os S (ErasedResult types)) → Type 0
  AllMessages [] = Unit
  AllMessages (msg ∷ l) = Yields (sent_type types result_type msg.sender) msg.fnbox × AllMessages l

  abbrev pub AllReplies : List (ℕ × ErasedResult types) → Type 0
  AllReplies [] = Unit
  AllReplies ((reply, r) ∷ l) = (r.0 ≡ result_type reply) × AllReplies l

  -- What waits in the queue, and what has been sent back.
  pub record IsTyped {os : Os} {S : Type 0} (c : EventManagerChannel os S (ErasedResult types))
      : Type 0 where
    pub messages : AllMessages c.messages
    pub replies : AllReplies c.replies

  pub record AllTypedHandlers {os : Os} {S : Type 0}
      (sub : MutEventSubscriber os S (ErasedResult types) S) : Type 0 where
    pub typed_process : (t : S) (e : Events os) → IsTypedHandler (sub.process t e)
    pub typed_init : (t : S) → IsTypedHandler (sub.init t)

  AllReplies-append_one :
      (l : List (ℕ × ErasedResult types)) (reply : ℕ) (r : ErasedResult types)
      → AllReplies l
      → r.0 ≡ result_type reply
      → AllReplies (l ++ (reply, r) ∷ [])
  AllReplies-append_one [] reply r all typed = (typed, tt)
  AllReplies-append_one ((k, x) ∷ l) reply r all typed =
      (all.0, AllReplies-append_one l reply r all.1 typed)

  module _ {os : Os} {S : Type 0} where
    -- What `call_blocking` and `fire` send is of its type.
    pub fnbox-Yields :
        {code : types.Code} (f : TypedClosure types result_type os S code)
        → Yields code (fnbox types result_type f)
    unfolding fnbox erase
    fnbox-Yields (TypedClosure.done value) = refl
    fnbox-Yields TypedClosure.panics = tt
    fnbox-Yields (TypedClosure.add_subscriber t k) = λ id. fnbox-Yields (k id)
    fnbox-Yields (TypedClosure.remove_subscriber id k) = λ x. fnbox-Yields (k x)
    fnbox-Yields (TypedClosure.subscriber_mut id change k) = λ x. fnbox-Yields (k x)
    fnbox-Yields (TypedClosure.event_ops id r k) = λ x. fnbox-Yields (k x)
    fnbox-Yields (TypedClosure.send reply f k) = (fnbox-Yields f, λ x. fnbox-Yields (k x))
    fnbox-Yields (TypedClosure.effect change k) = λ w. fnbox-Yields (k w)

    AllMessages-append_one :
        (l : List (FnMsg os S (ErasedResult types))) (msg : FnMsg os S (ErasedResult types))
        → AllMessages l
        → Yields (sent_type types result_type msg.sender) msg.fnbox
        → AllMessages (l ++ msg ∷ [])
    AllMessages-append_one [] msg all typed = (typed, tt)
    AllMessages-append_one (x ∷ l) msg all typed = (all.0, AllMessages-append_one l msg all.1 typed)

    pub send_msg-IsTyped :
        (msg : FnMsg os S (ErasedResult types)) (c : EventManagerChannel os S (ErasedResult types))
        (world : os.World)
        → Yields (sent_type types result_type msg.sender) msg.fnbox
        → IsTyped c
        → IsTyped (send_msg msg c world).1
    unfolding send_msg
    send_msg-IsTyped msg c world typed all = elim (Bool-cases c.receiver_alive) [
      | inl alive ↦ rw alive (record {
        messages = AllMessages-append_one c.messages msg all.messages typed;
        replies = all.replies;
      })
      | inr dropped ↦ rw dropped (record { messages = all.messages; replies = all.replies })
    ]

    pub reply_to-IsTyped :
        (sender : Option ℕ) (r : ErasedResult types)
        (c : EventManagerChannel os S (ErasedResult types))
        → r.0 ≡ sent_type types result_type sender
        → IsTyped c
        → IsTyped (reply_to sender r c)
    unfolding reply_to
    reply_to-IsTyped none r c typed all = all
    reply_to-IsTyped (some reply) r c typed all = record {
      messages = all.messages;
      replies = AllReplies-append_one c.replies reply r all.replies typed;
    }

    pub run_handler-IsTyped :
        {A : Type 0} (h : Handler os S (ErasedResult types) A)
        (self : Scope os S (ErasedResult types))
        → IsTypedHandler h
        → IsTyped self.channel
        → Ensures (λ left. IsTyped left.1.channel) (run_handler h self)
    unfolding run_handler
    run_handler-IsTyped (Handler.done a) self typed all = all
    run_handler-IsTyped Handler.panics self typed all = tt
    run_handler-IsTyped (Handler.request r k) self typed all =
        run_handler-IsTyped (k _) _ (typed _) all
    run_handler-IsTyped (Handler.send f reply k) self typed all =
        run_handler-IsTyped (k _) _ (typed.1 _) (
          send_msg-IsTyped (record { fnbox = f; sender = reply }) self.channel self.world typed.0
            all)
    run_handler-IsTyped (Handler.effect change k) self typed all =
        run_handler-IsTyped (k _) _ (typed _) all
