-- ===== src/Manager/Typed/Session.antt =====
-- Callers of `call_blocking` and `fire`, with results of different types, and a manager.
use event_manager.Prelude.{
  ℕ, ◌≡◌, ◌⊎◌, refl, subst, Option, none, some, List, [], ◌∷◌, Result, ok, err, returned,
  Ensures-returned, Option-cases, Bool-cases, inl, inr, arith, contains,
}
use event_manager.Prelude.HashMap
use event_manager.Os.{Os}
use event_manager.Error.{Error, channel_recv}
use event_manager.Epoll.{SubscriberId}
use event_manager.EventOps.{Request}
use event_manager.Endpoint.{EventManagerChannel, recv}
use event_manager.Endpoint.Callers.{disconnect, recv_result, senders}
use event_manager.Endpoint.Erased.{
  Types, ErasedResult, downcast, sent_type, TypedClosure, fnbox, call_returns,
}
use event_manager.Handler.{MutEventSubscriber}
use event_manager.Manager.{
  Machine, with_channel, remove_subscriber, event_ops_request, send_message,
}
use event_manager.Manager.Loop
use event_manager.Manager.Total.{remove_subscriber-channel, event_ops_request-channel}
use event_manager.Manager.Typed.{
  AllReplies, IsTyped, AllTypedHandlers, fnbox-Yields, send_msg-IsTyped,
}
use event_manager.Manager.Typed.Run.{add_subscriber-IsTyped, run_with_timeout-IsTyped, same_channel}

module _ (types : Types) where
  downcast_total :
      (code : types.Code) (boxed : ErasedResult types)
      → boxed.0 ≡ code
      → (value : types.El code) × (downcast types code boxed ≡ some value)
  unfolding downcast
  downcast_total code (actual, value) same =
      elim (types.same actual code)
        as (λ d.
          (v : types.El code) × ((elim d [ yes e ↦ some (subst types.El e value) | no _ ↦ none ])
            ≡ some v)) [ yes e ↦ (subst types.El e value, refl) | no other ↦ absurd (other same) ]

module _ (types : Types) (result_type : ℕ → types.Code) where
  received_type :
      (replies : List (ℕ × ErasedResult types)) (reply : ℕ) (boxed : ErasedResult types)
      → AllReplies types result_type replies
      → HashMap.get replies reply ≡ some boxed
      → boxed.0 ≡ result_type reply
  unfolding HashMap.get
  received_type [] reply boxed all found = cc
  received_type ((k, r) ∷ replies) reply boxed all found =
      ground (arith, received_type replies reply boxed all.1)

  module _ {os : Os} {S : Type 0} ⦃sub : MutEventSubscriber os S (ErasedResult types) S⦄ where
    -- A manager that starts with an empty queue. Its thread adds and removes subscribers, makes
    -- requests for them, and runs turns of the event loop; any thread sends a closure of some type, with
    -- the temporary channel of a caller who expects that type, or with none; other code changes the
    -- world; and the manager ends.
    pub data Session : Machine os S (ErasedResult types) → Type 0 where
      begins :
          (m : Machine os S (ErasedResult types))
          → m.channel.messages ≡ []
          → m.channel.replies ≡ []
          → Session m
      sends :
          {m : Machine os S (ErasedResult types)} (reply : Option ℕ)
          (f : TypedClosure types result_type os S (sent_type types result_type reply))
          → Session m
          → Session
              (send_message (record { fnbox = fnbox types result_type f; sender = reply }) m).1
      adds :
          {m : Machine os S (ErasedResult types)} (t : S) (id : SubscriberId)
          (left : Machine os S (ErasedResult types))
          → Session m
          → Loop.add_subscriber t m ≡ returned (id, left)
          → Session left
      removes :
          {m : Machine os S (ErasedResult types)} (id : SubscriberId)
          → Session m
          → Session (remove_subscriber id m).1
      requests :
          {m : Machine os S (ErasedResult types)} (id : SubscriberId) (r : Request os)
          → Session m
          → Session (event_ops_request id r m).1
      turns :
          {m : Machine os S (ErasedResult types)} (fuel ms : ℕ) (answer : Result ℕ (Error os))
          (left : Machine os S (ErasedResult types))
          → Session m
          → Loop.run_with_timeout fuel ms m ≡ returned (answer, left)
          → Session left
      effects :
          {m : Machine os S (ErasedResult types)} (change : os.World → os.World)
          → Session m
          → Session (record m { world = change m.world })
      ends :
          {m : Machine os S (ErasedResult types)}
          → Session m
          → Session (with_channel m (disconnect m.channel))

    Session-IsTyped :
        {m : Machine os S (ErasedResult types)}
        → AllTypedHandlers types result_type sub
        → Session m
        → IsTyped types result_type m.channel
    unfolding send_message disconnect
    Session-IsTyped typed (begins m queue replies) = record {
      messages = rw queue tt;
      replies = rw replies tt;
    }
    Session-IsTyped typed (sends {m} reply f s) =
        send_msg-IsTyped types result_type
          (record { fnbox = fnbox types result_type f; sender = reply }) m.channel m.world
          (fnbox-Yields types result_type f) (Session-IsTyped typed s)
    Session-IsTyped typed (adds {m} t id left s e) =
        Ensures-returned (λ l. IsTyped types result_type l.1.channel) (Loop.add_subscriber t m) e
          (add_subscriber-IsTyped types result_type typed t m (Session-IsTyped typed s))
    Session-IsTyped typed (removes {m} id s) =
        same_channel types result_type typed m (remove_subscriber id m).1
          (remove_subscriber-channel id m) (Session-IsTyped typed s)
    Session-IsTyped typed (requests {m} id r s) =
        same_channel types result_type typed m (event_ops_request id r m).1
          (event_ops_request-channel id r m) (Session-IsTyped typed s)
    Session-IsTyped typed (turns {m} fuel ms answer left s e) =
        Ensures-returned (λ l. IsTyped types result_type l.1.channel)
          (Loop.run_with_timeout fuel ms m) e
          (run_with_timeout-IsTyped types result_type typed fuel ms m (Session-IsTyped typed s))
    Session-IsTyped typed (effects change s) = Session-IsTyped typed s
    Session-IsTyped typed (ends {m} s) = record {
      messages = tt;
      replies = (Session-IsTyped typed s).replies;
    }

    received_returns :
        (c : EventManagerChannel os S (ErasedResult types)) (reply : ℕ)
        (from_error : Error os → types.El (result_type reply)) (boxed : ErasedResult types)
        (value : types.El (result_type reply))
        → recv reply c ≡ some boxed
        → downcast types (result_type reply) boxed ≡ some value
        → call_returns types result_type reply from_error (ok tt) c ≡ some (returned value)
    unfolding call_returns recv_result
    received_returns c reply from_error boxed value found is =
        rw (found, call_returns, recv_result) (rw is)

    received :
        (m : Machine os S (ErasedResult types)) (reply : ℕ)
        (from_error : Error os → types.El (result_type reply))
        → AllTypedHandlers types result_type sub
        → Session m
        → (boxed : ErasedResult types) → recv reply m.channel ≡ some boxed
        → (value : types.El (result_type reply)) × (call_returns types result_type reply from_error
              (ok tt)
              m.channel
            ≡ some (returned value))
    unfolding recv
    received m reply from_error typed session boxed found =
        let (value, is) = downcast_total types (result_type reply) boxed (
          received_type m.channel.replies reply boxed (Session-IsTyped typed session).replies
            found) in
        (value, received_returns m.channel reply from_error boxed value found is)

    -- Take types that can be told apart, and callers that each expect the result of their closure in a
    -- temporary channel of their own. Start with a manager with an empty queue, whose subscribers send
    -- only closures that are checked like those of the callers. After any sequence of calls, turns of
    -- the event loop and effects of other code, and also after the end of the manager, `call_blocking`
    -- still waits or returns a value of its own type, so that its `unwrap` of the downcast never panics.
    pub call_returns_typed :
        (m : Machine os S (ErasedResult types)) (reply : ℕ)
        (from_error : Error os → types.El (result_type reply))
        (answer : Result (Unit {0}) (Error os))
        → AllTypedHandlers types result_type sub
        → Session m
        → (call_returns types result_type reply from_error answer m.channel ≡ none)
          ⊎ ((value : types.El (result_type reply)) × (call_returns types result_type reply
                  from_error answer m.channel
                ≡ some (returned value)))
    unfolding call_returns recv_result
    call_returns_typed m reply from_error (err e) typed session = inr (from_error e, refl)
    call_returns_typed m reply from_error (ok _) typed session =
        elim (Option-cases (recv reply m.channel)) [
          | inr (boxed, found) ↦ inr (received m reply from_error typed session boxed found)
          | inl missing ↦ elim (Bool-cases (contains (senders m.channel.messages) reply)) [
            | inl waits ↦ rw (missing, call_returns, recv_result) (rw waits (inl refl))
            | inr lost ↦
                rw (missing, call_returns, recv_result)
                  (rw lost (inr (from_error channel_recv, refl)))
          ]
        ]
