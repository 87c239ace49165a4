-- ===== src/Endpoint/Erased.antt =====
-- The erased results of src/endpoint.rs: closures with results of any type, sent over one channel.
use event_manager.Prelude.{
  ℕ, ◌≡◌, refl, ap, ◌∙◌, subst, Option, none, some, Result, ok, err, Outcome, returned, unwrap,
}
use mathlib.Core.Path.{subst_refl}
use mathlib.Core.HLevel.{Discrete, hedberg}
use event_manager.Os.{Os}
use event_manager.Error.{Error}
use event_manager.Epoll.{SubscriberId}
use event_manager.EventOps.{Request}
use event_manager.Endpoint.{Closure, EventManagerChannel}
use event_manager.Endpoint.Callers.{recv_result}

-- The types of a program, which `std::any::TypeId` tells apart; `unit` is `()`.
pub record Types : Type 1 where
  pub Code : Type 0
  pub El : Code → Type 0
  pub same : Discrete Code
  pub unit : Code
  pub unit_value : El unit

-- `ErasedResult`: a value in a box, with its type.
abbrev pub ErasedResult : Types → Type 0
ErasedResult types = (code : types.Code) × types.El code

module _ (types : Types) where
  -- `Box::new`
  unfoldable pub erase : (code : types.Code) → types.El code → ErasedResult types
  erase code value = (code, value)

  -- `Box::downcast`
  unfoldable pub downcast : (code : types.Code) → ErasedResult types → Option (types.El code)
  downcast code (actual, value) = elim (types.same actual code) [
    | yes e ↦ some (subst types.El e value)
    | no _ ↦ none
  ]

  pub downcast-erase :
      (code : types.Code) (value : types.El code) → downcast code (erase code value) ≡ some value
  unfolding downcast erase
  downcast-erase code value =
      elim (types.same code code)
        as (λ d. (elim d [ yes e ↦ some (subst types.El e value) | no _ ↦ none ]) ≡ some value) [
          | yes e ↦ ap some (
              ap (λ p. subst types.El p value) (hedberg types.same code code e refl)
              ∙ subst_refl types.El value)
          | no other ↦ absurd (other refl)
        ]

-- A program has a type for the result of each temporary channel of `call_blocking`.
module _ (types : Types) (result_type : ℕ → types.Code) where
  -- The type that the box holds which the closure of a message returns: that of the caller's result,
  -- or `()` where there is no caller.
  abbrev pub sent_type : Option ℕ → types.Code
  sent_type none = types.unit
  sent_type (some reply) = result_type reply

  -- `F: FnOnce(&mut dyn SubscriberOps) -> T`, as the tree of what it does, for a closure that is
  -- checked to return a `T`, and to send only what is checked.
  pub data TypedClosure (os : Os) (S : Type 0) : types.Code → Type 0 where
    done : {code : types.Code} → types.El code → TypedClosure os S code
    panics : {code : types.Code} → TypedClosure os S code
    add_subscriber :
        {code : types.Code} → S → (SubscriberId → TypedClosure os S code) → TypedClosure os S code
    remove_subscriber :
        {code : types.Code}
        → SubscriberId
        → (Result S (Error os) → TypedClosure os S code)
        → TypedClosure os S code
    subscriber_mut :
        {code : types.Code}
        → SubscriberId
        → (S → S)
        → (Result S (Error os) → TypedClosure os S code)
        → TypedClosure os S code
    event_ops :
        {code : types.Code}
        → SubscriberId
        → Request os
        → (Result (Unit {0}) (Error os) → TypedClosure os S code)
        → TypedClosure os S code
    send :
        {code : types.Code} (reply : Option ℕ)
        → TypedClosure os S (sent_type reply)
        → (Result (Unit {0}) (Error os) → TypedClosure os S code)
        → TypedClosure os S code
    effect :
        {code : types.Code}
        → (os.World → os.World)
        → (os.World → TypedClosure os S code)
        → TypedClosure os S code

  module _ {os : Os} {S : Type 0} where
    -- `Box::new(move |ops| Box::new(f(ops)))` of `call_blocking`, and of `fire`, where `f` returns `()`.
    unfoldable pub fnbox :
        {code : types.Code} → TypedClosure os S code → Closure os S (ErasedResult types)
    unfolding erase
    fnbox (TypedClosure.done {code} value) = Closure.done (erase types code value)
    fnbox TypedClosure.panics = Closure.panics
    fnbox (TypedClosure.add_subscriber t k) = Closure.add_subscriber t (λ id. fnbox (k id))
    fnbox (TypedClosure.remove_subscriber id k) = Closure.remove_subscriber id (λ x. fnbox (k x))
    fnbox (TypedClosure.subscriber_mut id change k) =
        Closure.subscriber_mut id change (λ x. fnbox (k x))
    fnbox (TypedClosure.event_ops id r k) = Closure.event_ops id r (λ x. fnbox (k x))
    fnbox (TypedClosure.send reply f k) = Closure.send (fnbox f) reply (λ x. fnbox (k x))
    fnbox (TypedClosure.effect change k) = Closure.effect change (λ w. fnbox (k w))

    -- The end of `call_blocking`, after its `send` has answered: nothing while it waits, and else what
    -- it returns, or a panic of `unwrap`. `from_error` is `E::from`, into its `Result<O, E>`.
    unfoldable pub call_returns :
        (reply : ℕ)
        → (Error os → types.El (result_type reply))
        → Result (Unit {0}) (Error os)
        → EventManagerChannel os S (ErasedResult types)
        → Option (Outcome (types.El (result_type reply)))
    unfolding recv_result downcast
    call_returns reply from_error (err e) self = some (returned (from_error e))
    call_returns reply from_error (ok _) self = elim (recv_result reply self) [
      | none ↦ none
      | some (err e) ↦ some (returned (from_error e))
      | some (ok boxed) ↦ some (unwrap (downcast types (result_type reply) boxed))
    ]
