-- ===== src/Handler.antt =====
-- The traits `EventSubscriber` and `MutEventSubscriber` of lib.rs. The body of `init` or `process`
-- is a tree of the calls that it makes: it can change the watch list by `EventOps` only.
pub mod Rules
use event_manager.Prelude.{ℕ, Option, Result, Outcome, returned, panicked}
use event_manager.Os.{Os}
use event_manager.Error.{Error}
use event_manager.Events.{Events}
use event_manager.EventOps.{EventOps, Request, perform, with_world}
use event_manager.Endpoint.{Closure, EventManagerChannel, send_msg}

-- A body with result `A`: a request on its `EventOps`, a message sent through an endpoint that it
-- owns, or any effect on the world, with what follows for each answer.
pub data Handler (os : Os) (S R A : Type 0) : Type 0 where
  done : A → Handler os S R A
  panics : Handler os S R A
  request : Request os → (Result (Unit {0}) (Error os) → Handler os S R A) → Handler os S R A
  send :
      Closure os S R
      → Option ℕ
      → (Result (Unit {0}) (Error os) → Handler os S R A)
      → Handler os S R A
  effect : (os.World → os.World) → (os.World → Handler os S R A) → Handler os S R A

-- What a handler can reach: the context through its `EventOps`, and the channel.
pub record Scope (os : Os) (S R : Type 0) : Type 0 where
  pub ops : EventOps os
  pub open ops use *
  pub channel : EventManagerChannel os S R

module _ {os : Os} {S R A : Type 0} where
  unfoldable pub run_handler : Handler os S R A → Scope os S R → Outcome (A × Scope os S R)
  run_handler (done a) self = returned (a, self)
  run_handler panics self = panicked
  run_handler (request r k) self =
      let (answer, ops') = perform r self.ops in run_handler (k answer) (record self { ops = ops' })
  run_handler (send f reply k) self =
      let (answer, channel', world') =
        send_msg (record { fnbox = f; sender = reply }) self.channel self.world in
      run_handler (k answer) (record { ops = with_world self.ops world'; channel = channel' })
  run_handler (effect change k) self =
      run_handler (k self.world) (record self { ops = with_world self.ops (change self.world) })

-- `EventSubscriber`: a method borrows `self`, so what it changes lies in the world.
pub record EventSubscriber (os : Os) (S R T : Type 0) : Type 0 where
  pub process : T → Events os → Handler os S R (Unit {0})
  pub init : T → Handler os S R (Unit {0})

-- `MutEventSubscriber`: a method returns the subscriber that it leaves behind.
pub record MutEventSubscriber (os : Os) (S R T : Type 0) : Type 0 where
  pub process : T → Events os → Handler os S R T
  pub init : T → Handler os S R T

module _ {os : Os} {S R : Type 0} where
  -- The second body follows the first, with its result.
  unfoldable pub bind_handler :
      {A B : Type 0} → Handler os S R A → (A → Handler os S R B) → Handler os S R B
  bind_handler (Handler.done a) f = f a
  bind_handler Handler.panics f = Handler.panics
  bind_handler (Handler.request r k) f = Handler.request r (λ x. bind_handler (k x) f)
  bind_handler (Handler.send g reply k) f = Handler.send g reply (λ x. bind_handler (k x) f)
  bind_handler (Handler.effect change k) f = Handler.effect change (λ w. bind_handler (k w) f)
