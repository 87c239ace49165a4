-- ===== src/Handler/Rules.antt =====
-- Induction over the body of a handler.
use event_manager.Prelude.{
  ◌>>=◌, ◌≡◌, refl, sym, ap, Ensures-map, ◌∙◌, List, [], ◌++◌, Result, Ensures, Ensures-bind,
  Returns, Bool-cases, inl, inr, ◌∷◌,
}
use mathlib.Core.List.{append_assoc, append-nil}
use event_manager.Os.{Os}
use event_manager.Error.{Error}
use event_manager.EventOps.{EventOps, Request, perform, with_world}
use event_manager.Endpoint.{FnMsg, EventManagerChannel, send_msg}
use event_manager.Handler.{bind_handler, Handler, Scope, run_handler}

module _ {os : Os} {S R A : Type 0} (P : EventOps os → Type 0)
    (keep : (r : Request os) (ops : EventOps os) → P ops → P (perform r ops).1)
    (elsewhere : (ops : EventOps os) (world : os.World) → P ops → P (with_world ops world)) where
  -- A property of the `EventOps` that every request keeps, and that does not depend on the world,
  -- holds when the handler returns.
  pub run_handler-Ensures :
      (h : Handler os S R A) (self : Scope os S R)
      → P self.ops
      → Ensures (λ left. P left.1.ops) (run_handler h self)
  unfolding run_handler
  run_handler-Ensures (Handler.done a) self p = p
  run_handler-Ensures Handler.panics self p = tt
  run_handler-Ensures (Handler.request r k) self p = run_handler-Ensures (k _) _ (keep r self.ops p)
  run_handler-Ensures (Handler.send f reply k) self p =
      run_handler-Ensures (k _) _ (elsewhere self.ops _ p)
  run_handler-Ensures (Handler.effect change k) self p =
      run_handler-Ensures (k _) _ (elsewhere self.ops _ p)

-- A body that never panics, whatever it is answered.
abbrev pub Calm : {os : Os} {S R A : Type 0} → Handler os S R A → Type 0
Calm (Handler.done a) = Unit
Calm Handler.panics = ⊥
Calm {os} (Handler.request r k) = (x : Result (Unit {0}) (Error os)) → Calm (k x)
Calm {os} (Handler.send f reply k) = (x : Result (Unit {0}) (Error os)) → Calm (k x)
Calm {os} (Handler.effect change k) = (w : os.World) → Calm (k w)

module _ {os : Os} {S R A : Type 0} where
  -- It returns.
  pub run_handler-Returns :
      (h : Handler os S R A) (self : Scope os S R)
      → Calm h
      → Returns (λ _. Unit) (run_handler h self)
  unfolding run_handler
  run_handler-Returns (Handler.done a) self calm = tt
  run_handler-Returns Handler.panics self calm = calm
  run_handler-Returns (Handler.request r k) self calm = run_handler-Returns (k _) _ (calm _)
  run_handler-Returns (Handler.send f reply k) self calm = run_handler-Returns (k _) _ (calm _)
  run_handler-Returns (Handler.effect change k) self calm = run_handler-Returns (k _) _ (calm _)

-- What a handler can do to the channel: queue further messages.
pub record Extends {os : Os} {S R : Type 0} (old new : EventManagerChannel os S R) : Type 0 where
  pub sent : List (FnMsg os S R)
  pub appended : new.messages ≡ old.messages ++ sent
  pub same_fd : new.event_fd ≡ old.event_fd
  pub same_replies : new.replies ≡ old.replies
  pub same_alive : new.receiver_alive ≡ old.receiver_alive

module _ {os : Os} {S R : Type 0} where
  pub Extends-refl : (c : EventManagerChannel os S R) → Extends c c
  Extends-refl c = record {
    sent = [];
    appended = sym (append-nil c.messages);
    same_fd = refl;
    same_replies = refl;
    same_alive = refl;
  }

  pub Extends-trans : {a b c : EventManagerChannel os S R} → Extends a b → Extends b c → Extends a c
  Extends-trans {a} {b} {c} p q = record {
    sent = p.sent ++ q.sent;
    appended =
        q.appended ∙ ap (λ l. l ++ q.sent) p.appended ∙ append_assoc a.messages p.sent q.sent;
    same_fd = q.same_fd ∙ p.same_fd;
    same_replies = q.same_replies ∙ p.same_replies;
    same_alive = q.same_alive ∙ p.same_alive;
  }

  pub send_msg-Extends :
      (msg : FnMsg os S R) (c : EventManagerChannel os S R) (world : os.World)
      → Extends c (send_msg msg c world).1
  unfolding send_msg
  send_msg-Extends msg c world = elim (Bool-cases c.receiver_alive) [
    | inl alive ↦ rw alive (record {
      sent = msg ∷ [];
      appended = refl;
      same_fd = refl;
      same_replies = refl;
      same_alive = refl;
    })
    | inr dropped ↦ rw dropped (Extends-refl _)
  ]

  pub run_handler-Extends :
      {A : Type 0} (h : Handler os S R A) (self : Scope os S R)
      → Ensures (λ left. Extends self.channel left.1.channel) (run_handler h self)
  unfolding run_handler
  run_handler-Extends (Handler.done a) self = Extends-refl self.channel
  run_handler-Extends Handler.panics self = tt
  run_handler-Extends (Handler.request r k) self = run_handler-Extends (k _) _
  run_handler-Extends {A} (Handler.send f reply k) self =
      Ensures-map _ _ (run_handler (k _) _)
        (λ left. Extends-trans (send_msg-Extends _ self.channel self.world))
        (run_handler-Extends (k _) _)
  run_handler-Extends (Handler.effect change k) self = run_handler-Extends (k _) _

  pub run_handler-bind_handler :
      {A B : Type 0} (h : Handler os S R A) (f : A → Handler os S R B) (self : Scope os S R)
      → run_handler (bind_handler h f) self
        ≡ (run_handler h self >>= (λ left. run_handler (f left.0) left.1))
  unfolding run_handler bind_handler
  run_handler-bind_handler (Handler.done a) f self = refl
  run_handler-bind_handler Handler.panics f self = refl
  run_handler-bind_handler (Handler.request r k) f self = run_handler-bind_handler (k _) f _
  run_handler-bind_handler (Handler.send g reply k) f self = run_handler-bind_handler (k _) f _
  run_handler-bind_handler (Handler.effect change k) f self = run_handler-bind_handler (k _) f _

  pub bind_handler-Ensures :
      {A B : Type 0} (P : A × Scope os S R → Type 0) (Q : B × Scope os S R → Type 0)
      (h : Handler os S R A) (f : A → Handler os S R B) (self : Scope os S R)
      → Ensures P (run_handler h self)
      → ((left : A × Scope os S R) → P left → Ensures Q (run_handler (f left.0) left.1))
      → Ensures Q (run_handler (bind_handler h f) self)
  bind_handler-Ensures P Q h f self p k =
      rw (run_handler-bind_handler h f self) (Ensures-bind P Q (run_handler h self) _ p k)
