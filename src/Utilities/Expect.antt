-- ===== src/Utilities/Expect.antt =====
-- Requests with `expect` or `unwrap` on their answers.
use event_manager.Prelude.{◌≡◌, refl, List, [], ◌∷◌, Result, ok, err, Ensures}
use event_manager.Os.{Os}
use event_manager.Error.{Error}
use event_manager.Events.{Events}
use event_manager.EventOps.{Request, perform}
use event_manager.Handler.{Handler, Scope, run_handler}
use event_manager.Utilities.{expect_all}

module _ {os : Os} {S R A : Type 0} (Q : A × Scope os S R → Type 0)
    (make : Events os → Request os) where
  -- After one request with `expect`, the others are made where it has succeeded.
  pub expect_step :
      (e : Events os) (es : List (Events os)) (h : Handler os S R A) (self : Scope os S R)
      → ((perform (make e) self.ops).0 ≡ ok tt
          → Ensures Q (
              run_handler
                (expect_all make es h)
                (record self { ops = (perform (make e) self.ops).1 })))
      → Ensures Q (run_handler (expect_all make (e ∷ es) h) self)
  unfolding expect_all run_handler
  expect_step e es h self k = go (perform (make e) self.ops).0 k
    where
      go :
          (answer : Result (Unit {0}) (Error os))
          → (answer ≡ ok tt
              → Ensures Q (
                  run_handler
                    (expect_all make es h)
                    (record self { ops = (perform (make e) self.ops).1 })))
          → Ensures Q (
              run_handler
                (elim answer [ ok _ ↦ expect_all make es h | err _ ↦ Handler.panics ])
                (record self { ops = (perform (make e) self.ops).1 }))
      go (ok x) k = k refl
      go (err x) k = tt

module _ {os : Os} {S R A : Type 0} (Q : A × Scope os S R → Type 0) (make : Events os → Request os)
    (h : Handler os S R A) where
  -- After the requests the body goes on, in some scope.
  pub expect_all-follows :
      (es : List (Events os)) (self : Scope os S R)
      → ((self' : Scope os S R) → Ensures Q (run_handler h self'))
      → Ensures Q (run_handler (expect_all make es h) self)
  unfolding expect_all
  expect_all-follows [] self k = k self
  expect_all-follows (e ∷ es) self k =
      expect_step Q make e es h self (λ _. expect_all-follows es _ k)
