-- ===== src/Traits/Cells.antt =====
-- A subscriber in a shared RefCell or Mutex, and the subscriber inside.
use event_manager.Prelude.{
  ◌≡◌, ap, ◌∙◌, true, false, if◌then◌else◌, returned, panicked, ◌>>=◌, Bool-cases, inl, inr,
  Ensures, Ensures-bind, Ensures-true,
}
use event_manager.Os.{Os}
use event_manager.Events.{Events}
use event_manager.Handler.Rules.{run_handler-bind_handler}
use event_manager.Handler.{bind_handler, Handler, MutEventSubscriber, Scope, run_handler}
use event_manager.Traits.{RefCell}
use event_manager.Traits.Shared.{
  Location, LocationLaws, SharedMutex, with_borrow_mut, with_lock, refcell_event_subscriber,
  mutex_event_subscriber, in_world,
}

module _ {os : Os} {S R T : Type 0} where
  with_borrow_mut_lem :
      (self : Location os (RefCell T)) (body : T → Handler os S R T) (scope : Scope os S R)
      → run_handler (with_borrow_mut self body) scope ≡ (
          if (self.load scope.world).borrowed
          then panicked
          else run_handler (body (self.load scope.world).value) (
              in_world scope
                (self.store (record (self.load scope.world) { borrowed = true }) scope.world))
            >>= (λ left. returned (
              tt,
              in_world left.1
                  (self.store (record { value = left.0; borrowed = false }) left.1.world),
            )))
  unfolding with_borrow_mut run_handler
  with_borrow_mut_lem self body scope = elim (Bool-cases (self.load scope.world).borrowed) [
    | inl borrowed ↦ rw (borrowed, run_handler)
    | inr free ↦
        rw (free, run_handler) (run_handler-bind_handler (body (self.load scope.world).value) _ _)
  ]

  with_lock_lem :
      (self : SharedMutex os T) (body : T → Handler os S R T) (scope : Scope os S R)
      → run_handler (with_lock self body) scope ≡ (
          if (self.cell.load (self.acquire scope.world)).poisoned
          then panicked
          else run_handler
              (body (self.cell.load (self.acquire scope.world)).value)
              (in_world scope (self.acquire scope.world))
            >>= (λ left. returned (
              tt,
              in_world left.1
                  (self.cell.store (record { value = left.0; poisoned = false }) left.1.world),
            )))
  unfolding with_lock run_handler
  with_lock_lem self body scope =
      elim (Bool-cases (self.cell.load (self.acquire scope.world)).poisoned) [
        | inl poisoned ↦ rw (poisoned, run_handler)
        | inr free ↦
            rw (free, run_handler)
              (run_handler-bind_handler (body (self.cell.load (self.acquire scope.world)).value) _
                _)
      ]

  -- The cell is free again when the call returns.
  with_borrow_mut-frees :
      (self : Location os (RefCell T)) (body : T → Handler os S R T) (scope : Scope os S R)
      → LocationLaws self
      → Ensures
          (λ left. (self.load left.1.world).borrowed ≡ false)
          (run_handler (with_borrow_mut self body) scope)
  with_borrow_mut-frees self body scope laws =
      rw (with_borrow_mut_lem self body scope) (elim (Bool-cases (self.load scope.world).borrowed) [
        | inl borrowed ↦ rw borrowed tt
        | inr free ↦ rw free (
            Ensures-bind (λ _. Unit) _ (run_handler (body _) _) _
              (Ensures-true (run_handler (body _) _))
              (λ left _. ap (λ c. c.borrowed) (laws.load-store _ left.1.world)))
      ])

  -- A body that borrows the cell once more, and whatever it does after that.
  with_borrow_mut-twice :
      (self : Location os (RefCell T)) (again : T → Handler os S R T)
      (later : T → Unit {0} → Handler os S R T) (scope : Scope os S R)
      → LocationLaws self
      → run_handler
          (with_borrow_mut self (λ t. bind_handler (with_borrow_mut self again) (later t)))
          scope
        ≡ panicked
  with_borrow_mut-twice self again later scope laws =
      with_borrow_mut_lem self _ scope ∙ elim (Bool-cases (self.load scope.world).borrowed) [
        | inl borrowed ↦ rw borrowed
        | inr free ↦ rw (
          free,
          run_handler-bind_handler (with_borrow_mut self again)
              (later (self.load scope.world).value)
              (in_world scope
                (self.store (record (self.load scope.world) { borrowed = true }) scope.world)),
          with_borrow_mut_lem self again (
              in_world scope
                (self.store (record (self.load scope.world) { borrowed = true }) scope.world)),
          laws.load-store (record (self.load scope.world) { borrowed = true }) scope.world,
        )
      ]

  -- `process` of a shared RefCell, where memory keeps what is stored, panics where the cell is
  -- borrowed, also when a body that runs on the value calls it again; else it runs `process` of the
  -- value inside on the borrowed cell, stores what that leaves, and the cell is free again. `process`
  -- of a shared Mutex waits for the lock, panics where the mutex is poisoned, and else does the same.
  pub shared_process-forwards :
      (sub : MutEventSubscriber os S R T) (place : Location os (RefCell T))
      (mutex : SharedMutex os T) (events : Events os) (again : T → Handler os S R T)
      (later : T → Unit {0} → Handler os S R T) (scope : Scope os S R)
      → LocationLaws place
      → (run_handler ((refcell_event_subscriber sub).process place events) scope ≡ (
          if (place.load scope.world).borrowed
          then panicked
          else run_handler (sub.process (place.load scope.world).value events) (
              in_world scope
                (place.store (record (place.load scope.world) { borrowed = true }) scope.world))
            >>= (λ left. returned (
              tt,
              in_world left.1
                  (place.store (record { value = left.0; borrowed = false }) left.1.world),
            ))))
        × Ensures
            (λ left. (place.load left.1.world).borrowed ≡ false)
            (run_handler ((refcell_event_subscriber sub).process place events) scope)
        × (run_handler
              (with_borrow_mut place (λ t. bind_handler (with_borrow_mut place again) (later t)))
              scope
            ≡ panicked)
        × (run_handler ((mutex_event_subscriber sub).process mutex events) scope ≡ (
            if (mutex.cell.load (mutex.acquire scope.world)).poisoned
            then panicked
            else run_handler
                (sub.process (mutex.cell.load (mutex.acquire scope.world)).value events)
                (in_world scope (mutex.acquire scope.world))
              >>= (λ left. returned (
                tt,
                in_world left.1
                    (mutex.cell.store (record { value = left.0; poisoned = false }) left.1.world),
              ))))
  unfolding refcell_event_subscriber mutex_event_subscriber
  shared_process-forwards sub place mutex events again later scope laws = (
    with_borrow_mut_lem place (λ t. sub.process t events) scope,
    with_borrow_mut-frees place (λ t. sub.process t events) scope laws,
    with_borrow_mut-twice place again later scope laws,
    with_lock_lem mutex (λ t. sub.process t events) scope,
  )
