-- ===== src/Utilities/InnerMut.antt =====
-- `CounterInnerMutSubscriber` of src/utilities/subscribers.rs. Its counter is an atomic, a place in
-- memory that other threads reach as well.
use event_manager.Prelude.{
  ℕ, ◌+◌, ◌%◌, ◌^◌, ◌≡◌, [], ◌∷◌, ok, err, Bool-cases, Result-cases, inl, inr, Outcome, returned,
  panicked, ◌>>=◌, ◌==◌, if◌then◌else◌,
}
use event_manager.Os.{Os}
use event_manager.Events
use event_manager.Events.{Events}
use event_manager.EventOps.{adds, removes, perform}
use event_manager.Handler.{Handler, EventSubscriber, Scope, run_handler}
use event_manager.Traits.Shared.{Location, LocationLaws, in_world}
use event_manager.Utilities.{Counter, expect_all, process_counter, increment}

pub record CounterInnerMutSubscriber (os : Os) : Type 0 where
  pub event_fd : os.EventFd
  pub counter : Location os ℕ

module _ {os : Os} where
  -- `EventFd::new(0).unwrap()`, and a new counter, at `counter`, which is 0.
  unfoldable pub default_inner_mut :
      Location os ℕ → os.World → Outcome (CounterInnerMutSubscriber os × os.World)
  default_inner_mut counter world =
      let (made, world') = os.eventfd_new 0 world in
      elim made [
        | err _ ↦ panicked
        | ok fd ↦ returned (record { event_fd = fd; counter = counter }, counter.store 0 world')
      ]

  unfoldable pub trigger_inner_mut : CounterInnerMutSubscriber os → os.World → os.World
  trigger_inner_mut self world = (os.eventfd_write self.event_fd 1 world).1

  unfoldable pub clear_inner_mut : CounterInnerMutSubscriber os → os.World → os.World
  clear_inner_mut self world = (os.eventfd_read self.event_fd world).1

  unfoldable pub counter_inner_mut : CounterInnerMutSubscriber os → os.World → ℕ
  counter_inner_mut self world = self.counter.load world

  -- `fetch_add(1)`, which wraps
  unfoldable pub fetch_add_one : Location os ℕ → os.World → os.World
  fetch_add_one counter world = counter.store ((counter.load world + 1) % 2 ^ 64) world

  -- The `CounterSubscriber` that has the same descriptor and the same count.
  unfoldable pub plain_counter : CounterInnerMutSubscriber os → os.World → Counter os
  unfolding counter_inner_mut
  plain_counter self world = record {
    event_fd = self.event_fd;
    counter = counter_inner_mut self world;
  }

module _ {os : Os} {S R : Type 0} where
  unfoldable pub process_inner_mut :
      CounterInnerMutSubscriber os → Events os → Handler os S R (Unit {0})
  unfolding fetch_add_one expect_all
  process_inner_mut self events =
      if Events.event_set events == os.set_in
      then Handler.effect (fetch_add_one self.counter) (λ _. Handler.done tt)
      else if Events.event_set events == os.set_error
      then Handler.done tt
      else if Events.event_set events == os.set_hang_up
      then expect_all removes (events ∷ []) Handler.panics
      else Handler.done tt

  unfoldable pub init_inner_mut : CounterInnerMutSubscriber os → Handler os S R (Unit {0})
  unfolding expect_all
  init_inner_mut self =
      expect_all adds (Events.new_raw (os.eventfd_raw self.event_fd) os.set_in ∷ [])
        (Handler.done tt)

  unfoldable pub inner_mut_subscriber : EventSubscriber os S R (CounterInnerMutSubscriber os)
  unfolding process_inner_mut init_inner_mut
  inner_mut_subscriber = record { process = process_inner_mut; init = init_inner_mut }

  -- A hang-up ends in a panic, whatever the removal answers.
  hang_up-panics :
      {A : Type 0} (events : Events os) (scope : Scope os S R)
      → run_handler {A = A} (expect_all removes (events ∷ []) Handler.panics) scope ≡ panicked
  unfolding expect_all run_handler
  hang_up-panics {A} events scope = elim (Result-cases (perform (removes events) scope.ops).0) [
    | inl (_, done) ↦ rw (done, run_handler)
    | inr (e, failed) ↦ rw (failed, run_handler)
  ]

  -- Where memory keeps what is stored, `CounterInnerMutSubscriber` processes events as the
  -- `CounterSubscriber` with the same descriptor and the same count does, and its atomic counter is
  -- then the count of that one.
  pub process_inner_mut-counts :
      (self : CounterInnerMutSubscriber os) (events : Events os) (scope : Scope os S R)
      → LocationLaws self.counter
      → run_handler (process_inner_mut self events) scope ≡ (
          run_handler (process_counter (plain_counter self scope.world) events) scope >>= (λ left.
            returned (tt, in_world left.1 (self.counter.store left.0.counter left.1.world))))
  unfolding process_inner_mut process_counter fetch_add_one increment run_handler plain_counter
      counter_inner_mut
  process_inner_mut-counts self events scope laws =
      elim (Bool-cases (Events.event_set events == os.set_in)) [
        | inl input ↦ rw (input, run_handler)
        | inr other ↦ elim (Bool-cases (Events.event_set events == os.set_error)) [
          | inl error ↦ rw (other, error, run_handler, laws.store-load scope.world)
          | inr other₂ ↦ elim (Bool-cases (Events.event_set events == os.set_hang_up)) [
            | inl hang_up ↦ rw (
              other,
              other₂,
              hang_up,
              hang_up-panics {A = Unit {0}} events scope,
              hang_up-panics {A = Counter os} events scope,
            )
            | inr spurious ↦ rw (other, other₂, spurious, run_handler, laws.store-load scope.world)
          ]
        ]
      ]
