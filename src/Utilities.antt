-- ===== src/Utilities.antt =====
-- src/utilities/subscribers.rs: the counting subscribers that the tests and benchmarks share. Text
-- that is printed is not modelled. Counters are `u64` and data is `u32`, and both wrap.
pub mod Expect
pub mod Counting
pub mod Reuse
pub mod InnerMut
use event_manager.Prelude.{
  ℕ, ◌+◌, ◌-◌, ◌%◌, ◌^◌, Bool, true, false, List, [], ◌∷◌, ◌++◌, Result, ok, err, Outcome, returned,
  panicked, ◌>>=◌, ◌==◌, if◌then◌else◌,
}
use event_manager.Os.{Os, IoError}
use event_manager.Error.{Error}
use event_manager.Events
use event_manager.Events.{Events}
use event_manager.EventOps.{Request, adds, removes}
use event_manager.Handler.{Handler, MutEventSubscriber}

pub record Counter (os : Os) : Type 0 where
  pub event_fd : os.EventFd
  pub counter : ℕ

pub record CounterSubscriberWithData (os : Os) : Type 0 where
  pub counter_1 : Counter os
  pub counter_2 : Counter os
  pub counter_3 : Counter os
  pub first_data : ℕ
  pub toggle_registry : Bool

module _ {os : Os} where
  -- `EventFd::new(0).unwrap()`
  unfoldable pub new_counter : os.World → Outcome (Counter os × os.World)
  new_counter world =
      let (made, world') = os.eventfd_new 0 world in
      elim made [
        | err _ ↦ panicked
        | ok fd ↦ returned (record { event_fd = fd; counter = 0 }, world')
      ]

  -- `Counter::default`, and that of `CounterSubscriber`
  unfoldable pub default_counter : os.World → Outcome (Counter os × os.World)
  unfolding new_counter
  default_counter = new_counter

  unfoldable pub counter_value : Counter os → ℕ
  counter_value self = self.counter

  unfoldable pub trigger_event : Counter os → os.World → os.World
  trigger_event self world = (os.eventfd_write self.event_fd 1 world).1

  unfoldable pub clear_event : Counter os → os.World → os.World
  clear_event self world = (os.eventfd_read self.event_fd world).1

  -- `self.counter += 1`
  unfoldable pub increment : Counter os → Counter os
  increment self = record self { counter = (self.counter + 1) % 2 ^ 64 }

  -- `CounterSubscriberWithData::new`
  unfoldable pub new_with_data : ℕ → os.World → Outcome (CounterSubscriberWithData os × os.World)
  unfolding new_counter
  new_with_data first_data world = new_counter world >>= (λ (counter_1, world₁).
      new_counter world₁ >>= (λ (counter_2, world₂). new_counter world₂ >>= (λ (counter_3, world₃).
        returned (
          record {
            counter_1 = counter_1;
            counter_2 = counter_2;
            counter_3 = counter_3;
            first_data = first_data;
            toggle_registry = false;
          },
          world₃,
        ))))

  unfoldable pub set_toggle_registry :
      Bool → CounterSubscriberWithData os → CounterSubscriberWithData os
  set_toggle_registry toggle self = record self { toggle_registry = toggle }

  unfoldable pub trigger_all_counters : CounterSubscriberWithData os → os.World → os.World
  unfolding trigger_event
  trigger_all_counters self world =
      trigger_event self.counter_3
        (trigger_event self.counter_2 (trigger_event self.counter_1 world))

  unfoldable pub get_all_counter_values : CounterSubscriberWithData os → List ℕ
  unfolding counter_value
  get_all_counter_values self =
      counter_value self.counter_1
      ∷ counter_value self.counter_2
      ∷ counter_value self.counter_3
      ∷ []

  -- The events of the three counters, with consecutive data.
  unfoldable pub events_with_data : CounterSubscriberWithData os → List (Events os)
  events_with_data self =
      Events.with_data_raw (os.eventfd_raw self.counter_1.event_fd) self.first_data os.set_in
      ∷ Events.with_data_raw (os.eventfd_raw self.counter_2.event_fd)
          ((self.first_data + 1) % 2 ^ 32) os.set_in
      ∷ Events.with_data_raw (os.eventfd_raw self.counter_3.event_fd)
          ((self.first_data + 2) % 2 ^ 32) os.set_in
      ∷ []

  -- The inner `match` of `CounterSubscriberWithData::process`, on the data of the events.
  unfoldable pub count_data :
      Events os → CounterSubscriberWithData os → CounterSubscriberWithData os
  unfolding increment
  count_data events self =
      let event_id = (Events.user_data events + 2 ^ 32 - self.first_data) % 2 ^ 32 in
      if event_id == 0
      then record self { counter_1 = increment self.counter_1 }
      else if event_id == 1
      then record self { counter_2 = increment self.counter_2 }
      else if event_id == 2
      then record self { counter_3 = increment self.counter_3 }
      else self

module _ {os : Os} {S R A : Type 0} where
  -- Requests in order, each with `expect` on its answer.
  unfoldable pub expect_all :
      (Events os → Request os) → List (Events os) → Handler os S R A → Handler os S R A
  expect_all make [] k = k
  expect_all make (e ∷ events) k =
      Handler.request (make e)
        (λ answer. elim answer [ ok _ ↦ expect_all make events k | err _ ↦ Handler.panics ])

module _ {os : Os} {S R : Type 0} where
  -- The `match` of `CounterSubscriber::process`.
  unfoldable pub process_counter : Counter os → Events os → Handler os S R (Counter os)
  unfolding increment expect_all
  process_counter self events =
      if Events.event_set events == os.set_in
      then Handler.done (increment self)
      else if Events.event_set events == os.set_error
      then Handler.done self
      else if Events.event_set events == os.set_hang_up
      then expect_all removes (events ∷ []) Handler.panics
      else Handler.done self

  unfoldable pub init_counter : Counter os → Handler os S R (Counter os)
  unfolding expect_all
  init_counter self =
      expect_all adds (Events.new_raw (os.eventfd_raw self.event_fd) os.set_in ∷ [])
        (Handler.done self)

  unfoldable pub match_with_data :
      CounterSubscriberWithData os → Events os → Handler os S R (CounterSubscriberWithData os)
  unfolding count_data expect_all
  match_with_data self events =
      if Events.event_set events == os.set_in
      then Handler.done (count_data events self)
      else if Events.event_set events == os.set_error
      then Handler.done self
      else if Events.event_set events == os.set_hang_up
      then expect_all removes (events ∷ []) Handler.panics
      else Handler.done self

  unfoldable pub process_with_data :
      CounterSubscriberWithData os → Events os → Handler os S R (CounterSubscriberWithData os)
  unfolding match_with_data events_with_data
  process_with_data self events =
      if self.toggle_registry
      then (let self' = record self { toggle_registry = false } in
          expect_all removes (events_with_data self')
            (expect_all adds (events_with_data self') (match_with_data self' events)))
      else match_with_data self events

  unfoldable pub init_with_data :
      CounterSubscriberWithData os → Handler os S R (CounterSubscriberWithData os)
  unfolding expect_all events_with_data
  init_with_data self = expect_all adds (events_with_data self) (Handler.done self)

  -- The two implementations of `MutEventSubscriber`.
  unfoldable pub counter_subscriber : MutEventSubscriber os S R (Counter os)
  unfolding process_counter init_counter
  counter_subscriber = record { process = process_counter; init = init_counter }

  unfoldable pub counter_subscriber_with_data :
      MutEventSubscriber os S R (CounterSubscriberWithData os)
  unfolding process_with_data init_with_data
  counter_subscriber_with_data = record { process = process_with_data; init = init_with_data }
