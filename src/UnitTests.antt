-- ===== src/UnitTests.antt =====
-- `DummySubscriber` of the unit tests in src/manager.rs: its events are registered, removed and
-- modified while one of them is processed.
pub mod Dummy
pub mod EventTests
pub mod ManagerTests
pub mod Invalid
use event_manager.Prelude.{
  Bool, true, false, [], ◌∷◌, ok, err, Outcome, returned, panicked, ◌>>=◌, ◌==◌, if◌then◌else◌,
}
use event_manager.Os.{Os, RawFd, EventSet}
use event_manager.Events
use event_manager.Events.{Events}
use event_manager.EventOps.{adds, modifies, removes}
use event_manager.Handler.{Handler, MutEventSubscriber, bind_handler}
use event_manager.Utilities.{expect_all}

pub record DummySubscriber (os : Os) : Type 0 where
  pub event_fd_1 : os.EventFd
  pub event_fd_2 : os.EventFd
  pub processed_ev1_out : Bool
  pub processed_ev2_out : Bool
  pub processed_ev1_in : Bool
  pub register_ev2 : Bool
  pub unregister_ev1 : Bool
  pub modify_ev1 : Bool

module _ {os : Os} where
  -- `EventFd::new(0).unwrap()`, twice
  unfoldable pub new_dummy : os.World → Outcome (DummySubscriber os × os.World)
  new_dummy world =
      let (made_1, world₁) = os.eventfd_new 0 world in
      elim made_1 [
        | err _ ↦ panicked
        | ok event_fd_1 ↦
            let (made_2, world₂) = os.eventfd_new 0 world₁ in
            elim made_2 [
              | err _ ↦ panicked
              | ok event_fd_2 ↦ returned (
                record {
                  event_fd_1 = event_fd_1;
                  event_fd_2 = event_fd_2;
                  processed_ev1_out = false;
                  processed_ev2_out = false;
                  processed_ev1_in = false;
                  register_ev2 = false;
                  unregister_ev1 = false;
                  modify_ev1 = false;
                },
                world₂,
              )
            ]
      ]

  unfoldable pub request_register_ev2 : DummySubscriber os → DummySubscriber os
  request_register_ev2 self = record self { register_ev2 = true }

  unfoldable pub request_unregister_ev1 : DummySubscriber os → DummySubscriber os
  request_unregister_ev1 self = record self { unregister_ev1 = true }

  unfoldable pub request_modify_ev1 : DummySubscriber os → DummySubscriber os
  request_modify_ev1 self = record self { modify_ev1 = true }

  unfoldable pub reset_state : DummySubscriber os → DummySubscriber os
  reset_state self = record self {
    processed_ev1_out = false;
    processed_ev2_out = false;
    processed_ev1_in = false;
  }

  abbrev pub fd_1 : DummySubscriber os → RawFd
  fd_1 self = os.eventfd_raw self.event_fd_1

  abbrev pub fd_2 : DummySubscriber os → RawFd
  fd_2 self = os.eventfd_raw self.event_fd_2

  unfoldable pub handle_in : RawFd → DummySubscriber os → DummySubscriber os
  handle_in source self =
      if fd_1 self == source then record self { processed_ev1_in = true } else self

  unfoldable pub handle_out : RawFd → DummySubscriber os → DummySubscriber os
  handle_out source self =
      if fd_1 self == source
      then record self { processed_ev1_out = true }
      else if fd_2 self == source
      then record self { processed_ev2_out = true }
      else self

  -- The `match` of `process` on the event set.
  unfoldable pub handle_event : Events os → DummySubscriber os → DummySubscriber os
  unfolding handle_in handle_out
  handle_event events self =
      if Events.event_set events == os.set_in
      then handle_in (Events.fd events) self
      else if Events.event_set events == os.set_out
      then handle_out (Events.fd events) self
      else self

-- `EventSet::all() - EventSet::OUT - EventSet::IN`
abbrev pub all_but_in_out : Os → EventSet
all_but_in_out os = os.set_minus (os.set_minus os.set_all os.set_out) os.set_in

module _ {os : Os} {S R : Type 0} where
  -- The three parts of `handle_updates`.
  unfoldable pub update_register : DummySubscriber os → Handler os S R (DummySubscriber os)
  unfolding expect_all
  update_register self =
      if self.register_ev2
      then expect_all adds (Events.new_raw (fd_2 self) os.set_out ∷ [])
          (Handler.done (record self { register_ev2 = false }))
      else Handler.done self

  unfoldable pub update_unregister : DummySubscriber os → Handler os S R (DummySubscriber os)
  unfolding expect_all
  update_unregister self =
      if self.unregister_ev1
      then expect_all removes (Events.new_raw (fd_1 self) os.set_empty ∷ [])
          (Handler.done (record self { unregister_ev1 = false }))
      else Handler.done self

  unfoldable pub update_modify : DummySubscriber os → Handler os S R (DummySubscriber os)
  unfolding expect_all
  update_modify self =
      if self.modify_ev1
      then expect_all modifies (Events.new_raw (fd_1 self) os.set_in ∷ [])
          (Handler.done (record self { modify_ev1 = false }))
      else Handler.done self

  unfoldable pub handle_updates : DummySubscriber os → Handler os S R (DummySubscriber os)
  unfolding bind_handler update_register update_unregister update_modify
  handle_updates self =
      bind_handler (update_register self)
        (λ self₁. bind_handler (update_unregister self₁) (λ self₂. update_modify self₂))

  unfoldable pub process_dummy :
      DummySubscriber os → Events os → Handler os S R (DummySubscriber os)
  unfolding bind_handler handle_updates handle_event
  process_dummy self events =
      if os.set_intersects (Events.event_set events) (all_but_in_out os)
      then Handler.done self
      else bind_handler (handle_updates self) (λ self'. Handler.done (handle_event events self'))

  unfoldable pub init_dummy : DummySubscriber os → Handler os S R (DummySubscriber os)
  unfolding expect_all
  init_dummy self = expect_all adds (Events.new_raw (fd_1 self) os.set_out ∷ []) (Handler.done self)

  unfoldable pub dummy_subscriber : MutEventSubscriber os S R (DummySubscriber os)
  unfolding process_dummy init_dummy
  dummy_subscriber = record { process = process_dummy; init = init_dummy }
