-- ===== src/UnitTests/EventTests.antt =====
-- The unit tests of src/events.rs, run on any operating system.
use event_manager.Prelude.{
  ◌^◌, ◌<◌, ◌≡◌, Bool, not, ok, err, Outcome, returned, panicked, ◌>>=◌, Returns, ◌==◌, arith,
  if◌then◌else◌,
}
use event_manager.Os.{Os, EpollEventLaws}
use event_manager.Events
use event_manager.Events.{AsRawFd, eq, event_set, user_data, fd}
use event_manager.Events.RoundTrip.{fd-with_data_raw, user_data-with_data_raw, eq-with_data_raw}

-- `assert!`, and `assert_eq!` and `assert_ne!` of what is compared
abbrev pub assert : Bool → Outcome (Unit {0})
assert holds = if holds then returned tt else panicked

module _ (os : Os) where
  -- `AsRawFd` of `EventFd`
  abbrev eventfd_source : AsRawFd os.EventFd
  eventfd_source = record { as_raw_fd = os.eventfd_raw }

  unfoldable pub test_empty_events : os.World → Outcome (Unit {0})
  unfolding Events.empty_raw Events.empty
  test_empty_events world = elim (os.eventfd_new 0 world).0 [
    | err _ ↦ panicked
    | ok event_fd ↦
        let events_raw = Events.empty_raw {os = os} (os.eventfd_raw event_fd) in
        let events = Events.empty {os = os} ⦃source_fd = eventfd_source⦄ event_fd in
        assert (eq events events_raw)
        >>= (λ _. assert (event_set events == os.set_empty))
        >>= (λ _. assert (user_data events == 0))
        >>= (λ _. assert (fd events == os.eventfd_raw event_fd))
  ]

  unfoldable pub test_events_no_data : os.World → Outcome (Unit {0})
  unfolding Events.new_raw Events.new
  test_events_no_data world = elim (os.eventfd_new 0 world).0 [
    | err _ ↦ panicked
    | ok event_fd ↦
        let events_raw = Events.new_raw {os = os} (os.eventfd_raw event_fd) os.set_in in
        let events = Events.new {os = os} ⦃source_fd = eventfd_source⦄ event_fd os.set_in in
        assert (eq events_raw events)
        >>= (λ _. assert (user_data events == 0))
        >>= (λ _. assert (fd events == os.eventfd_raw event_fd))
        >>= (λ _. assert (event_set events == os.set_in))
  ]

  unfoldable pub test_events_data : os.World → Outcome (Unit {0})
  unfolding Events.with_data_raw Events.with_data
  test_events_data world = elim (os.eventfd_new 0 world).0 [
    | err _ ↦ panicked
    | ok event_fd ↦
        let events_raw = Events.with_data_raw {os = os} (os.eventfd_raw event_fd) 42 os.set_in in
        let events =
          Events.with_data {os = os} ⦃source_fd = eventfd_source⦄ event_fd 43 os.set_in in
        assert (not (eq events_raw events))
        >>= (λ _. assert (user_data events == 43))
        >>= (λ _. assert (user_data events_raw == 42))
  ]

module _ {os : Os} (laws : EpollEventLaws os) where
  -- Where a new eventfd has a descriptor that is not negative, the three unit tests of `Events` pass.
  pub event_tests-Returns :
      (world : os.World) (event_fd : os.EventFd)
      → (os.eventfd_new 0 world).0 ≡ ok event_fd
      → os.eventfd_raw event_fd < 2 ^ 31
      → Returns (λ _. Unit {0}) (test_empty_events os world)
        × Returns (λ _. Unit {0}) (test_events_no_data os world)
        × Returns (λ _. Unit {0}) (test_events_data os world)
  unfolding test_empty_events test_events_no_data test_events_data Events.empty Events.empty_raw
      Events.new Events.new_raw Events.with_data
  event_tests-Returns world event_fd made small =
      let raw = os.eventfd_raw event_fd in
      (
        rw (made, test_empty_events)
            (ground (
              arith,
              eq-with_data_raw laws raw raw 0 0 os.set_empty os.set_empty small small (omega arith)
                  (omega arith),
              fd-with_data_raw laws raw 0 os.set_empty (omega (arith, small)),
              user_data-with_data_raw laws raw 0 os.set_empty small (omega arith),
            )),
        rw (made, test_events_no_data)
            (ground (
              arith,
              eq-with_data_raw laws raw raw 0 0 os.set_in os.set_in small small (omega arith)
                  (omega arith),
              fd-with_data_raw laws raw 0 os.set_in (omega (arith, small)),
              user_data-with_data_raw laws raw 0 os.set_in small (omega arith),
            )),
        rw (made, test_events_data)
            (ground (
              arith,
              eq-with_data_raw laws raw raw 42 43 os.set_in os.set_in small small (omega arith)
                  (omega arith),
              user_data-with_data_raw laws raw 43 os.set_in small (omega arith),
              user_data-with_data_raw laws raw 42 os.set_in small (omega arith),
            )),
      )
