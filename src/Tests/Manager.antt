-- ===== src/Tests/Manager.antt =====
-- The unit tests of src/manager.rs, in an operating system that reports what is ready at each wait.
use event_manager.Prelude.{
  Ensures, ◌>>=◌, ◌≡◌, refl, Bool, true, false, Outcome, returned, panicked,
}
use event_manager.Prelude.HashMap
use event_manager.Prelude.HashMap.{HashMap}
use event_manager.Events
use event_manager.Epoll
use event_manager.EventOps
use event_manager.Subscribers
use event_manager.Endpoint
use event_manager.Handler
use event_manager.Manager
use event_manager.Manager.Loop
use event_manager.Traits.{Mutex}
use event_manager.Traits.Shared.{Location, LocationLaws, mutex_event_subscriber}
use event_manager.UnitTests.{DummySubscriber, new_dummy}
use event_manager.UnitTests.Invalid.{IsRefused, test_add_invalid_subscriber-panics}
use event_manager.UnitTests.ManagerTests.{
  set_up, add_shared, test_register, test_add_invalid_subscriber, test_unregister, test_modify,
  test_remove_subscriber,
}
use event_manager.Tests.Level.{level, before}

abbrev place : Location level (Mutex (DummySubscriber level))
place = record {
  load = λ w. record {
    value = record {
      event_fd_1 = w.event_fds.0;
      event_fd_2 = w.event_fds.1;
      processed_ev1_out = w.processed.0;
      processed_ev2_out = w.processed.1;
      processed_ev1_in = w.processed.2;
      register_ev2 = w.requested.0;
      unregister_ev1 = w.requested.1;
      modify_ev1 = w.requested.2;
    };
    poisoned = w.poisoned;
  };
  store = λ m w. record w {
    event_fds = (m.value.event_fd_1, m.value.event_fd_2);
    processed = (m.value.processed_ev1_out, m.value.processed_ev2_out, m.value.processed_ev1_in);
    requested = (m.value.register_ev2, m.value.unregister_ev1, m.value.modify_ev1);
    poisoned = m.poisoned;
  };
}

abbrev passes : {A : Type 0} → Outcome A → Bool
passes (returned _) = true
passes _ = false

-- The one that should panic does, and the others pass.
manager_tests_pass :
    (passes (test_register place 1 before) ≡ true)
    × (test_add_invalid_subscriber place before ≡ panicked)
    × (passes (test_unregister place 1 before) ≡ true)
    × (passes (test_modify place 1 before) ≡ true)
    × (passes (test_remove_subscriber place 1 before) ≡ true)
unfolding test_register test_add_invalid_subscriber test_unregister test_modify
    test_remove_subscriber Manager.new Manager.new_with_capacity Manager.max_ready_events_capacity
    Epoll.new Epoll.poll Epoll.discard Epoll.remove_event Epoll.watched Epoll.subscriber_id
    Endpoint.new Endpoint.fd Endpoint.kick Endpoint.send_msg EventOps.ops_unchecked EventOps.perform
    EventOps.add EventOps.modify EventOps.remove EventOps.ctl EventOps.register EventOps.unwatch
    Events.new_raw Events.fd Events.epoll_event Events.event_set Events.with_data_raw
    Handler.run_handler Handler.bind_handler Subscribers.new Subscribers.add
    Subscribers.get_mut_unchecked Subscribers.write_back Loop.add_subscriber Loop.dispatch_event
    mutex_event_subscriber HashMap.get HashMap.insert HashMap.remove new_dummy HashMap.contains_key
    Subscribers.remove Epoll.remove Epoll.remove_fd
manager_tests_pass = (refl, refl, refl, refl, refl)

place-LocationLaws : LocationLaws place
place-LocationLaws = record { load-store = λ v w. refl; store-load = λ w. refl }

test_add_invalid_subscriber-panics_example :
    Ensures (IsRefused place) (set_up place before >>= add_shared place)
    × (test_add_invalid_subscriber place before ≡ panicked)
test_add_invalid_subscriber-panics_example =
    test_add_invalid_subscriber-panics place before place-LocationLaws
