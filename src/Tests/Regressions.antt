-- ===== src/Tests/Regressions.antt =====
-- tests/regressions.rs, in an operating system that reports what is ready at each wait.
use event_manager.Prelude.{
  zero, suc, ◌+◌, ◌*◌, ◌^◌, ◌≡◌, refl, subst, true, false, Bool, none, [], ◌∷◌, Outcome, returned,
  ◌>>=◌, Ensures, arith, inr, contains, ◌⊎◌,
}
use event_manager.Prelude.HashMap
use event_manager.Os.{EpollEventLaws}
use event_manager.Events
use event_manager.Epoll
use event_manager.EventOps
use event_manager.Subscribers
use event_manager.Endpoint
use event_manager.Handler
use event_manager.Manager
use event_manager.Manager.Loop
use event_manager.Utilities
use event_manager.Utilities.{
  CounterSubscriberWithData, counter_subscriber_with_data, events_with_data,
}
use event_manager.Utilities.Reuse.{fds}
use event_manager.Epoll.Buffer.{is_discarded}
use event_manager.IntegrationTests.{Tested, test_reuse_file_descriptor, add_toggling}
use event_manager.IntegrationTests.Sifted.{AllOf}
use event_manager.IntegrationTests.Reused.{IsCountedOnce, dispatch_from-reuses}
use event_manager.Tests.Kernel.{unwrap_some}
use event_manager.Tests.Level.{level, before}

abbrev passes : {A : Type 0} → Outcome A → Bool
passes (returned _) = true
passes _ = false

regression_run : passes (test_reuse_file_descriptor level 1 before) ≡ true
unfolding test_reuse_file_descriptor add_toggling Manager.new Manager.new_with_capacity
    Manager.max_ready_events_capacity Epoll.new Epoll.poll Epoll.discard Epoll.remove_event
    Epoll.watched Epoll.subscriber_id Endpoint.new Endpoint.fd Endpoint.kick Endpoint.send_msg
    EventOps.ops_unchecked EventOps.perform EventOps.add EventOps.modify EventOps.remove
    EventOps.ctl EventOps.register EventOps.unwatch Events.new_raw Events.fd Events.epoll_event
    Events.event_set Events.with_data_raw Handler.run_handler Handler.bind_handler Subscribers.new
    Subscribers.add Subscribers.get_mut_unchecked Subscribers.write_back Loop.add_subscriber
    Loop.dispatch_event HashMap.get HashMap.insert HashMap.remove HashMap.contains_key
    Subscribers.remove Epoll.remove Epoll.remove_fd counter_subscriber_with_data
    Utilities.new_with_data Utilities.trigger_all_counters Utilities.set_toggle_registry
    Manager.subscriber_mut Subscribers.contains Events.user_data
regression_run = refl

-- A subscriber with the descriptors 5, 6 and 7, for each of which the wait has reported an event.
abbrev toggling : CounterSubscriberWithData level
toggling = record {
  counter_1 = record { event_fd = 5; counter = 0 };
  counter_2 = record { event_fd = 6; counter = 0 };
  counter_3 = record { event_fd = 7; counter = 0 };
  first_data = 0;
  toggle_registry = true;
}

abbrev machine : Tested level
machine = record {
  manager = record {
    subscribers = record { subscribers = (1, toggling) ∷ []; next_id = 2 };
    epoll_context = record {
      epoll = 3;
      fd_dispatch = (5, 1) ∷ (6, 1) ∷ (7, 1) ∷ [];
      subscriber_watch_list = (1, 5 ∷ 6 ∷ 7 ∷ []) ∷ [];
      ready_events = (1, 5) ∷ (1, 2 ^ 32 + 6) ∷ (1, 2 * 2 ^ 32 + 7) ∷ [];
    };
    channel = record { event_fd = 4; messages = []; receiver_alive = true; replies = [] };
  };
  world = record before {
    interest = (4, (1, 4)) ∷ (5, (1, 5)) ∷ (6, (1, 2 ^ 32 + 6)) ∷ (7, (1, 2 * 2 ^ 32 + 7)) ∷ [];
    next_fd = 8;
  };
}

level-EpollEventLaws : EpollEventLaws level
level-EpollEventLaws = record {
  set_of_new = λ s d. refl;
  data_of_new = λ s d. refl;
  fd_of_data = λ e. refl;
}

machine-AllOf : AllOf level (fds (events_with_data toggling)) 3 machine.epoll_context
unfolding events_with_data Events.fd Events.with_data_raw
machine-AllOf zero ev lt e =
    subst
      (λ x. (is_discarded level x ≡ true) ⊎ (contains (5 ∷ 6 ∷ 7 ∷ []) (level.event_fd x) ≡ true))
      (unwrap_some (1, 2 ^ 32 + 6) ev e) (inr refl)
machine-AllOf (suc zero) ev lt e =
    subst
      (λ x. (is_discarded level x ≡ true) ⊎ (contains (5 ∷ 6 ∷ 7 ∷ []) (level.event_fd x) ≡ true))
      (unwrap_some (1, 2 * 2 ^ 32 + 7) ev e) (inr refl)
machine-AllOf (suc (suc i)) ev lt e = absurd (omega (arith, lt))

dispatch_from-reuses_example :
    (Loop.dispatch_from ⦃sub = counter_subscriber_with_data⦄ 3 0 none machine ≡ (
      Loop.process_event ⦃sub = counter_subscriber_with_data⦄ 1 (1, 5) machine
      >>= (λ m'. returned (none, m'))))
    × Ensures
        (IsCountedOnce 1 toggling 0)
        (Loop.process_event ⦃sub = counter_subscriber_with_data⦄ 1 (1, 5) machine)
unfolding Events.with_data_raw Epoll.subscriber_id HashMap.get
dispatch_from-reuses_example =
    dispatch_from-reuses level-EpollEventLaws machine 1 toggling 5 0 2 none refl refl (omega arith)
      (omega arith) (omega arith) (omega arith) refl refl refl machine-AllOf
