-- ===== src/Tests/Subscribers.antt =====
-- The theorems about subscribers in cells, and about the counting subscribers, at concrete inputs.
use event_manager.Prelude.{
  ◌*◌, ℕ, ◌+◌, ◌%◌, ◌^◌, ◌≡◌, refl, true, false, some, [], ◌∷◌, Returns, Ensures, arith,
}
use event_manager.Events
use event_manager.Events.{Events}
use event_manager.Epoll.{subscriber_id}
use event_manager.Epoll.Flushed.{IsFlushed}
use event_manager.Handler.{Scope, run_handler}
use event_manager.Utilities.{
  CounterSubscriberWithData, events_with_data, get_all_counter_values, process_with_data,
}
use event_manager.Utilities.Counting.{bump, process_with_data-counts}
use event_manager.Utilities.Reuse.{process_with_data-reuses}
use event_manager.Tests.Kernel.{sim, sim-EpollEventLaws}
use event_manager.Tests.Examples.{counting, channel}

-- Subscriber 1 has registered descriptors 7, 8 and 9, with the data 5, 6 and 7.
abbrev three : CounterSubscriberWithData sim
three = record {
  counter_1 = record { event_fd = 7; counter = 10 };
  counter_2 = record { event_fd = 8; counter = 20 };
  counter_3 = record { event_fd = 9; counter = 30 };
  first_data = 5;
  toggle_registry = false;
}

abbrev toggled : CounterSubscriberWithData sim
toggled = record three { toggle_registry = true }

abbrev three_scope : Scope sim ℕ ℕ
three_scope = record {
  ops = record {
    context = record {
      wrapper = record {
        epoll = 3;
        fd_dispatch = (7, 1) ∷ (8, 1) ∷ (9, 1) ∷ [];
        subscriber_watch_list = (1, 7 ∷ 8 ∷ 9 ∷ []) ∷ [];
        ready_events = (1, 5 * 2 ^ 32 + 7) ∷ (1, 6 * 2 ^ 32 + 8) ∷ [];
      };
      world = record {
        interest =
            (7, (1, 5 * 2 ^ 32 + 7)) ∷ (8, (1, 6 * 2 ^ 32 + 8)) ∷ (9, (1, 7 * 2 ^ 32 + 9)) ∷ [];
        pending = [];
        next_fd = 10;
        memory = (5, false);
        signalled = false;
      };
    };
    subscriber_id = 1;
  };
  channel = channel;
}

process_with_data-counts_example :
    Returns
      (λ left.
        (get_all_counter_values left.0 ≡ bump (get_all_counter_values three) 1)
        × (left.1 ≡ three_scope))
      (run_handler
        (process_with_data three
          (Events.with_data_raw 8 ((three.first_data + 1) % 2 ^ 32) sim.set_in))
        three_scope)
process_with_data-counts_example =
    process_with_data-counts sim-EpollEventLaws three 8 1 three_scope refl (omega arith)
      (omega arith) (omega arith)

process_with_data-reuses_example :
    Ensures
      (λ left.
        (subscriber_id left.1.wrapper 8 ≡ some three_scope.subscriber_id)
        × IsFlushed sim 8 left.1.wrapper)
      (run_handler (process_with_data toggled (Events.with_data_raw 8 6 sim.set_in)) three_scope)
unfolding events_with_data Events.with_data_raw Events.fd
process_with_data-reuses_example =
    process_with_data-reuses toggled (Events.with_data_raw 8 6 sim.set_in) three_scope 8 refl refl
