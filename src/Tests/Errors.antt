-- ===== src/Tests/Errors.antt =====
-- The table of routes and registrations, and the errors of the operations, at concrete inputs.
use event_manager.Prelude.{
  ℕ, ◌≡◌, ◌⊎◌, refl, ap, true, none, some, List, [], ◌∷◌, ok, err, returned, if◌then◌else◌,
}
use event_manager.Prelude.HashMap
use event_manager.Os.{Os, from_raw_os_error}
use event_manager.Error.{Error, fd_already_registered}
use event_manager.Events
use event_manager.Events.{Events}
use event_manager.Epoll
use event_manager.Epoll.{Context, subscriber_id}
use event_manager.Epoll.Consistent.{IsExact}
use event_manager.EventOps
use event_manager.EventOps.{EventOps, Request, adds, removes, perform, ops_unchecked}
use event_manager.EventOps.Errors.{IsUndone, perform-err}
use event_manager.EventOps.Table.{entry, table, Command, asks, drops}
use event_manager.EventOps.Table.Run.{run_commands, replay, obey, AllRefused, run_refines}
use event_manager.Handler.{MutEventSubscriber, Handler}
use event_manager.Manager.{Machine, context}
use event_manager.Manager.Errors.{
  AllInvalid, AllValid, invalid_id_cases, is_interrupted, waited, run_with_timeout-wait_err,
}
use event_manager.Manager.Loop
use event_manager.Tests.Kernel.{sim, sim_kernel, interest-sim_kernel}
use event_manager.Tests.Examples.{counting, machine, wrapper-IsExact}

abbrev seven : Events sim
seven = record { inner = (1, 7) }

-- Subscriber 1 gives descriptor 7 up, subscriber 2 takes it, and is removed.
abbrev commands : List (Command sim)
commands = asks 1 (removes seven) ∷ asks 2 (adds seven) ∷ asks 1 (adds seven) ∷ drops 2 ∷ []

run_refines_example :
    IsExact sim (run_commands commands (context machine)).1.wrapper
    × (table sim_kernel (run_commands commands (context machine)).1
        ≡ replay (run_commands commands (context machine)).0 (table sim_kernel (context machine)))
    × AllRefused (run_commands commands (context machine)).0 (table sim_kernel (context machine))
unfolding run_commands obey subscriber_id HashMap.get Events.fd Epoll.remove perform
run_refines_example =
    run_refines sim_kernel commands (context machine) wrapper-IsExact
      (((1, 7), ap (entry (some 1)) (interest-sim_kernel 3 7 machine.world)), (tt, (tt, tt)))

abbrev own : EventOps sim
own = record { context = context machine; subscriber_id = 1 }

perform-err_example :
    IsUndone sim_kernel (adds seven) fd_already_registered own (perform (adds seven) own).1
unfolding perform EventOps.add HashMap.contains_key HashMap.get Events.fd
perform-err_example = perform-err sim_kernel (adds seven) own fd_already_registered refl

invalid_id_cases_example :
    ((HashMap.get machine.subscribers.subscribers 5 ≡ none)
      × AllInvalid 5 (λ t. t) (adds seven) machine)
    ⊎ ((t : ℕ) × (HashMap.get machine.subscribers.subscribers 5 ≡ some t)
        × AllValid 5 t (λ t. t) (adds seven) machine)
invalid_id_cases_example = invalid_id_cases 5 (λ t. t) (adds seven) machine

-- An operating system on which a signal interrupts every wait.
abbrev interrupted : Os
interrupted = record sim { epoll_wait = λ ep ms buffer w. (err (from_raw_os_error 4), buffer, w) }

instance abbrev silent : MutEventSubscriber interrupted ℕ ℕ ℕ
silent = record { process = λ t e. Handler.panics; init = λ t. Handler.panics }

abbrev waiting : Machine interrupted ℕ ℕ
waiting = record {
  manager = record {
    subscribers = record { subscribers = (1, 0) ∷ []; next_id = 2 };
    epoll_context = record {
      epoll = 3;
      fd_dispatch = (7, 1) ∷ [];
      subscriber_watch_list = (1, 7 ∷ []) ∷ [];
      ready_events = (1, 7) ∷ [];
    };
    channel = record { event_fd = 4; messages = []; receiver_alive = true; replies = [] };
  };
  world = machine.world;
}

run_with_timeout-wait_err_example :
    Loop.run_with_timeout 0 100 waiting
    ≡ returned (
      (if is_interrupted interrupted (from_raw_os_error 4)
          then ok 0
          else err (Error.epoll (interrupted.errno_from (from_raw_os_error 4)))),
      waited 100 waiting,
    )
run_with_timeout-wait_err_example =
    run_with_timeout-wait_err 0 100 waiting (from_raw_os_error 4) refl
