-- ===== src/Tests/Stale.antt =====
-- A subscriber has closed its descriptor while a duplicate is open, and is removed from the manager.
use event_manager.Prelude.{ℕ, ◌+◌, ◌≡◌, refl, true, false, [], ◌∷◌, err, panicked, arith}
use event_manager.Prelude.HashMap
use event_manager.Os.{Os, op_add, op_modify, op_delete, from_raw_os_error}
use event_manager.Epoll
use event_manager.Epoll.{subscriber_id, watched}
use event_manager.Endpoint
use event_manager.Handler.{Handler, MutEventSubscriber}
use event_manager.Manager.{Machine, remove_subscriber}
use event_manager.Manager.Loop
use event_manager.Manager.Stale.{run_with_timeout-panics}
use event_manager.Manager.Wellformed.{IsWellformed}
use event_manager.Subscribers
use event_manager.Tests.Kernel.{sim, sim_ctl}

-- Each deletion fails with EBADF.
abbrev closed : Os
closed = record sim {
  epoll_ctl = λ ep op fd ev w. elim op [
    | op_add ↦ sim_ctl op_add fd ev w
    | op_modify ↦ sim_ctl op_modify fd ev w
    | op_delete ↦ (err (from_raw_os_error 9), w)
  ];
}

instance abbrev counting : MutEventSubscriber closed ℕ ℕ ℕ
counting = record { process = λ t e. Handler.done (t + 1); init = λ t. Handler.done t }

abbrev machine : Machine closed ℕ ℕ
machine = record {
  manager = record {
    subscribers = record { subscribers = (1, 0) ∷ []; next_id = 2 };
    epoll_context = record {
      epoll = 3;
      fd_dispatch = (7, 1) ∷ [];
      subscriber_watch_list = (1, 7 ∷ []) ∷ [];
      ready_events = (0, 0) ∷ (0, 0) ∷ [];
    };
    channel = record { event_fd = 4; messages = []; receiver_alive = true; replies = [] };
  };
  world = record {
    interest = (4, (1, 4)) ∷ (7, (1, 7)) ∷ [];
    pending = (1, 7) ∷ [];
    next_fd = 8;
    memory = (5, false);
    signalled = false;
  };
}

machine-IsWellformed : IsWellformed machine
unfolding subscriber_id watched HashMap.get
machine-IsWellformed = record {
  consistent = λ fd id e. ground arith;
  live = λ fd id e. ground arith;
}

run_with_timeout-panics_example :
    Loop.run_with_timeout 3 100 (remove_subscriber 1 machine).1 ≡ panicked
unfolding Endpoint.fd Epoll.poll Epoll.poll_result Epoll.remove Epoll.remove_fds Epoll.remove_fd
    Epoll.remove_event Epoll.discard subscriber_id watched HashMap.get HashMap.remove
    remove_subscriber Subscribers.remove
run_with_timeout-panics_example =
    run_with_timeout-panics 3 100 0 1 7 (1, 7) machine machine-IsWellformed refl refl refl refl refl
      refl
