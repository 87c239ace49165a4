-- ===== src/Tests/Cells.antt =====
-- A subscriber in a shared cell, the subscriber with an atomic counter, and the unit tests'
-- subscriber, at concrete inputs.
use event_manager.Prelude.{
  ℕ, ◌≡◌, refl, true, false, Ensures, arith, returned, panicked, ◌>>=◌, if◌then◌else◌,
}
use event_manager.Events
use event_manager.Events.{Events}
use event_manager.Handler.{Handler, Scope, run_handler, bind_handler}
use event_manager.Manager.{context}
use event_manager.Traits.{RefCell}
use event_manager.Traits.Shared.{
  Location, LocationLaws, SharedMutex, with_borrow_mut, in_world, refcell_event_subscriber,
  mutex_event_subscriber,
}
use event_manager.Traits.Cells.{shared_process-forwards}
use event_manager.UnitTests.{DummySubscriber, process_dummy}
use event_manager.UnitTests.Dummy.{IsUpdated, process_dummy-updates}
use event_manager.Utilities.{process_counter}
use event_manager.Utilities.InnerMut.{
  CounterInnerMutSubscriber, plain_counter, process_inner_mut, process_inner_mut-counts,
}
use event_manager.Tests.Kernel.{sim, sim-EpollEventLaws}
use event_manager.Tests.Examples.{counting, machine, channel}

-- The memory as a cell, and as an atomic.
abbrev cell : Location sim (RefCell ℕ)
cell = record {
  load = λ w. record { value = w.memory.0; borrowed = w.memory.1 };
  store = λ c w. record w { memory = (c.value, c.borrowed) };
}

cell-LocationLaws : LocationLaws cell
cell-LocationLaws = record { load-store = λ v w. refl; store-load = λ w. refl }

abbrev shared : SharedMutex sim ℕ
shared = record {
  cell = record {
    load = λ w. record { value = w.memory.0; poisoned = w.memory.1 };
    store = λ c w. record w { memory = (c.value, c.poisoned) };
  };
  acquire = λ w. w;
}

abbrev scope : Scope sim ℕ ℕ
scope = record { ops = record { context = context machine; subscriber_id = 1 }; channel = channel }

abbrev ready : Events sim
ready = record { inner = (1, 7) }

shared_process-forwards_example :
    (run_handler ((refcell_event_subscriber counting).process cell ready) scope ≡ (
      if (cell.load scope.world).borrowed
      then panicked
      else run_handler (counting.process (cell.load scope.world).value ready) (
          in_world scope
            (cell.store (record (cell.load scope.world) { borrowed = true }) scope.world))
        >>= (λ left. returned (
          tt,
          in_world left.1 (cell.store (record { value = left.0; borrowed = false }) left.1.world),
        ))))
    × Ensures
        (λ left. (cell.load left.1.world).borrowed ≡ false)
        (run_handler ((refcell_event_subscriber counting).process cell ready) scope)
    × (run_handler
          (with_borrow_mut cell
            (λ t. bind_handler (with_borrow_mut cell (λ t. Handler.done t)) (λ _. Handler.done t)))
          scope
        ≡ panicked)
    × (run_handler ((mutex_event_subscriber counting).process shared ready) scope ≡ (
        if (shared.cell.load (shared.acquire scope.world)).poisoned
        then panicked
        else run_handler
            (counting.process (shared.cell.load (shared.acquire scope.world)).value ready)
            (in_world scope (shared.acquire scope.world))
          >>= (λ left. returned (
            tt,
            in_world left.1
                (shared.cell.store (record { value = left.0; poisoned = false }) left.1.world),
          ))))
shared_process-forwards_example =
    shared_process-forwards counting cell shared ready (λ t. Handler.done t) (λ t _. Handler.done t)
      scope cell-LocationLaws

abbrev atomic : CounterInnerMutSubscriber sim
atomic = record {
  event_fd = 7;
  counter = record { load = λ w. w.memory.0; store = λ n w. record w { memory = (n, w.memory.1) } };
}

process_inner_mut-counts_example : run_handler (process_inner_mut atomic ready) scope ≡ (
    run_handler (process_counter (plain_counter atomic scope.world) ready) scope
    >>= (λ left. returned (tt, in_world left.1 (atomic.counter.store left.0.counter left.1.world))))
process_inner_mut-counts_example =
    process_inner_mut-counts atomic ready scope
      (record { load-store = λ v w. refl; store-load = λ w. refl })

-- The second descriptor is to be registered, and the first to be removed.
abbrev dummy : DummySubscriber sim
dummy = record {
  event_fd_1 = 7;
  event_fd_2 = 9;
  processed_ev1_out = false;
  processed_ev2_out = false;
  processed_ev1_in = false;
  register_ev2 = true;
  unregister_ev1 = true;
  modify_ev1 = false;
}

process_dummy-updates_example :
    Ensures (IsUpdated dummy ready scope) (run_handler (process_dummy dummy ready) scope)
unfolding Events.event_set
process_dummy-updates_example =
    process_dummy-updates sim-EpollEventLaws dummy ready scope (omega arith) (omega arith) refl
