-- ===== src/Tests/Witnesses.antt =====
-- Each theorem at a concrete input.
use event_manager.Prelude.{
  if◌then◌else◌, ltb, [], ◌∷◌, refl, ℕ, ◌⊎◌, ltb, ok, err, ◌+◌, ◌-◌, ◌%◌, ◌^◌, ◌<◌, ◌≡◌, ◌↔◌, true,
  none, Ensures, Returns, arith,
}
use event_manager.Events
use event_manager.Prelude.HashMap
use event_manager.Epoll
use event_manager.Subscribers
use event_manager.Endpoint
use event_manager.Manager
use event_manager.Handler.{run_handler}
use event_manager.EventOps.{ops_unchecked}
use event_manager.Events.RoundTrip.{fd-with_data_raw, user_data_cases, eq-with_data_raw}
use event_manager.UnitTests.EventTests.{
  test_empty_events, test_events_no_data, test_events_data, event_tests-Returns,
}
use event_manager.Manager.Loop
use event_manager.Manager.Wellformed.{IsWellformed}
use event_manager.Manager.Kept.{run_with_timeout-IsWellformed}
use event_manager.Manager.Total.{Drained, handle_endpoint_calls-Returns}
use event_manager.Manager.Turn.{dispatch_events-Returns}
use event_manager.Error.{Error, invalid_capacity}
use event_manager.Manager.{EventManager, max_ready_events_capacity, new_with_capacity}
use event_manager.Manager.Safe.{IsReady, IsInput, dispatch_from-IsReady}
use event_manager.Manager.Delivered.{SameIds, dispatch_from-SameIds}
use event_manager.Manager.Noticed.{AllAnswered, run_with_timeout-AllAnswered}
use event_manager.Manager.Notified.{IsNotified, run_with_timeout-IsNotified}
use event_manager.Manager.HandedOver.{IsHandedOver, dispatch_from-IsHandedOver}
use event_manager.Manager.Synced.{IsInStep}
use event_manager.Manager.InStep.{run_closure-IsInStep}
use event_manager.Manager.Polled.{IsRunnable}
use event_manager.Manager.Runnable.{run_with_timeout-Returns}
use event_manager.Manager.Created.{AllSucceed, IsCreated, IsFailedCall, new_with_capacity_cases}
use event_manager.Tests.Kernel.{sim_kernel-IsUnshared, sim, sim_kernel, sim-EpollEventLaws}
use event_manager.Tests.Examples.{
  counting, world, adding, machine, machine-IsRunnable, machine-ReportsInput, counting-AllModest,
  counting-AllCalm, machine-IsReady, machine-IsWellformed, machine-AllPlain, counting-AllTame,
  counting-AllQuiet,
}

run_with_timeout-Returns_example :
    (bound : ℕ) × ((fuel : ℕ)
      → bound < fuel
      → Returns (λ left. IsRunnable sim_kernel 3 4 left.1) (Loop.run_with_timeout fuel 100 machine))
run_with_timeout-Returns_example =
    run_with_timeout-Returns sim_kernel 3 (sim_kernel-IsUnshared 3) counting-AllModest
      counting-AllTame counting-AllQuiet 4 100 machine machine-ReportsInput machine-IsRunnable

new_with_capacity_cases_example :
    ((ltb (max_ready_events_capacity sim) 256 ≡ true)
      × (new_with_capacity {os = sim} {S = ℕ} {R = ℕ} 256 world ≡ (err invalid_capacity, world)))
    ⊎ ((e : Error sim) × ((new_with_capacity {os = sim} {S = ℕ} {R = ℕ} 256 world).0 ≡ err e)
        × IsFailedCall sim e world)
    ⊎ ((manager : EventManager sim ℕ ℕ) × ((new_with_capacity {os = sim} {S = ℕ} {R = ℕ} 256
            world).0
          ≡ ok manager)
        × AllSucceed sim world manager.epoll_context.epoll manager.channel.event_fd
            (new_with_capacity {os = sim} {S = ℕ} {R = ℕ} 256 world).1
        × IsCreated sim_kernel 256 manager
            (new_with_capacity {os = sim} {S = ℕ} {R = ℕ} 256 world).1)
new_with_capacity_cases_example = new_with_capacity_cases sim_kernel 256 world

dispatch_events-Returns_example :
    (bound : ℕ) × ((fuel : ℕ)
      → bound < fuel
      → Returns IsWellformed (Loop.dispatch_events fuel 2 machine))
dispatch_events-Returns_example =
    dispatch_events-Returns counting-AllTame counting-AllQuiet 2 machine machine-IsReady
      machine-AllPlain

dispatch_from-IsReady_example :
    Returns (λ left. IsInput sim left.0 × IsReady 2 left.1) (Loop.dispatch_from 2 0 none machine)
dispatch_from-IsReady_example =
    dispatch_from-IsReady counting-AllCalm 2 2 0 none machine (omega arith) tt machine-IsReady

dispatch_from-SameIds_example :
    Ensures
      (λ left. SameIds machine.subscribers left.1.subscribers)
      (Loop.dispatch_from 2 0 none machine)
dispatch_from-SameIds_example = dispatch_from-SameIds 2 0 none machine

dispatch_from-IsHandedOver_example :
    Returns (IsHandedOver 1 0 (1, 7) 1 machine) (Loop.dispatch_from 2 0 none machine)
unfolding Epoll.subscriber_id HashMap.get
dispatch_from-IsHandedOver_example =
    dispatch_from-IsHandedOver counting-AllCalm 1 0 (1, 7) 1 machine (λ t e. tt) machine-IsReady
      refl refl refl

run_with_timeout-IsNotified_example :
    (bound : ℕ) × ((fuel : ℕ)
      → bound < fuel
      → Returns
          (IsNotified 0 fuel
            (1, 7)
            1
            2
            (Manager.with_context machine (Epoll.poll 100 (Manager.context machine)).1))
          (Loop.run_with_timeout fuel 100 machine))
unfolding Epoll.poll Epoll.poll_result Epoll.subscriber_id HashMap.get
run_with_timeout-IsNotified_example =
    run_with_timeout-IsNotified sim_kernel 3 counting-AllTame counting-AllQuiet 4 0 100 2 (1, 7) 1
      machine machine-ReportsInput machine-IsRunnable refl (omega arith) refl refl refl (λ t e. tt)

run_with_timeout-AllAnswered_example :
    (bound : ℕ) × ((fuel : ℕ)
      → bound < fuel
      → Returns (AllAnswered 100 2 machine) (Loop.run_with_timeout fuel 100 machine))
unfolding Epoll.poll Epoll.poll_result Epoll.subscriber_id HashMap.get
run_with_timeout-AllAnswered_example =
    run_with_timeout-AllAnswered sim_kernel 3 counting-AllTame counting-AllQuiet 4 1 100 2 (1, 4)
      machine machine-ReportsInput machine-IsRunnable refl (omega arith) refl refl refl refl
      (λ t e. tt)

run_closure-IsInStep_example :
    Ensures (λ left. IsInStep sim_kernel 3 4 left.1) (Loop.run_closure adding machine)
run_closure-IsInStep_example =
    run_closure-IsInStep sim_kernel 3 (sim_kernel-IsUnshared 3) counting-AllModest 4 adding machine
      (λ id. tt) machine-IsRunnable.in_step

run_with_timeout-IsWellformed_example :
    Ensures (λ left. IsWellformed left.1) (Loop.run_with_timeout 3 100 machine)
run_with_timeout-IsWellformed_example =
    run_with_timeout-IsWellformed 3 100 machine machine-IsWellformed

handle_endpoint_calls-Returns_example :
    Returns (Drained machine.channel.messages machine) (Loop.handle_endpoint_calls 2 machine)
handle_endpoint_calls-Returns_example =
    handle_endpoint_calls-Returns counting-AllQuiet 2 machine machine-AllPlain (omega arith)

fd-with_data_raw_example :
    (Events.fd (Events.with_data_raw {os = sim} (2 ^ 32 - 1) 42 1) ≡ 2 ^ 32 - 1)
    × (Events.event_set (Events.with_data_raw {os = sim} (2 ^ 32 - 1) 42 1) ≡ 1)
fd-with_data_raw_example = fd-with_data_raw sim-EpollEventLaws (2 ^ 32 - 1) 42 1 (omega arith)

event_tests-Returns_example :
    Returns (λ _. Unit {0}) (test_empty_events sim world)
    × Returns (λ _. Unit {0}) (test_events_no_data sim world)
    × Returns (λ _. Unit {0}) (test_events_data sim world)
event_tests-Returns_example = event_tests-Returns sim-EpollEventLaws world 8 refl (omega arith)

user_data_cases_example :
    (Events.user_data (Events.with_data_raw {os = sim} (2 ^ 32 - 1) 42 1)
      ≡ (if ltb (2 ^ 32 - 1) (2 ^ 31) then 42 else (42 + 2 ^ 32 - 1) % 2 ^ 32))
    × ((Events.user_data (Events.with_data_raw {os = sim} (2 ^ 32 - 1) 42 1) ≡ 42)
        ↔ (2 ^ 32 - 1 < 2 ^ 31))
user_data_cases_example =
    user_data_cases sim-EpollEventLaws (2 ^ 32 - 1) 42 1 (omega arith) (omega arith)

eq-with_data_raw_example :
    (Events.eq (Events.with_data_raw {os = sim} 7 42 1) (Events.with_data_raw 7 43 1) ≡ true)
    ↔ ((◌≡◌ {A = ℕ} 7 7) × (◌≡◌ {A = ℕ} 42 43) × (◌≡◌ {A = ℕ} 1 1))
eq-with_data_raw_example =
    eq-with_data_raw sim-EpollEventLaws 7 7 42 43 1 1 (omega arith) (omega arith) (omega arith)
      (omega arith)

-- A turn in which the subscriber counts one event, and a queued request then removes it.
machine-run :
    Returns
      (λ left.
        (left.0 ≡ ok 2)
        × (left.1.channel.replies ≡ (100, 9) ∷ [])
        × (left.1.epoll_context.fd_dispatch ≡ [])
        × (left.1.subscribers.subscribers ≡ []))
      (Loop.run_with_timeout 3 100 machine)
unfolding Loop.run_with_timeout Epoll.poll HashMap.get Loop.dispatch_event Epoll.subscriber_id
    Subscribers.get_mut_unchecked run_handler ops_unchecked Endpoint.fd Endpoint.reply_to
    Manager.remove_subscriber Subscribers.remove Subscribers.write_back HashMap.insert Epoll.remove
    Epoll.remove_fd HashMap.remove
machine-run = (refl, refl, refl, refl)
