-- ===== src/Tests/Called.antt =====
-- A thread that calls `call_blocking`, and the turn that its eventfd wakes up.
use event_manager.Prelude.{
  ℕ, zero, suc, ◌+◌, ◌<◌, refl, ap, sym, true, [], ◌∷◌, arith, inl, inr, Bool-cases, ◌==◌, Returns,
}
use event_manager.Prelude.HashMap
use event_manager.Epoll.{subscriber_id, watched}
use event_manager.Endpoint
use event_manager.Endpoint.{Closure, EventManagerChannel, call_send, send_msg, kick, recv}
use event_manager.Handler.{Handler, MutEventSubscriber}
use event_manager.Kernel.{InSync}
use event_manager.Manager.{Machine, send_message}
use event_manager.Manager.Loop
use event_manager.Manager.Total.{AllQuiet}
use event_manager.Manager.Turn.{AllTame}
use event_manager.Manager.Polled.{IsRunnable, ReportsInput}
use event_manager.Manager.Called.{called, IsReturned, call_blocking-Returns}
use event_manager.Tests.Kernel.{unwrap_some}
use event_manager.Tests.Level.{level, before}
use event_manager.Tests.LevelKernel.{level_kernel, channel-IsLevel, interest-level_kernel}

instance abbrev counting : MutEventSubscriber level ℕ ℕ ℕ
counting = record { process = λ t e. Handler.done (t + 1); init = λ t. Handler.done t }

counting-AllTame : AllTame counting
counting-AllTame t e = tt

counting-AllQuiet : AllQuiet counting
counting-AllQuiet t = tt

-- Descriptor 4 is the channel's, and subscriber 1 waits until it can write to descriptor 7.
abbrev machine : Machine level ℕ ℕ
machine = record {
  manager = record {
    subscribers = record { subscribers = (1, 0) ∷ []; next_id = 2 };
    epoll_context = record {
      epoll = 3;
      fd_dispatch = (7, 1) ∷ [];
      subscriber_watch_list = (1, 7 ∷ []) ∷ [];
      ready_events = (0, 0) ∷ (0, 0) ∷ (0, 0) ∷ [];
    };
    channel = record { event_fd = 4; messages = []; receiver_alive = true; replies = [] };
  };
  world = record before { interest = (4, (1, 4)) ∷ (7, (4, 7)) ∷ []; next_fd = 8 };
}

machine-InSync : InSync level_kernel 4 machine.epoll_context machine.world
unfolding subscriber_id HashMap.get
machine-InSync fd ev found = elim (Bool-cases (4 == fd)) [
  | inl hit ↦ (ground (arith, interest-level_kernel 3 fd machine.world), inr (ground arith))
  | inr miss ↦ (
    ground (arith, interest-level_kernel 3 fd machine.world),
    inl (1, ground (arith, interest-level_kernel 3 fd machine.world)),
  )
]

machine-IsRunnable : IsRunnable level_kernel 3 4 machine
unfolding Endpoint.fd subscriber_id watched HashMap.get
machine-IsRunnable = record {
  wf = record { consistent = λ fd id e. ground arith; live = λ fd id e. ground arith };
  in_step = record { same_epoll = refl; same_fd = refl; in_sync = machine-InSync; modest = tt };
  plain = tt;
}

-- A closure that adds a subscriber, and gives its identifier back.
abbrev asking : Closure level ℕ ℕ
asking = Closure.add_subscriber 5 (λ id. Closure.done id)

machine-ReportsInput : ReportsInput 100 4 (called asking 100 machine)
unfolding send_message send_msg kick HashMap.get HashMap.insert
machine-ReportsInput zero ev e same = ap (λ x. x.0) (sym (unwrap_some (1, 4) ev e))
machine-ReportsInput (suc zero) ev e same =
    absurd (omega (arith, same, ap (λ x. level.event_fd x) (unwrap_some (4, 7) ev e)))
machine-ReportsInput (suc (suc zero)) ev e same =
    absurd (omega (arith, same, ap (λ x. level.event_fd x) (unwrap_some (0, 0) ev e)))
machine-ReportsInput (suc (suc (suc i))) ev e same = cc

call_blocking-Returns_example :
    (bound : ℕ) × ((fuel : ℕ)
      → bound < fuel
      → Returns
          (IsReturned counting-AllQuiet asking (λ id. tt) 100 100 2 machine)
          (Loop.run_with_timeout fuel 100 (called asking 100 machine)))
unfolding call_send send_message send_msg kick recv subscriber_id HashMap.get HashMap.insert
call_blocking-Returns_example =
    call_blocking-Returns level_kernel 3 counting-AllTame counting-AllQuiet 4 asking (λ id. tt) 100
      100 2 machine (1, 4) channel-IsLevel machine-IsRunnable
      (interest-level_kernel 3 4 machine.world) refl refl (λ t e. tt) (λ id. tt) refl refl refl
      machine-ReportsInput refl (omega arith)
