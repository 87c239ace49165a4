-- ===== src/Tests/Remote.antt =====
-- The theorem about a blocking call at a concrete input.
use event_manager.Prelude.{ℕ, refl, Ensures, Returns, arith}
use event_manager.Prelude.HashMap
use event_manager.Endpoint.{Closure, recv}
use event_manager.Manager.Loop
use event_manager.Manager.Blocking.{IsAnswered, asked, woken, call_blocking-IsAnswered}
use event_manager.Manager.Remote.{Served, receive_all-Served}
use event_manager.Manager.Sent.{sent_by_queue}
use event_manager.Tests.Kernel.{sim}
use event_manager.Tests.Examples.{counting, machine, machine-AllPlain, counting-AllQuiet}

receive_all-Served_example :
    Ensures
      (λ m'. Served (sent_by_queue 2 machine) machine.channel m'.channel)
      (Loop.receive_all 2 machine)
receive_all-Served_example = receive_all-Served 2 machine

-- A closure that removes the subscriber that the request queued before it has removed already.
abbrev removing : Closure sim ℕ ℕ
removing = Closure.remove_subscriber 1 (λ _. Closure.done 42)

call_blocking-IsAnswered_example :
    Returns
      (IsAnswered counting-AllQuiet removing (λ x. tt) 200 1 (woken (asked removing 200 machine)))
      (Loop.handle_endpoint_calls 3 (asked removing 200 machine))
unfolding recv HashMap.get
call_blocking-IsAnswered_example =
    call_blocking-IsAnswered counting-AllQuiet removing (λ x. tt) 200 3 machine refl
      machine-AllPlain refl refl (omega arith)
