-- ===== src/Tests/Lifecycle.antt =====
-- A manager from `new_with_capacity` on, and several callers of it, at concrete inputs.
use event_manager.Prelude.{
  ℕ, zero, suc, ◌+◌, ◌<◌, ◌≤◌, ◌≡◌, ◌≢◌, ◌⊎◌, refl, ap, sym, true, false, none, some, [], ◌∷◌, ◌++◌,
  ok, err, returned, Returns, count,
}
use event_manager.Prelude.HashMap
use event_manager.Error.{channel_recv}
use event_manager.Epoll
use event_manager.EventOps
use event_manager.EventOps.{ops_unchecked}
use event_manager.Endpoint
use event_manager.Endpoint.{FnMsg, Closure, recv, EventManagerChannel, call_send, send_msg, fire}
use event_manager.Endpoint.Interleaved
use event_manager.Endpoint.Interleaved.{
  IsReadable, Phase, Shared, start, push, notify, clear, try_recv, pushes, notifies, clears,
  receives, send-IsReceived,
}
use event_manager.Endpoint.Callers.{senders, answered, recv_result, disconnect}
use event_manager.Events
use event_manager.Handler.{run_handler}
use event_manager.Subscribers
use event_manager.Manager
use event_manager.Manager.{EventManager, Machine, new_with_capacity}
use event_manager.Manager.Loop
use event_manager.Manager.Callers.{Life, begins, calls, fires, ends, call-resolves}
use event_manager.Manager.Created.{created}
use event_manager.Manager.Reach.{Reach, here, later, adds, sends}
use event_manager.Manager.Reached.{reached-Returns}
use event_manager.Manager.Polled.{ReportsInput}
use event_manager.Manager.Wellformed.{IsWellformed}
use event_manager.Tests.Kernel.{sim_kernel-IsUnshared, sim, sim_kernel, SimEvent}
use event_manager.Tests.Examples.{
  counting, world, counting-AllModest, counting-AllTame, counting-AllQuiet,
}

-- The manager that is made first, whose channel has descriptor 8.
abbrev first : EventManager sim ℕ ℕ
first = record {
  subscribers = record { subscribers = []; next_id = 1 };
  epoll_context = record {
    epoll = 3;
    fd_dispatch = [];
    subscriber_watch_list = [];
    ready_events = (0, 0) ∷ (0, 0) ∷ [];
  };
  channel = record { event_fd = 8; messages = []; receiver_alive = true; replies = [] };
}

first_made : (new_with_capacity {os = sim} {S = ℕ} {R = ℕ} 2 world).0 ≡ ok first
unfolding new_with_capacity Epoll.new Endpoint.new Endpoint.fd Manager.max_ready_events_capacity
    Subscribers.new HashMap.get HashMap.insert
first_made = refl

-- It after a subscriber has been added, which watches descriptor 7, and a thread has sent a closure.
abbrev with_subscriber : Machine sim ℕ ℕ
with_subscriber = record {
  manager = record {
    subscribers = record { subscribers = (1, 0) ∷ []; next_id = 2 };
    epoll_context = record (first.epoll_context) {
      fd_dispatch = (7, 1) ∷ [];
      subscriber_watch_list = (1, 7 ∷ []) ∷ [];
    };
    channel = first.channel;
  };
  world = record world { interest = (8, (1, 8)) ∷ (7, (1, 7)) ∷ []; next_fd = 9 };
}

abbrev closing : Closure sim ℕ ℕ
closing = Closure.remove_subscriber 1 (λ _. Closure.done 9)

abbrev with_message : Machine sim ℕ ℕ
with_message = record with_subscriber {
  manager = record (with_subscriber.manager) {
    channel = record (first.channel) {
      messages = record { fnbox = closing; sender = some 100 } ∷ [];
    };
  };
  world = record (with_subscriber.world) { signalled = true };
}

with_subscriber_added :
    Loop.add_subscriber 0 (created 2 world first) ≡ returned (1, with_subscriber)
unfolding Loop.add_subscriber Subscribers.add Subscribers.get_mut_unchecked Subscribers.write_back
    HashMap.get HashMap.insert run_handler ops_unchecked EventOps.perform EventOps.add EventOps.ctl
    EventOps.register Epoll.watched Events.new_raw Events.fd Events.epoll_event HashMap.contains_key
    new_with_capacity Epoll.new Endpoint.new Endpoint.fd Manager.max_ready_events_capacity
with_subscriber_added = refl

with_message_reached : Reach sim_kernel 3 (created 2 world first) with_message
unfolding Manager.send_message send_msg Endpoint.kick
with_message_reached =
    later (later here (adds 0 1 (created 2 world first) with_subscriber with_subscriber_added))
      (sends (record { fnbox = closing; sender = some 100 }) with_subscriber (λ x. tt) (λ x. tt))

unwrap_event : (a b : SimEvent) → some a ≡ some b → a ≡ b
unwrap_event a b e = cc

with_message-ReportsInput : ReportsInput 100 8 with_message
unfolding HashMap.get
with_message-ReportsInput zero ev e same = ap (λ x. x.0) (sym (unwrap_event (1, 7) ev e))
with_message-ReportsInput (suc zero) ev e same = cc
with_message-ReportsInput (suc (suc i)) ev e same = cc

reached-Returns_example :
    IsWellformed with_message
    × ((bound : ℕ) × ((fuel : ℕ)
          → bound < fuel
          → Returns
              (λ left. Reach sim_kernel 3 (created 2 world first) left.1)
              (Loop.run_with_timeout fuel 100 with_message)))
unfolding Endpoint.fd
reached-Returns_example =
    reached-Returns sim_kernel counting-AllTame counting-AllQuiet 2 world first 100 with_message
      (sim_kernel-IsUnshared 3) counting-AllModest first_made with_message_reached
      with_message-ReportsInput

-- A thread waits for its closure, another one fires a closure, and then the manager ends.
abbrev left : EventManagerChannel sim ℕ ℕ
left = record { event_fd = 8; messages = []; receiver_alive = false; replies = [] }

left_lived : Life {os = sim} ⦃sub = counting⦄ (200 ∷ []) left
unfolding call_send fire send_msg disconnect
left_lived = ends (fires (calls (begins 8) closing 200 world refl refl) closing world)

call-resolves_example :
    (count (senders left.messages) 200 + count (answered left) 200 ≤ 1)
    × (((left.receiver_alive ≡ true)
          × (count (senders left.messages) 200 + count (answered left) 200 ≡ 1)
          × (recv_result 200 left ≢ some (err channel_recv)))
        ⊎ ((left.receiver_alive ≡ false) × (recv_result 200 left ≢ none)))
call-resolves_example = call-resolves counting-AllQuiet (200 ∷ []) left 200 left_lived refl

-- That thread gets `ChannelRecv`.
left_gets : recv_result 200 left ≡ some (err channel_recv)
unfolding recv_result recv HashMap.get
left_gets = refl

-- Two threads queue a message each; the second writes to the eventfd, and the manager receives the
-- first one's message before the first has written.
abbrev fired : FnMsg sim ℕ ℕ
fired = record { fnbox = closing; sender = none }

abbrev sim-IsReadable : IsReadable sim 8
sim-IsReadable = record { readable = λ w. w.signalled; write_readable = λ w. refl }

abbrev halfway : Shared sim ℕ ℕ
halfway = record {
  world = record world { signalled = false };
  queue = fired ∷ [];
  kicking = 1;
  phase = Phase.draining;
  sent = fired ∷ fired ∷ [];
  received = fired ∷ [];
}

halfway_reached : Interleaved.Reach 8 sim-IsReadable halfway
unfolding push notify clear try_recv
halfway_reached =
    Interleaved.later
      (Interleaved.later
        (Interleaved.later
          (Interleaved.later
            (Interleaved.later (Interleaved.here world) (pushes fired (start world)))
            (pushes fired (push fired (start world))))
          (notifies (push fired (push fired (start world))) (λ e. cc)))
        (clears (notify 8 (push fired (push fired (start world)))) refl))
      (receives (clear 8 (notify 8 (push fired (push fired (start world))))) refl)

send-IsReceived_example :
    (halfway.sent ≡ halfway.received ++ halfway.queue)
    × ((halfway.queue ≡ [])
        ⊎ (halfway.phase ≡ Phase.draining)
        ⊎ (halfway.world.signalled ≡ true)
        ⊎ (halfway.kicking ≢ 0))
send-IsReceived_example = send-IsReceived 8 sim-IsReadable halfway halfway_reached
