-- ===== src/Tests/Typed.antt =====
-- Callers with results of two types, and a turn of the event loop that answers one, at concrete inputs.
use event_manager.Prelude.{ℕ, ◌≡◌, ◌⊎◌, refl, Bool, true, false, none, some, [], ◌∷◌, ok, returned}
use event_manager.Prelude.HashMap
use mathlib.Core.Bool.{Bool-discrete}
use event_manager.Epoll
use event_manager.Endpoint
use event_manager.Endpoint.{send_msg, reply_to, recv}
use event_manager.Endpoint.Callers.{recv_result}
use event_manager.Endpoint.Erased.{Types, ErasedResult, TypedClosure, fnbox, call_returns, downcast}
use event_manager.Handler.{Handler, MutEventSubscriber}
use event_manager.Manager.{Machine, send_message}
use event_manager.Manager.Loop
use event_manager.Manager.Typed.{AllTypedHandlers}
use event_manager.Manager.Typed.Session
use event_manager.Manager.Typed.Session.{call_returns_typed}
use event_manager.Tests.Kernel.{sim}
use event_manager.Tests.Examples.{world}

abbrev Meaning : Bool → Type 0
Meaning true = ℕ
Meaning false = Unit {0}

-- Numbers and `()`.
abbrev two_types : Types
two_types = record {
  Code = Bool;
  El = Meaning;
  same = Bool-discrete;
  unit = false;
  unit_value = tt;
}

abbrev numbers : ℕ → Bool
numbers reply = true

instance abbrev idle : MutEventSubscriber sim ℕ (ErasedResult two_types) ℕ
idle = record { process = λ t e. Handler.done t; init = λ t. Handler.done t }

idle-AllTypedHandlers : AllTypedHandlers two_types numbers idle
idle-AllTypedHandlers = record { typed_process = λ t e. tt; typed_init = λ t. tt }

-- The wait is going to report the channel's descriptor, 4.
abbrev empty : Machine sim ℕ (ErasedResult two_types)
empty = record {
  manager = record {
    subscribers = record { subscribers = []; next_id = 1 };
    epoll_context = record {
      epoll = 3;
      fd_dispatch = [];
      subscriber_watch_list = [];
      ready_events = (0, 0) ∷ [];
    };
    channel = record { event_fd = 4; messages = []; receiver_alive = true; replies = [] };
  };
  world = record world { pending = (1, 4) ∷ [] };
}

abbrev five : TypedClosure two_types numbers sim ℕ true
five = TypedClosure.done 5

abbrev answered : Machine sim ℕ (ErasedResult two_types)
answered = record {
  manager = record (empty.manager) {
    epoll_context = record (empty.epoll_context) { ready_events = (1, 4) ∷ [] };
    channel = record (empty.channel) { replies = (200, (true, 5)) ∷ [] };
  };
  world = record (empty.world) { pending = []; signalled = false };
}

turn_answers :
    Loop.run_with_timeout 5 100
      (send_message (record { fnbox = fnbox two_types numbers five; sender = some 200 }) empty).1
    ≡ returned (ok 1, answered)
unfolding Loop.run_with_timeout send_message send_msg Endpoint.kick fnbox Epoll.poll
    Epoll.poll_result Epoll.subscriber_id Endpoint.fd HashMap.get reply_to Loop.dispatch_event
turn_answers = refl

answered-Session : Session.Session two_types numbers answered
answered-Session =
    Session.turns 5 100 (ok 1) answered
      (Session.sends (some 200) five (Session.begins empty refl refl)) turn_answers

call_returns_typed_example :
    (call_returns two_types numbers 200 (λ e. 0) (ok tt) answered.channel ≡ none)
    ⊎ ((value : ℕ) × (call_returns two_types numbers 200 (λ e. 0) (ok tt) answered.channel
          ≡ some (returned value)))
call_returns_typed_example =
    call_returns_typed two_types numbers answered 200 (λ e. 0) (ok tt) idle-AllTypedHandlers
      answered-Session

-- The caller gets its number.
returns_five :
    call_returns two_types numbers 200 (λ e. 0) (ok tt) answered.channel ≡ some (returned 5)
unfolding call_returns recv_result recv HashMap.get downcast
returns_five = refl
