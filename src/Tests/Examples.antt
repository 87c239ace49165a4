-- ===== src/Tests/Examples.antt =====
-- A manager with one counting subscriber, in the middle of a turn of its event loop.
use event_manager.Prelude.{
  ℕ, zero, suc, ◌+◌, ◌≡◌, refl, true, false, some, [], ◌∷◌, arith, ap, ◌==◌, Bool-cases, inl, inr,
  subst, sym,
}
use event_manager.Prelude.HashMap
use event_manager.Events
use event_manager.Events.{Events}
use event_manager.Epoll.{EpollWrapper, subscriber_id, watched}
use event_manager.Epoll.Buffer.{AllDeliverable, IsDeliverable}
use event_manager.Epoll.Consistent.{IsConsistent, IsExact}
use event_manager.EventOps.{adds}
use event_manager.Subscribers.{Subscribers}
use event_manager.Endpoint
use event_manager.Endpoint.{Closure, FnMsg, EventManagerChannel}
use event_manager.Handler.{Handler, MutEventSubscriber}
use event_manager.Manager.{Machine}
use event_manager.Manager.Wellformed.{IsWellformed}
use event_manager.Manager.Safe.{IsReady, AllCalm}
use event_manager.Manager.Total.{AllQuiet, AllPlain}
use event_manager.Manager.Turn.{AllTame}
use event_manager.Tests.Kernel.{sim, sim_kernel, interest-sim_kernel, SimWorld, SimEvent}
use event_manager.Kernel.{InSync}
use event_manager.Manager.InStep.{AllModestHandlers}
use event_manager.Manager.Polled.{IsRunnable, ReportsInput}

-- Descriptor 4 is the channel's; the subscriber counts its events and watches descriptor 7.
instance abbrev pub counting : MutEventSubscriber sim ℕ ℕ ℕ
counting = record {
  process = λ t e. Handler.done (t + 1);
  init = λ t. Handler.request (adds (Events.new_raw 7 1)) (λ _. Handler.done t);
}

abbrev pub world : SimWorld
world = record {
  interest = (4, (1, 4)) ∷ (7, (1, 7)) ∷ [];
  pending = (1, 7) ∷ (1, 4) ∷ [];
  next_fd = 8;
  memory = (5, false);
  signalled = false;
}

abbrev pub wrapper : EpollWrapper sim
wrapper = record {
  epoll = 3;
  fd_dispatch = (7, 1) ∷ [];
  subscriber_watch_list = (1, 7 ∷ []) ∷ [];
  ready_events = (1, 4) ∷ (1, 7) ∷ [];
}

abbrev pub channel : EventManagerChannel sim ℕ ℕ
channel = record {
  event_fd = 4;
  messages =
      record { fnbox = Closure.remove_subscriber 1 (λ _. Closure.done 9); sender = some 100 } ∷ [];
  receiver_alive = true;
  replies = [];
}

abbrev pub subscribers : Subscribers ℕ
subscribers = record { subscribers = (1, 0) ∷ []; next_id = 2 }

abbrev pub machine : Machine sim ℕ ℕ
machine = record {
  manager = record { subscribers = subscribers; epoll_context = wrapper; channel = channel };
  world = world;
}

pub wrapper-IsExact : IsExact sim wrapper
unfolding subscriber_id watched HashMap.get
wrapper-IsExact fd id = ground arith

pub wrapper-IsConsistent : IsConsistent sim wrapper
unfolding subscriber_id watched HashMap.get
wrapper-IsConsistent fd id e = ground arith

pub machine-IsWellformed : IsWellformed machine
unfolding subscriber_id HashMap.get
machine-IsWellformed = record { consistent = wrapper-IsConsistent; live = λ fd id e. ground arith }

unwrap_some : (a b : SimEvent) → some a ≡ some b → a ≡ b
unwrap_some a b e = cc

pub machine-deliverable : AllDeliverable sim 2 4 wrapper
unfolding subscriber_id HashMap.get
machine-deliverable zero ev lt e =
    subst (IsDeliverable sim wrapper 4) (unwrap_some (1, 4) ev e) (inr (inr (refl, refl)))
machine-deliverable (suc zero) ev lt e =
    subst (IsDeliverable sim wrapper 4) (unwrap_some (1, 7) ev e) (inr (inl (1, refl)))
machine-deliverable (suc (suc i)) ev lt e = cc

pub machine-IsReady : IsReady 2 machine
unfolding Endpoint.fd
machine-IsReady = record {
  wf = machine-IsWellformed;
  deliverable = machine-deliverable;
  fits = omega arith;
}

pub counting-AllTame : AllTame counting
counting-AllTame t e = tt

pub counting-AllCalm : AllCalm counting
counting-AllCalm t e = tt

-- A closure that adds a second subscriber, whose `init` finds descriptor 7 taken.
abbrev pub adding : Closure sim ℕ ℕ
adding = Closure.add_subscriber 5 (λ id. Closure.done id)

pub counting-AllQuiet : AllQuiet counting
counting-AllQuiet t = λ x. tt

pub machine-AllPlain : AllPlain machine.channel.messages
machine-AllPlain = (λ x. tt, tt)

pub counting-AllModest : AllModestHandlers sim_kernel 3 counting
counting-AllModest = record { modest_process = λ t e. tt; modest_init = λ t x. tt }

-- Descriptor 4 is the channel's, and 7 is routed to subscriber 1.
pub world-InSync : InSync sim_kernel 4 wrapper world
unfolding subscriber_id HashMap.get
world-InSync fd ev found = elim (Bool-cases (4 == fd)) [
  | inl hit ↦ (ground (arith, interest-sim_kernel 3 fd world), inr (ground arith))
  | inr miss ↦ (
    ground (arith, interest-sim_kernel 3 fd world),
    inl (1, ground (arith, interest-sim_kernel 3 fd world)),
  )
]

pub machine-IsRunnable : IsRunnable sim_kernel 3 4 machine
unfolding Endpoint.fd
machine-IsRunnable = record {
  wf = machine-IsWellformed;
  in_step = record {
    same_epoll = refl;
    same_fd = refl;
    in_sync = world-InSync;
    modest = (λ x. tt, tt);
  };
  plain = machine-AllPlain;
}

pub machine-ReportsInput : ReportsInput 100 4 machine
unfolding HashMap.get
machine-ReportsInput zero ev e same = ap (λ x. x.0) (sym (unwrap_some (1, 7) ev e))
machine-ReportsInput (suc zero) ev e same = ap (λ x. x.0) (sym (unwrap_some (1, 4) ev e))
machine-ReportsInput (suc (suc i)) ev e same = cc
