-- ===== src/Manager/Safe.antt =====
-- The loop of `dispatch_events` and the three ways in which it can panic: its `unreachable!`, an
-- index out of range, and `get_mut_unchecked`.
use event_manager.Prelude.{
  ℕ, zero, suc, ◌+◌, ◌≤◌, ◌<◌, ◌≡◌, refl, true, false, Option, none, some, List, [], ◌∷◌, Ensures,
  Ensures-map, Ensures-and, Returns, Returns-bind, Returns-and, arith, Option-cases, Bool-cases,
  inl, inr, ◌==◌, get_elem?, length, is_some, subst, sym,
}
use event_manager.Prelude.HashMap
use event_manager.Os.{Os, RawFd}
use event_manager.Epoll.{SubscriberId, EpollWrapper, subscriber_id}
use event_manager.Epoll.Buffer.{is_discarded, IsDeliverable, AllDeliverable}
use event_manager.Events.{with_inner, Events}
use event_manager.EventOps.{EventOps, ops_unchecked}
use event_manager.EventOps.Consistent.{perform-AllDeliverable, perform-length}
use event_manager.Subscribers
use event_manager.Endpoint
use event_manager.Handler.{Handler, MutEventSubscriber, Scope, run_handler}
use event_manager.Handler.Rules.{
  Calm, run_handler-Ensures, run_handler-Returns, run_handler-Extends,
}
use event_manager.Manager.{Machine, scope, after_handler}
use event_manager.Manager.Loop
use event_manager.Manager.Wellformed.{IsWellformed, is_registered, handled-IsWellformed}

-- The first `count` events are in the buffer, and can be routed.
pub record IsReady {os : Os} {S R : Type 0} (count : ℕ) (m : Machine os S R) : Type 0 where
  pub wf : IsWellformed m
  pub deliverable : AllDeliverable os count (Endpoint.fd m.channel) m.epoll_context
  pub fits : count ≤ length m.epoll_context.ready_events

-- The endpoint event that has been found, if any, reports input.
abbrev pub IsInput : (os : Os) → Option os.EpollEvent → Type 0
IsInput os none = Unit
IsInput os (some event) = os.event_set event ≡ os.set_in

pub get_elem?_of_lt {ℓ} :
    {A : Type ℓ} (xs : List A) (i : ℕ) → i < length xs → (x : A) × (get_elem? xs i ≡ some x)
get_elem?_of_lt [] i h = elim h [ ]
get_elem?_of_lt (x ∷ xs) zero h = (x, refl)
get_elem?_of_lt (x ∷ xs) (suc i) h = get_elem?_of_lt xs i (omega arith)

pub registered_get : {S : Type 0} (o : Option S) → is_some o ≡ true → (t : S) × (o ≡ some t)
registered_get none h = cc
registered_get (some t) h = (t, refl)

channel_event :
    {os : Os} (w : EpollWrapper os) (channel_fd : RawFd) (event : os.EpollEvent)
    → IsDeliverable os w channel_fd event
    → is_discarded os event ≡ false
    → subscriber_id w (os.event_fd event) ≡ none
    → (os.event_fd event ≡ channel_fd) × (os.event_set event ≡ os.set_in)
channel_event w channel_fd event (inl gone) kept unrouted = cc
channel_event w channel_fd event (inr (inl (id, routed))) kept unrouted = cc
channel_event w channel_fd event (inr (inr channel)) kept unrouted = channel

record Holds {os : Os} (count : ℕ) (channel_fd : RawFd) (ops : EventOps os) : Type 0 where
  deliverable : AllDeliverable os count channel_fd ops.wrapper
  fits : count ≤ length ops.ready_events

-- The handlers of every subscriber return.
abbrev pub AllCalm : {os : Os} {S R : Type 0} → MutEventSubscriber os S R S → Type 0
AllCalm {os} {S} sub = (t : S) (e : Events os) → Calm (sub.process t e)

module _ {os : Os} {S R : Type 0} (count : ℕ) where
  run_handler-Holds :
      {A : Type 0} (channel_fd : RawFd) (h : Handler os S R A) (self : Scope os S R)
      → Holds count channel_fd self.ops
      → Ensures (λ left. Holds count channel_fd left.1.ops) (run_handler h self)
  run_handler-Holds channel_fd =
      run_handler-Ensures (Holds count channel_fd)
        (λ r ops p. record {
          deliverable = perform-AllDeliverable count channel_fd r ops p.deliverable;
          fits = omega (arith, perform-length r ops, p.fits);
        })
        (λ ops world p. record { deliverable = p.deliverable; fits = p.fits })

  handled-IsReady :
      (h : Handler os S R S) (m : Machine os S R) (id : SubscriberId)
      → is_registered m.subscribers id ≡ true
      → IsReady count m
      → Ensures (λ left. IsReady count (after_handler m id left)) (run_handler h (scope m id))
  unfolding ops_unchecked Endpoint.fd
  handled-IsReady h m id registered ready =
      Ensures-map _ _ (run_handler h (scope m id))
        (λ left p. record {
          wf = p.0;
          deliverable =
              subst (λ e. AllDeliverable os count (os.eventfd_raw e) left.1.wrapper)
                (sym p.1.1.same_fd) p.1.0.deliverable;
          fits = p.1.0.fits;
        })
        (Ensures-and _ _ (run_handler h (scope m id))
          (handled-IsWellformed h m id registered ready.wf)
          (Ensures-and _ _ (run_handler h (scope m id))
            (run_handler-Holds (Endpoint.fd m.channel) h (scope m id)
              (record { deliverable = ready.deliverable; fits = ready.fits }))
            (run_handler-Extends h (scope m id))))

module _ {os : Os} {S R : Type 0} ⦃sub : MutEventSubscriber os S R S⦄ (calm : AllCalm sub)
    (count : ℕ) where
  process_event-IsReady :
      (id : SubscriberId) (event : os.EpollEvent) (m : Machine os S R)
      → is_registered m.subscribers id ≡ true
      → IsReady count m
      → Returns (IsReady count) (Loop.process_event id event m)
  unfolding Loop.process_event Subscribers.get_mut_unchecked
  process_event-IsReady id event m registered ready =
      let (t, found) = registered_get (HashMap.get m.subscribers.subscribers id) registered in
      rw (found, Loop.process_event)
        (Returns-bind _ _ (run_handler (sub.process t (with_inner event)) (scope m id)) _
          (Returns-and _ (run_handler (sub.process t (with_inner event)) (scope m id))
            (run_handler-Returns _ (scope m id) (calm t (with_inner event)))
            (handled-IsReady count (sub.process t (with_inner event)) m id registered ready))
          (λ left p. p))

  dispatch_event-IsReady :
      (event : os.EpollEvent) (endpoint_event : Option os.EpollEvent) (m : Machine os S R)
      → IsDeliverable os m.epoll_context (Endpoint.fd m.channel) event
      → IsInput os endpoint_event
      → IsReady count m
      → Returns
          (λ left. IsInput os left.0 × IsReady count left.1)
          (Loop.dispatch_event event endpoint_event m)
  unfolding Loop.dispatch_event
  dispatch_event-IsReady event endpoint_event m can input ready =
      elim (Bool-cases (is_discarded os event)) [
        | inl gone ↦ rw (gone, Loop.dispatch_event) (input, ready)
        | inr kept ↦ elim (Option-cases (subscriber_id m.epoll_context (os.event_fd event))) [
          | inr (id, routed) ↦
              rw (kept, routed, Loop.dispatch_event)
                (Returns-bind (IsReady count) _ (Loop.process_event id event m) _
                  (process_event-IsReady id event m (ready.wf.live (os.event_fd event) id routed)
                    ready)
                  (λ left p. (input, p)))
          | inl unrouted ↦ elim (Bool-cases (os.event_fd event == Endpoint.fd m.channel)) [
            | inl channel ↦
                rw (kept, unrouted, channel, Loop.dispatch_event)
                  ((channel_event m.epoll_context _ event can kept unrouted).1, ready)
            | inr other ↦ absurd (
                ground (
                  arith,
                  channel_event m.epoll_context (Endpoint.fd m.channel) event can kept unrouted,
                ))
          ]
        ]
      ]

  -- If no `process` panics and the first `count` events of the buffer can be routed or have been
  -- discarded, then the rounds up to `count` return, whatever the handlers do to the watch lists, and
  -- those events can still be routed or have been discarded.
  pub dispatch_from-IsReady :
      (rounds ev_index : ℕ) (endpoint_event : Option os.EpollEvent) (m : Machine os S R)
      → ev_index + rounds ≤ count
      → IsInput os endpoint_event
      → IsReady count m
      → Returns
          (λ left. IsInput os left.0 × IsReady count left.1)
          (Loop.dispatch_from rounds ev_index endpoint_event m)
  unfolding Loop.dispatch_from
  dispatch_from-IsReady zero ev_index endpoint_event m room input ready = (input, ready)
  dispatch_from-IsReady (suc rounds) ev_index endpoint_event m room input ready =
      let (event, found) =
        get_elem?_of_lt m.epoll_context.ready_events ev_index (omega (arith, ready.fits)) in
      rw (found, Loop.dispatch_from)
        (Returns-bind (λ left. IsInput os left.0 × IsReady count left.1) _
          (Loop.dispatch_event event endpoint_event m) _
          (dispatch_event-IsReady event endpoint_event m
            (ready.deliverable ev_index event (omega arith) found) input ready)
          (λ left p.
            dispatch_from-IsReady rounds (ev_index + 1) left.0 left.1 (omega arith) p.0 p.1))
