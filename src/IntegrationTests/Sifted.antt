-- ===== src/IntegrationTests/Sifted.antt =====
-- A buffer whose further events are all for the same few descriptors, and the loop over it.
use event_manager.Prelude.{
  ℕ, zero, suc, ◌+◌, ◌<◌, ◌≤◌, ◌≡◌, ◌⊎◌, inl, inr, refl, subst, true, Option, some, List, Outcome,
  returned, panicked, unfinished, Ensures, arith, contains, get_elem?, length, ◌==◌, Option-cases,
  Bool-cases,
}
use event_manager.Os.{Os, RawFd}
use event_manager.Events
use event_manager.Events.{Events}
use event_manager.Epoll.{EpollWrapper, discard, remove_event}
use event_manager.Epoll.Buffer.{is_discarded, get_elem?-remove_event}
use event_manager.Epoll.Flushed.{IsFlushed}
use event_manager.EventOps.{EventOps, Request, perform, register, unwatch}
use event_manager.EventOps.Routing.{perform_cases, ready_events-register, ready_events-unwatch}
use event_manager.Handler.{MutEventSubscriber}
use event_manager.Manager.{Machine}
use event_manager.Manager.Loop
use event_manager.Manager.Safe.{get_elem?_of_lt}

-- Every event of the buffer from the second on, up to `count`, is for one of these descriptors, or has
-- been discarded.
abbrev pub AllOf : (os : Os) → List RawFd → ℕ → EpollWrapper os → Type 0
AllOf os own count w =
    (i : ℕ) (ev : os.EpollEvent)
    → suc i < count
    → get_elem? w.ready_events (suc i) ≡ some ev
    → (is_discarded os ev ≡ true) ⊎ (contains own (os.event_fd ev) ≡ true)

pub Ensures-all :
    {A B : Type 0} (P : B → A → Type 0) (o : Outcome A)
    → ((b : B) → Ensures (P b) o)
    → Ensures (λ a. (b : B) → P b a) o
Ensures-all P (returned a) all = all
Ensures-all P panicked all = tt
Ensures-all P unfinished all = tt

module _ {os : Os} (own : List RawFd) (count : ℕ) where
  remove_event-AllOf :
      (fd : RawFd) (w : EpollWrapper os)
      → AllOf os own count w
      → AllOf os own count (remove_event fd w)
  unfolding discard
  remove_event-AllOf fd w all i ev lt e = elim (Option-cases (get_elem? w.ready_events (suc i))) [
    | inl missing ↦ absurd (ground (arith, get_elem?-remove_event fd w (suc i)))
    | inr (old, found) ↦ elim (Bool-cases (os.event_fd old == fd)) [
      | inl hit ↦ inl (ground (arith, get_elem?-remove_event fd w (suc i)))
      | inr miss ↦
          subst (λ x. (is_discarded os x ≡ true) ⊎ (contains own (os.event_fd x) ≡ true))
            (ground (arith, get_elem?-remove_event fd w (suc i))) (all i old lt found)
    ]
  ]

  same_buffer-AllOf :
      (w w' : EpollWrapper os)
      → w'.ready_events ≡ w.ready_events
      → AllOf os own count w
      → AllOf os own count w'
  same_buffer-AllOf w w' same all i ev lt e = all i ev lt (rw same at e)

  pub perform-AllOf :
      (r : Request os) (self : EventOps os)
      → AllOf os own count self.wrapper
      → AllOf os own count (perform r self).1.wrapper
  perform-AllOf r self all =
      perform_cases (λ s. AllOf os own count s.wrapper) r self (λ _. all)
        (λ e _ _ _.
          same_buffer-AllOf self.wrapper (register (Events.fd e) self.subscriber_id self.wrapper)
            (ready_events-register (Events.fd e) self.subscriber_id self.wrapper) all)
        (λ e _ _.
          same_buffer-AllOf (remove_event (Events.fd e) self.wrapper)
            (unwatch (Events.fd e) self.subscriber_id (remove_event (Events.fd e) self.wrapper))
            (ready_events-unwatch (Events.fd e) self.subscriber_id
              (remove_event (Events.fd e) self.wrapper))
            (remove_event-AllOf (Events.fd e) self.wrapper all))

module _ {os : Os} (own : List RawFd) (count : ℕ) (w : EpollWrapper os) (all : AllOf os own count w)
    (flushed : (fd : RawFd) → contains own fd ≡ true → IsFlushed os fd w) where
  pub all_gone :
      (i : ℕ) (ev : os.EpollEvent)
      → 0 < i
      → i < count
      → get_elem? w.ready_events i ≡ some ev
      → is_discarded os ev ≡ true
  all_gone zero ev lo lt e = absurd (omega (arith, lo))
  all_gone (suc i) ev lo lt e = elim (all i ev lt e) [
    | inl gone ↦ gone
    | inr ours ↦ flushed (os.event_fd ev) ours (suc i) ev e refl
  ]

module _ {os : Os} {S R : Type 0} ⦃sub : MutEventSubscriber os S R S⦄ where
  -- Discarded events are passed over.
  pub discarded_rounds :
      (rounds ev_index : ℕ) (e : Option os.EpollEvent) (m : Machine os S R)
      → ((i : ℕ) (ev : os.EpollEvent)
          → ev_index ≤ i
          → i < ev_index + rounds
          → get_elem? m.epoll_context.ready_events i ≡ some ev
          → is_discarded os ev ≡ true)
      → ev_index + rounds ≤ length m.epoll_context.ready_events
      → Loop.dispatch_from rounds ev_index e m ≡ returned (e, m)
  unfolding Loop.dispatch_from Loop.dispatch_event
  discarded_rounds zero ev_index e m gone fits = refl
  discarded_rounds (suc rounds) ev_index e m gone fits =
      let (ev, queued) =
        get_elem?_of_lt m.epoll_context.ready_events ev_index (omega (arith, fits)) in
      rw (queued, Loop.dispatch_from)
        (rw (gone ev_index ev (omega arith) (omega arith) queued, Loop.dispatch_event)
          (discarded_rounds rounds (ev_index + 1) e m
            (λ i ev' lo hi. gone i ev' (omega (arith, lo)) (omega (arith, hi)))
            (omega (arith, fits))))
