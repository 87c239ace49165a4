-- ===== src/Manager/Awaited.antt =====
-- An event of the buffer that waits for its round of the dispatch loop.
use event_manager.Prelude.{
  ℕ, ◌≡◌, ◌≢◌, Option, none, some, Result, Ensures, arith, subst, get_elem?,
}
use event_manager.Os.{Os, RawFd}
use event_manager.Error.{Error}
use event_manager.Epoll.{SubscriberId, EpollWrapper, subscriber_id, remove_event, discard}
use event_manager.Epoll.Buffer.{get_elem?-remove_event}
use event_manager.Events
use event_manager.Events.{Events, with_inner}
use event_manager.EventOps.{EventOps, Request, adds, modifies, removes, perform, register, unwatch}
use event_manager.EventOps.Routing.{
  perform_cases, subscriber_id-register, ready_events-register, ready_events-unwatch,
}
use event_manager.EventOps.Consistent.{subscriber_id-unregister}
use event_manager.Handler.{Handler, MutEventSubscriber, Scope, run_handler}

-- An add that leaves the route of a descriptor as it is: any add, where it is routed.
abbrev pub SparesAdd : {os : Os} → Option SubscriberId → RawFd → Events os → Type 0
SparesAdd none fd e = Events.fd e ≢ fd
SparesAdd (some id) fd e = Unit

-- A request that leaves the route of a descriptor as it is.
abbrev pub SparesRequest : {os : Os} → Option SubscriberId → RawFd → Request os → Type 0
SparesRequest route fd (adds e) = SparesAdd route fd e
SparesRequest route fd (modifies e) = Unit
SparesRequest route fd (removes e) = Events.fd e ≢ fd

-- A body that makes no other request.
abbrev pub Spares :
    {os : Os} {S R A : Type 0} → Option SubscriberId → RawFd → Handler os S R A → Type 0
Spares route fd (Handler.done a) = Unit
Spares route fd Handler.panics = Unit
Spares {os} route fd (Handler.request r k) =
    SparesRequest route fd r × ((x : Result (Unit {0}) (Error os)) → Spares route fd (k x))
Spares {os} route fd (Handler.send f reply k) =
    (x : Result (Unit {0}) (Error os)) → Spares route fd (k x)
Spares {os} route fd (Handler.effect change k) = (w : os.World) → Spares route fd (k w)

abbrev pub AllSpare :
    {os : Os} {S R : Type 0} → Option SubscriberId → RawFd → MutEventSubscriber os S R S → Type 0
AllSpare {os} {S} route fd sub = (t : S) (e : Events os) → Spares route fd (sub.process t e)

module _ {os : Os} (ev : os.EpollEvent) where
  register_routed :
      (route : Option SubscriberId) (e : Events os) (own : SubscriberId) (w : EpollWrapper os)
      → SparesAdd route (os.event_fd ev) e
      → subscriber_id w (Events.fd e) ≡ none
      → subscriber_id w (os.event_fd ev) ≡ route
      → subscriber_id (register (Events.fd e) own w) (os.event_fd ev) ≡ route
  register_routed none e own w spares free routed =
      ground (arith, subscriber_id-register (Events.fd e) (os.event_fd ev) own w)
  register_routed (some id) e own w spares free routed =
      ground (arith, subscriber_id-register (Events.fd e) (os.event_fd ev) own w)

module _ {os : Os} (i : ℕ) (ev : os.EpollEvent) (route : Option SubscriberId) where
  -- The event is in its place in the buffer, and its descriptor has its route.
  pub record Waits (w : EpollWrapper os) : Type 0 where
    pub queued : get_elem? w.ready_events i ≡ some ev
    pub routed : subscriber_id w (os.event_fd ev) ≡ route

  register-Waits :
      (e : Events os) (own : SubscriberId) (w : EpollWrapper os)
      → SparesAdd route (os.event_fd ev) e
      → subscriber_id w (Events.fd e) ≡ none
      → Waits w
      → Waits (register (Events.fd e) own w)
  register-Waits e own w spares free waits = record {
    queued = rw (ready_events-register (Events.fd e) own w) (waits.queued);
    routed = register_routed ev route e own w spares free waits.routed;
  }

  unregister-Waits :
      (fd : RawFd) (own : SubscriberId) (w : EpollWrapper os)
      → fd ≢ os.event_fd ev
      → Waits w
      → Waits (unwatch fd own (remove_event fd w))
  unfolding discard
  unregister-Waits fd own w other waits = record {
    queued =
        rw (ready_events-unwatch fd own (remove_event fd w))
          (ground (arith, get_elem?-remove_event fd w i, waits.queued));
    routed = ground (arith, subscriber_id-unregister fd own w (os.event_fd ev), waits.routed);
  }

  perform-Waits :
      (r : Request os) (ops : EventOps os)
      → SparesRequest route (os.event_fd ev) r
      → Waits ops.wrapper
      → Waits (perform r ops).1.wrapper
  perform-Waits r ops spares waits =
      perform_cases (λ s. Waits s.wrapper) r ops (λ _. waits)
        (λ e _ is free.
          register-Waits e ops.subscriber_id ops.wrapper
            (subst (SparesRequest route (os.event_fd ev)) is spares) free waits)
        (λ e _ is.
          unregister-Waits (Events.fd e) ops.subscriber_id ops.wrapper
            (subst (SparesRequest route (os.event_fd ev)) is spares) waits)

module _ {os : Os} {S R A : Type 0} (i : ℕ) (ev : os.EpollEvent) (route : Option SubscriberId) where
  pub run_handler-Waits :
      (h : Handler os S R A) (self : Scope os S R)
      → Spares route (os.event_fd ev) h
      → Waits i ev route self.wrapper
      → Ensures (λ left. Waits i ev route left.1.wrapper) (run_handler h self)
  unfolding run_handler
  run_handler-Waits (Handler.done a) self spares waits = waits
  run_handler-Waits Handler.panics self spares waits = tt
  run_handler-Waits (Handler.request r k) self spares waits =
      run_handler-Waits (k _) _ (spares.1 _) (perform-Waits i ev route r self.ops spares.0 waits)
  run_handler-Waits (Handler.send f reply k) self spares waits =
      run_handler-Waits (k _) _ (spares _) waits
  run_handler-Waits (Handler.effect change k) self spares waits =
      run_handler-Waits (k _) _ (spares _) waits
