-- ===== src/Manager/Delivered.antt =====
-- Which subscribers the dispatch of events reaches.
use event_manager.Prelude.{
  ℕ, ◌≡◌, refl, ◌∙◌, false, Option, some, Ensures, Ensures-map, Ensures-true, Returns, Returns-bind,
  Returns-self, returned, arith, ◌==◌,
}
use event_manager.Prelude.HashMap
use event_manager.Os.{Os}
use event_manager.Events.{with_inner}
use event_manager.Epoll.{SubscriberId, subscriber_id}
use event_manager.Epoll.Buffer.{is_discarded}
use event_manager.Subscribers
use event_manager.Subscribers.{Subscribers}
use event_manager.Subscribers.Identifiers.{get-write_back}
use event_manager.Handler.{MutEventSubscriber, Scope, run_handler}
use event_manager.Handler.Rules.{Calm, run_handler-Returns}
use event_manager.Manager.{Machine, scope}
use event_manager.Manager.Loop
use event_manager.Manager.Rules.{dispatch_from-Ensures}
use event_manager.Manager.Wellformed.{is_registered}

-- The same identifiers are in use, and the same comes next.
pub record SameIds {S : Type 0} (old new : Subscribers S) : Type 0 where
  pub same_next : new.next_id ≡ old.next_id
  pub same_ids : (id : SubscriberId) → is_registered new id ≡ is_registered old id

-- One subscriber has become `t`, and the others are as they were.
pub record OnlyChanged {S : Type 0} (id : SubscriberId) (t : S) (old new : Subscribers S)
    : Type 0 where
  pub changed : HashMap.get new.subscribers id ≡ some t
  pub others :
      (other : SubscriberId)
      → (id == other) ≡ false
      → HashMap.get new.subscribers other ≡ HashMap.get old.subscribers other

module _ {S : Type 0} (subs : Subscribers S) (id : SubscriberId) (t : S) where
  write_back-OnlyChanged : OnlyChanged id t subs (Subscribers.write_back id t subs)
  write_back-OnlyChanged = record {
    changed = ground (arith, get-write_back id t subs id);
    others = λ other ne. ground (arith, get-write_back id t subs other);
  }

  write_back-SameIds :
      (old : S)
      → HashMap.get subs.subscribers id ≡ some old
      → SameIds subs (Subscribers.write_back id t subs)
  unfolding Subscribers.write_back
  write_back-SameIds old found = record {
    same_next = refl;
    same_ids = λ i. ground (arith, get-write_back id t subs i);
  }

SameIds-trans : {S : Type 0} {a b c : Subscribers S} → SameIds a b → SameIds b c → SameIds a c
SameIds-trans p q = record {
  same_next = q.same_next ∙ p.same_next;
  same_ids = λ id. q.same_ids id ∙ p.same_ids id;
}

module _ {os : Os} {S R : Type 0} ⦃sub : MutEventSubscriber os S R S⦄ where
  -- The dispatch of any number of events registers and unregisters no subscriber, whatever the
  -- handlers do.
  pub dispatch_from-SameIds :
      (rounds ev_index : ℕ) (endpoint_event : Option os.EpollEvent) (m : Machine os S R)
      → Ensures
          (λ left. SameIds m.subscribers left.1.subscribers)
          (Loop.dispatch_from rounds ev_index endpoint_event m)
  dispatch_from-SameIds rounds ev_index endpoint_event m =
      dispatch_from-Ensures (λ m'. SameIds m.subscribers m'.subscribers)
        (λ t event id m' found before.
          Ensures-map (λ _. Unit) _ (run_handler (sub.process t (with_inner event)) (scope m' id))
            (λ left _. SameIds-trans before (write_back-SameIds m'.subscribers id left.0 t found))
            (Ensures-true (run_handler (sub.process t (with_inner event)) (scope m' id))))
        rounds ev_index endpoint_event m (record { same_next = refl; same_ids = λ id. refl })

  -- What `process` has left behind, and that nothing else has changed.
  abbrev pub IsProcessed :
      SubscriberId → S → os.EpollEvent → Machine os S R → Subscribers S → Type 0
  IsProcessed id t event m new =
      (t' : S) × (after : Scope os S R) × (run_handler (sub.process t (with_inner event))
          (scope m id)
        ≡ returned (t', after))
      × OnlyChanged id t' m.subscribers new

  process_event-IsProcessed :
      (event : os.EpollEvent) (m : Machine os S R) (id : SubscriberId) (t : S)
      → HashMap.get m.subscribers.subscribers id ≡ some t
      → Calm (sub.process t (with_inner event))
      → Returns (λ m'. IsProcessed id t event m m'.subscribers) (Loop.process_event id event m)
  unfolding Loop.process_event Subscribers.get_mut_unchecked
  process_event-IsProcessed event m id t found calm =
      let ran = run_handler (sub.process t (with_inner event)) (scope m id) in
      rw (found, Loop.process_event)
        (Returns-bind (λ left. (ran ≡ returned left) × Unit) _ ran _
          (Returns-self _ ran
            (run_handler-Returns (sub.process t (with_inner event)) (scope m id) calm))
          (λ left is. (left.0, left.1, is.0, write_back-OnlyChanged m.subscribers id left.0)))

  -- An event that has not been discarded and whose descriptor is routed to a registered subscriber
  -- is handed to `process` of that subscriber. If that does not panic, the dispatch of the event
  -- returns: that subscriber is stored as `process` leaves it, no other one changes, and the endpoint
  -- event found so far stays.
  pub dispatch_event-IsProcessed :
      (event : os.EpollEvent) (endpoint_event : Option os.EpollEvent) (m : Machine os S R)
      (id : SubscriberId) (t : S)
      → is_discarded os event ≡ false
      → subscriber_id m.epoll_context (os.event_fd event) ≡ some id
      → HashMap.get m.subscribers.subscribers id ≡ some t
      → Calm (sub.process t (with_inner event))
      → Returns
          (λ left. (left.0 ≡ endpoint_event) × IsProcessed id t event m left.1.subscribers)
          (Loop.dispatch_event event endpoint_event m)
  unfolding Loop.dispatch_event
  dispatch_event-IsProcessed event endpoint_event m id t kept routed found calm =
      rw (kept, routed, Loop.dispatch_event)
        (Returns-bind (λ m'. IsProcessed id t event m m'.subscribers) _
          (Loop.process_event id event m) _ (process_event-IsProcessed event m id t found calm)
          (λ m' p. (refl, p)))
