-- ===== src/UnitTests/Invalid.antt =====
-- `test_add_invalid_subscriber` of src/manager.rs: the same subscriber cannot be added twice.
use event_manager.Prelude.{
  Settles, Settles-bind, Settles-Ensures, ◌≡◌, refl, ap, ◌∙◌, false, some, ok, err, Outcome,
  returned, panicked, ◌>>=◌, Ensures, Returns, Returns-map, unfinished, Result-cases, arith, inl,
  inr,
}
use event_manager.Os.{Os}
use event_manager.Error.{Error, fd_already_registered}
use event_manager.Events
use event_manager.Events.{Events}
use event_manager.Epoll.{SubscriberId, subscriber_id}
use event_manager.EventOps.{add, ops_unchecked, perform}
use event_manager.EventOps.Branches.{add_branches}
use event_manager.EventOps.Succeeded.{subscriber_id-add}
use event_manager.Handler.{run_handler, bind_handler}
use event_manager.Subscribers
use event_manager.Manager.Kept.{get-add_self}
use event_manager.Manager
use event_manager.Manager.{context, scope, after_handler, with_subscribers}
use event_manager.Manager.Loop
use event_manager.Traits.{Mutex, map_handler}
use event_manager.Traits.Shared.{Location, LocationLaws, with_lock}
use event_manager.UnitTests.{DummySubscriber, new_dummy, fd_1, init_dummy}
use event_manager.UnitTests.ManagerTests.{
  Shared, Tested, add_shared, set_up, shared_subscriber, shared, test_add_invalid_subscriber,
}
use event_manager.Utilities.{expect_all}

module _ {os : Os} (place : Location os (Mutex (DummySubscriber os))) where
  -- The events of `init`.
  abbrev first_events : Tested place → Events os
  first_events m = Events.new_raw (fd_1 (place.load m.world).value) os.set_out

  next : Tested place → SubscriberId
  next m = (Subscribers.add (shared place) m.subscribers).0

  -- The call panics where the request of `init` is refused.
  refused :
      (m : Tested place) (e : Error os)
      → (place.load m.world).poisoned ≡ false
      → (add (first_events m) (ops_unchecked (context m) (next m))).0 ≡ err e
      → add_shared place m ≡ panicked
  unfolding add_shared Loop.add_subscriber shared_subscriber with_lock init_dummy expect_all
      bind_handler map_handler run_handler next perform Subscribers.get_mut_unchecked ops_unchecked
      Events.new_raw Subscribers.add Subscribers.write_back
  refused m e unlocked failed =
      rw (get-add_self (shared place) m.subscribers, unlocked, failed) refl

  -- Else the first descriptor is routed to the subscriber, in a mutex that is free.
  record IsAdded (left : SubscriberId × Tested place) : Type 0 where
    unlocked : (place.load left.1.world).poisoned ≡ false
    routed : subscriber_id left.1.epoll_context (Events.fd (first_events left.1)) ≡ some left.0

  accepted :
      (m : Tested place)
      → LocationLaws place
      → (place.load m.world).poisoned ≡ false
      → (add (first_events m) (ops_unchecked (context m) (next m))).0 ≡ ok tt
      → subscriber_id
          (add (first_events m) (ops_unchecked (context m) (next m))).1.wrapper
          (Events.fd (first_events m))
        ≡ some (next m)
      → Returns IsAdded (add_shared place m)
  unfolding add_shared Loop.add_subscriber shared_subscriber with_lock init_dummy expect_all
      bind_handler map_handler run_handler next perform Subscribers.get_mut_unchecked ops_unchecked
      Events.new_raw Subscribers.add Subscribers.write_back
  accepted m laws unlocked added routed =
      rw (get-add_self (shared place) m.subscribers, unlocked, added)
        (record {
          unlocked = ap (λ v. v.poisoned) (laws.load-store _ _);
          routed =
              ap
                (λ v.
                  subscriber_id
                    (add (first_events m) (ops_unchecked (context m) (next m))).1.wrapper
                    (Events.fd (Events.new_raw {os = os} (fd_1 v.value) os.set_out)))
                (laws.load-store _ _)
              ∙ routed;
        })

  routed_self :
      (m : Tested place)
      → (add (first_events m) (ops_unchecked (context m) (next m))).0 ≡ ok tt
      → subscriber_id
          (add (first_events m) (ops_unchecked (context m) (next m))).1.wrapper
          (Events.fd (first_events m))
        ≡ some (next m)
  unfolding ops_unchecked
  routed_self m added = ground (
    arith,
    subscriber_id-add (first_events m) (ops_unchecked (context m) (next m))
        (Events.fd (first_events m)) added,
  )

  -- A descriptor that is routed is refused, and else the call panics or routes it.
  add_shared-IsAdded :
      (m : Tested place)
      → LocationLaws place
      → (place.load m.world).poisoned ≡ false
      → Settles IsAdded (add_shared place m)
  add_shared-IsAdded m laws unlocked =
      elim (add_branches (first_events m) (ops_unchecked (context m) (next m))) [
        | inl (id, taken, is) ↦ inl (refused m _ unlocked (ap (λ r. r.0) is))
        | inr (inl (x, free, failed, is)) ↦ inl (refused m _ unlocked (ap (λ r. r.0) is))
        | inr (inr (free, done, is)) ↦
            inr (accepted m laws unlocked (ap (λ r. r.0) is) (routed_self m (ap (λ r. r.0) is)))
      ]

  -- A second registration of the subscriber is refused, whoever asks for it, and so the test panics.
  pub record IsRefused (left : SubscriberId × Tested place) : Type 0 where
    pub answer :
        (id : SubscriberId)
        → (add (first_events left.1) (ops_unchecked (context left.1) id)).0
          ≡ err fd_already_registered
    pub panics : add_shared place left.1 ≡ panicked

  routed-refused :
      (m : Tested place) (owner id : SubscriberId)
      → subscriber_id m.epoll_context (Events.fd (first_events m)) ≡ some owner
      → (add (first_events m) (ops_unchecked (context m) id)).0 ≡ err fd_already_registered
  unfolding ops_unchecked
  routed-refused m owner id routed =
      elim (add_branches (first_events m) (ops_unchecked (context m) id)) [
        | inl (other, taken, is) ↦ ap (λ r. r.0) is
        | inr (inl (x, free, _, _)) ↦ absurd (cc)
        | inr (inr (free, _, _)) ↦ absurd (cc)
      ]

  IsAdded-IsRefused : (left : SubscriberId × Tested place) → IsAdded left → IsRefused left
  IsAdded-IsRefused left p = record {
    answer = λ id. routed-refused left.1 left.0 id p.routed;
    panics = refused left.1 _ p.unlocked (routed-refused left.1 left.0 _ p.routed);
  }

  abbrev IsUnlocked : Tested place → Type 0
  IsUnlocked m = (place.load m.world).poisoned ≡ false

  new_dummy-Settles : (w : os.World) → Settles (λ _. Unit) (new_dummy {os = os} w)
  unfolding new_dummy
  new_dummy-Settles w = elim (Result-cases (os.eventfd_new 0 w).0) [
    | inr (e, failed) ↦ inl (rw (failed, new_dummy) refl)
    | inl (fd, made) ↦ elim (Result-cases (os.eventfd_new 0 (os.eventfd_new 0 w).1).0) [
      | inr (e, failed) ↦ inl (rw (made, new_dummy) (rw failed refl))
      | inl (fd', made') ↦ inr (rw (made, new_dummy) (rw made' tt))
    ]
  ]

  set_up-IsUnlocked :
      (world : os.World) → LocationLaws place → Settles IsUnlocked (set_up place world)
  unfolding set_up
  set_up-IsUnlocked world laws =
      elim (Result-cases (Manager.new {os = os} {S = Shared os} {R = Unit {0}} world).0) [
        | inr (e, failed) ↦ inl (rw (failed, set_up) refl)
        | inl (manager, made) ↦
            rw (made, set_up)
              (Settles-bind (λ _. Unit) IsUnlocked (new_dummy _) _ (new_dummy-Settles _)
                (λ _ _. inr (ap (λ v. v.poisoned) (laws.load-store _ _))))
      ]

  IsRefused-panics :
      (o : Outcome (SubscriberId × Tested place))
      → Settles IsRefused o
      → (o >>= (λ (_, self). add_shared place self) >>= (λ (_, self). returned self)) ≡ panicked
  IsRefused-panics (returned left) (inl e) = cc
  IsRefused-panics (returned left) (inr p) = rw (p.panics) refl
  IsRefused-panics panicked p = refl
  IsRefused-panics unfinished (inl e) = cc
  IsRefused-panics unfinished (inr p) = absurd p

  -- Where memory keeps what is stored, and whatever the operating system answers: once the first
  -- registration of the test has returned, a request to register the same events is answered with
  -- `FdAlreadyRegistered`, whichever subscriber makes it, and the second registration panics. So the
  -- test panics, as it should.
  pub test_add_invalid_subscriber-panics :
      (world : os.World)
      → LocationLaws place
      → Ensures IsRefused (set_up place world >>= add_shared place)
        × (test_add_invalid_subscriber place world ≡ panicked)
  unfolding test_add_invalid_subscriber
  test_add_invalid_subscriber-panics world laws =
      let first =
        Settles-bind IsUnlocked IsRefused (set_up place world) _ (set_up-IsUnlocked world laws)
          (λ m unlocked. elim (add_shared-IsAdded m laws unlocked) [
            | inl e ↦ inl e
            | inr p ↦ inr (Returns-map IsAdded IsRefused (add_shared place m) IsAdded-IsRefused p)
          ]) in
      (
        Settles-Ensures IsRefused (set_up place world >>= add_shared place) first,
        IsRefused-panics _ first,
      )
