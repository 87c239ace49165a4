-- ===== src/UnitTests/ManagerTests.antt =====
-- The unit tests of src/manager.rs, run on any operating system. A test has a mutex with its
-- subscriber in it at a place in memory, and no other thread that holds it.
use event_manager.Prelude.{
  ℕ, Bool, false, not, ◌-◌, ◌^◌, ok, err, Result, Outcome, returned, panicked, ◌>>=◌, if◌then◌else◌,
}
use event_manager.Os.{Os}
use event_manager.Error.{Error, invalid_id}
use event_manager.Epoll.{SubscriberId}
use event_manager.Handler.{MutEventSubscriber}
use event_manager.Manager
use event_manager.Manager.{Machine}
use event_manager.Manager.Loop
use event_manager.Traits.{Arc, Mutex, arc_mut_event_subscriber}
use event_manager.Traits.Shared.{Location, SharedMutex, mutex_event_subscriber}
use event_manager.UnitTests.{
  DummySubscriber, new_dummy, dummy_subscriber, request_register_ev2, request_unregister_ev1,
  request_modify_ev1, reset_state,
}
use event_manager.UnitTests.EventTests.{assert}

-- `Arc<Mutex<DummySubscriber>>`
abbrev pub Shared : Os → Type 0
Shared os = Arc (SharedMutex os (DummySubscriber os))

module _ {os : Os} (place : Location os (Mutex (DummySubscriber os))) where
  -- Its implementation of `MutEventSubscriber`.
  unfoldable pub shared_subscriber : MutEventSubscriber os (Shared os) (Unit {0}) (Shared os)
  unfolding arc_mut_event_subscriber mutex_event_subscriber dummy_subscriber
  shared_subscriber = arc_mut_event_subscriber (mutex_event_subscriber dummy_subscriber)

  abbrev pub Tested : Type 0
  Tested = Machine os (Shared os) (Unit {0})

  -- `dummy_subscriber`, and each of its clones.
  abbrev pub shared : Shared os
  shared = record { deref = record { cell = place; acquire = λ w. w } }

  -- `EventManager::new().unwrap()`, and `Arc::new(Mutex::new(DummySubscriber::new()))`
  unfoldable pub set_up : os.World → Outcome Tested
  set_up world = elim (Manager.new {os = os} {S = Shared os} {R = Unit {0}} world).0 [
    | err _ ↦ panicked
    | ok manager ↦
        new_dummy (Manager.new {os = os} {S = Shared os} {R = Unit {0}} world).1
        >>= (λ (dummy, world'). returned (record {
          manager = manager;
          world = place.store (record { value = dummy; poisoned = false }) world';
        }))
  ]

  -- `event_manager.add_subscriber(dummy_subscriber.clone())`
  unfoldable pub add_shared : Tested → Outcome (SubscriberId × Tested)
  unfolding shared_subscriber Loop.add_subscriber
  add_shared self = Loop.add_subscriber ⦃sub = shared_subscriber⦄ shared self

  -- `dummy_subscriber.lock().unwrap()`, and what is done to the subscriber.
  unfoldable pub with_dummy : (DummySubscriber os → DummySubscriber os) → Tested → Outcome Tested
  with_dummy change self =
      let locked = place.load self.world in
      if locked.poisoned
      then panicked
      else returned (record self {
        world = place.store (record { value = change locked.value; poisoned = false }) self.world;
      })

  -- `assert!` of a flag of the subscriber
  unfoldable pub assert_dummy : (DummySubscriber os → Bool) → Tested → Outcome Tested
  assert_dummy flag self =
      let locked = place.load self.world in
      if locked.poisoned then panicked else assert (flag locked.value) >>= (λ _. returned self)

  -- `event_manager.run_with_timeout(milliseconds).unwrap()`
  unfoldable pub run_unwrap : ℕ → ℕ → Tested → Outcome Tested
  unfolding shared_subscriber Loop.run_with_timeout
  run_unwrap fuel milliseconds self =
      Loop.run_with_timeout ⦃sub = shared_subscriber⦄ fuel milliseconds self
      >>= (λ (answer, self'). elim answer [ ok _ ↦ returned self' | err _ ↦ panicked ])

  -- `event_manager.remove_subscriber(subscriber_id)`
  abbrev pub remove_shared : SubscriberId → Tested → Result (Shared os) (Error os) × Tested
  remove_shared id self = Manager.remove_subscriber id self

  -- The writing of 1 to the first eventfd, with `unwrap`.
  unfoldable pub write_ev1 : Tested → Outcome Tested
  write_ev1 self =
      let locked = place.load self.world in
      if locked.poisoned
      then panicked
      else (let w = os.eventfd_write locked.value.event_fd_1 1 self.world in
          elim w.0 [ ok _ ↦ returned (record self { world = w.1 }) | err _ ↦ panicked ])

  -- `assert_eq!(result.err().unwrap(), Error::InvalidId)`
  unfoldable pub assert_invalid_id : Result (Shared os) (Error os) → Outcome (Unit {0})
  assert_invalid_id (ok _) = panicked
  assert_invalid_id (err invalid_id) = returned tt
  assert_invalid_id (err _) = panicked

  unfoldable pub test_register : ℕ → os.World → Outcome Tested
  unfolding set_up add_shared with_dummy assert_dummy run_unwrap request_register_ev2 reset_state
  test_register fuel world =
      set_up world
      >>= add_shared
      >>= (λ (_, self). with_dummy request_register_ev2 self)
      >>= run_unwrap fuel (2 ^ 32 - 1)
      >>= assert_dummy (λ dummy. dummy.processed_ev1_out)
      >>= assert_dummy (λ dummy. not dummy.processed_ev2_out)
      >>= with_dummy reset_state
      >>= run_unwrap fuel (2 ^ 32 - 1)
      >>= assert_dummy (λ dummy. dummy.processed_ev1_out)
      >>= assert_dummy (λ dummy. dummy.processed_ev2_out)

  unfoldable pub test_add_invalid_subscriber : os.World → Outcome Tested
  unfolding set_up add_shared
  test_add_invalid_subscriber world =
      set_up world
      >>= add_shared
      >>= (λ (_, self). add_shared self)
      >>= (λ (_, self). returned self)

  unfoldable pub test_unregister : ℕ → os.World → Outcome Tested
  unfolding set_up add_shared with_dummy assert_dummy run_unwrap request_unregister_ev1 reset_state
  test_unregister fuel world =
      set_up world
      >>= add_shared
      >>= (λ (_, self). with_dummy request_unregister_ev1 self)
      >>= run_unwrap fuel (2 ^ 32 - 1)
      >>= assert_dummy (λ dummy. dummy.processed_ev1_out)
      >>= with_dummy reset_state
      >>= run_unwrap fuel 100
      >>= assert_dummy (λ dummy. not dummy.processed_ev1_out)

  unfoldable pub test_modify : ℕ → os.World → Outcome Tested
  unfolding set_up add_shared with_dummy assert_dummy run_unwrap write_ev1 request_modify_ev1
      reset_state
  test_modify fuel world =
      set_up world
      >>= add_shared
      >>= (λ (_, self). with_dummy request_modify_ev1 self)
      >>= run_unwrap fuel (2 ^ 32 - 1)
      >>= assert_dummy (λ dummy. dummy.processed_ev1_out)
      >>= assert_dummy (λ dummy. not dummy.processed_ev2_out)
      >>= with_dummy reset_state
      >>= write_ev1
      >>= run_unwrap fuel (2 ^ 32 - 1)
      >>= assert_dummy (λ dummy. not dummy.processed_ev1_out)
      >>= assert_dummy (λ dummy. not dummy.processed_ev2_out)
      >>= assert_dummy (λ dummy. dummy.processed_ev1_in)

  unfoldable pub test_remove_subscriber : ℕ → os.World → Outcome Tested
  unfolding set_up add_shared with_dummy assert_dummy run_unwrap assert_invalid_id reset_state
      Manager.remove_subscriber
  test_remove_subscriber fuel world = set_up world >>= add_shared >>= (λ (subscriber_id, self).
      run_unwrap fuel (2 ^ 32 - 1) self
      >>= assert_dummy (λ dummy. dummy.processed_ev1_out)
      >>= with_dummy reset_state
      >>= (λ self₁. elim (remove_shared subscriber_id self₁).0 [
        | err _ ↦ panicked
        | ok _ ↦ returned (remove_shared subscriber_id self₁).1
      ])
      >>= run_unwrap fuel 100
      >>= assert_dummy (λ dummy. not dummy.processed_ev1_out)
      >>= (λ self₂.
          assert_invalid_id (remove_shared subscriber_id self₂).0
          >>= (λ _. returned (remove_shared subscriber_id self₂).1)))
