-- ===== src/IntegrationTests.antt =====
-- tests/regressions.rs: a subscriber that removes all its descriptors and registers them again while
-- the first of its events is processed.
pub mod Sifted
pub mod Reused
use event_manager.Prelude.{
  ℕ, ◌+◌, ◌==◌, List, [], ◌∷◌, ok, err, Outcome, returned, panicked, ◌>>=◌, true, if◌then◌else◌,
}
use event_manager.Os.{Os}
use event_manager.Manager
use event_manager.Manager.{Machine}
use event_manager.Manager.Loop
use event_manager.Utilities.{
  CounterSubscriberWithData, counter_subscriber_with_data, new_with_data, set_toggle_registry,
  trigger_all_counters, get_all_counter_values,
}

-- `counters[0] + counters[1] + counters[2]`
abbrev pub sum : List ℕ → ℕ
sum [] = 0
sum (n ∷ ns) = n + sum ns

module _ (os : Os) where
  abbrev pub Tested : Type 0
  Tested = Machine os (CounterSubscriberWithData os) (Unit {0})

  -- The first half of the test, up to where the subscriber is added.
  unfoldable pub add_toggling : os.World → Outcome (ℕ × Tested)
  unfolding Loop.add_subscriber
  add_toggling world =
      elim (Manager.new {os = os} {S = CounterSubscriberWithData os} {R = Unit {0}} world).0 [
        | err _ ↦ panicked
        | ok manager ↦
            new_with_data 0
              (Manager.new {os = os} {S = CounterSubscriberWithData os} {R = Unit {0}} world).1
            >>= (λ (made, world').
                let counter_subscriber = set_toggle_registry true made in
                Loop.add_subscriber ⦃sub = counter_subscriber_with_data⦄ counter_subscriber
                  (record {
                    manager = manager;
                    world = trigger_all_counters counter_subscriber world';
                  }))
      ]

  unfoldable pub test_reuse_file_descriptor : ℕ → os.World → Outcome Tested
  unfolding add_toggling Loop.run get_all_counter_values
  test_reuse_file_descriptor fuel world = add_toggling world >>= (λ (id, self).
      Loop.run ⦃sub = counter_subscriber_with_data⦄ fuel self >>= (λ (answer, self'). elim answer [
        | err _ ↦ panicked
        | ok _ ↦ Manager.subscriber_mut id (λ s. s) self' >>= (λ (found, self''). elim found [
          | err _ ↦ panicked
          | ok c_ref ↦ if sum (get_all_counter_values c_ref) == 1 then returned self'' else panicked
        ])
      ]))
