-- ===== src/UnitTests/Dummy.antt =====
-- What `DummySubscriber` leaves registered, and what it notes.
use event_manager.Prelude.{
  ◌≡◌, ◌<◌, ◌^◌, refl, true, false, Bool, Option, ◌&&◌, some, none, [], ◌∷◌, ok, arith, Ensures,
  Ensures-map, ◌∙◌, ap, ◌==◌, if◌then◌else◌,
}
use event_manager.Events.RoundTrip.{fd-with_data_raw}
use event_manager.Os.{Os, RawFd, EpollEventLaws}
use event_manager.Events
use event_manager.Events.{Events}
use event_manager.Epoll.{subscriber_id, SubscriberId}
use event_manager.EventOps.{Request, perform, adds, modifies, removes}
use event_manager.EventOps.Succeeded.{
  subscriber_id-add, subscriber_id-remove_request, subscriber_id-modify,
}
use event_manager.Handler.{Handler, Scope, run_handler}
use event_manager.Handler.Rules.{bind_handler-Ensures}
use event_manager.Manager.Wellformed.{perform-own}
use event_manager.Utilities.{expect_all}
use event_manager.Utilities.Expect.{expect_step}
use event_manager.UnitTests.{
  DummySubscriber, fd_1, fd_2, all_but_in_out, handle_event, update_register, update_unregister,
  update_modify, handle_updates, process_dummy,
}

module _ {os : Os} {S R A : Type 0} (Q : A × Scope os S R → Type 0)
    (make : Events os → Request os) where
  -- One request with `unwrap`, under a flag.
  flagged-Ensures :
      (flag : Bool) (e : Events os) (a b : A) (self : Scope os S R)
      → (flag ≡ true
          → (perform (make e) self.ops).0 ≡ ok tt
          → Q (a, record self { ops = (perform (make e) self.ops).1 }))
      → (flag ≡ false → Q (b, self))
      → Ensures Q (
          run_handler
            (if flag then expect_all make (e ∷ []) (Handler.done a) else Handler.done b)
            self)
  unfolding run_handler expect_all
  flagged-Ensures true e a b self done skipped =
      expect_step Q make e [] (Handler.done a) self (λ answered. done refl answered)
  flagged-Ensures false e a b self done skipped = skipped refl

module _ {os : Os} {S R : Type 0} where
  -- The routes that one part of `handle_updates` makes of others, for the same subscriber.
  record Leaves (route : RawFd → Option SubscriberId) (t : DummySubscriber os) (id : SubscriberId)
      (left : DummySubscriber os × Scope os S R) : Type 0 where
    subscriber : left.0 ≡ t
    own : left.1.subscriber_id ≡ id
    routes : (j : RawFd) → subscriber_id left.1.wrapper j ≡ route j

  -- The events that the three parts hand over name their descriptor, where it is an `i32`.
  register-Leaves :
      (self : DummySubscriber os) (scope : Scope os S R)
      → Ensures
          (Leaves
            (λ j.
              if self.register_ev2
                && Events.fd (Events.new_raw {os = os} (fd_2 self) os.set_out) == j
              then some scope.subscriber_id
              else subscriber_id scope.wrapper j)
            (record self { register_ev2 = false })
            scope.subscriber_id)
          (run_handler (update_register self) scope)
  unfolding update_register perform
  register-Leaves self scope =
      flagged-Ensures _ adds self.register_ev2 _ (record self { register_ev2 = false }) self scope
        (λ flag added. record {
          subscriber = refl;
          own = perform-own (adds _) scope.ops;
          routes = λ j. ground (
            arith,
            flag,
            subscriber_id-add (Events.new_raw (fd_2 self) os.set_out) scope.ops j added,
          );
        })
        (λ flag. record {
          subscriber = ground (arith, flag);
          own = refl;
          routes = λ j. ground (arith, flag);
        })

  unregister-Leaves :
      (self : DummySubscriber os) (scope : Scope os S R)
      → Ensures
          (Leaves
            (λ j.
              if self.unregister_ev1
                && Events.fd (Events.new_raw {os = os} (fd_1 self) os.set_empty) == j
              then none
              else subscriber_id scope.wrapper j)
            (record self { unregister_ev1 = false })
            scope.subscriber_id)
          (run_handler (update_unregister self) scope)
  unfolding update_unregister perform
  unregister-Leaves self scope =
      flagged-Ensures _ removes self.unregister_ev1 _ (record self { unregister_ev1 = false }) self
        scope
        (λ flag removed. record {
          subscriber = refl;
          own = perform-own (removes _) scope.ops;
          routes = λ j. ground (
            arith,
            flag,
            subscriber_id-remove_request (Events.new_raw (fd_1 self) os.set_empty) scope.ops j
                removed,
          );
        })
        (λ flag. record {
          subscriber = ground (arith, flag);
          own = refl;
          routes = λ j. ground (arith, flag);
        })

  modify-Leaves :
      (self : DummySubscriber os) (scope : Scope os S R)
      → Ensures
          (Leaves
            (λ j. subscriber_id scope.wrapper j)
            (record self { modify_ev1 = false })
            scope.subscriber_id)
          (run_handler (update_modify self) scope)
  unfolding update_modify perform
  modify-Leaves self scope =
      flagged-Ensures _ modifies self.modify_ev1 _ (record self { modify_ev1 = false }) self scope
        (λ flag modified. record {
          subscriber = refl;
          own = perform-own (modifies _) scope.ops;
          routes = λ j. subscriber_id-modify (Events.new_raw (fd_1 self) os.set_in) scope.ops j;
        })
        (λ flag. record { subscriber = ground (arith, flag); own = refl; routes = λ j. refl })

  -- `handle_updates` as a whole, on the descriptors as the three parts pack them.
  updates-Leaves :
      (self : DummySubscriber os) (scope : Scope os S R)
      → Ensures
          (Leaves
            (λ j.
              if self.unregister_ev1
                && Events.fd (Events.new_raw {os = os} (fd_1 self) os.set_empty) == j
              then none
              else if self.register_ev2
                  && Events.fd (Events.new_raw {os = os} (fd_2 self) os.set_out) == j
              then some scope.subscriber_id
              else subscriber_id scope.wrapper j)
            (record self { register_ev2 = false; unregister_ev1 = false; modify_ev1 = false })
            scope.subscriber_id)
          (run_handler (handle_updates self) scope)
  unfolding handle_updates
  updates-Leaves self scope =
      bind_handler-Ensures _ _ (update_register self) _ scope (register-Leaves self scope)
        (λ left p.
          bind_handler-Ensures _ _ (update_unregister left.0) _ left.1
            (unregister-Leaves left.0 left.1)
            (λ left₂ q.
              Ensures-map _ _ (run_handler (update_modify left₂.0) left₂.1)
                (λ left₃ r. record {
                  subscriber =
                      r.subscriber
                      ∙ ap (λ (t : DummySubscriber os). record t { modify_ev1 = false })
                          (q.subscriber
                            ∙ ap (λ (t : DummySubscriber os). record t { unregister_ev1 = false })
                                p.subscriber);
                  own = r.own ∙ q.own ∙ p.own;
                  routes = λ j. r.routes j ∙ q.routes j ∙ rw (p.subscriber, p.routes j) refl;
                })
                (modify-Leaves left₂.0 left₂.1)))

  -- The subscriber and the routes that `process` leaves, for any settings of the three flags.
  pub record IsUpdated (self : DummySubscriber os) (events : Events os) (scope : Scope os S R)
      (left : DummySubscriber os × Scope os S R) : Type 0 where
    pub subscriber :
        left.0
        ≡ handle_event events
            (record self { register_ev2 = false; unregister_ev1 = false; modify_ev1 = false })
    pub routes :
        (j : RawFd)
        → subscriber_id left.1.wrapper j ≡ (
            if self.unregister_ev1 && fd_1 self == j
            then none
            else if self.register_ev2 && fd_2 self == j
            then some scope.subscriber_id
            else subscriber_id scope.wrapper j)

  -- Let `DummySubscriber` process an event with none but `IN` and `OUT` set, whose handling does not
  -- panic. Then the first descriptor is unrouted if that was asked for, the second is routed to the
  -- subscriber if that was asked for and the first step has not unrouted it, and no other route has
  -- changed; the three flags are cleared; and the event is noted as the handlers of `IN` and `OUT` do.
  pub process_dummy-updates :
      EpollEventLaws os
      → (self : DummySubscriber os) (events : Events os) (scope : Scope os S R) → fd_1 self < 2 ^ 32
      → fd_2 self < 2 ^ 32
      → os.set_intersects (Events.event_set events) (all_but_in_out os) ≡ false
      → Ensures (IsUpdated self events scope) (run_handler (process_dummy self events) scope)
  unfolding process_dummy run_handler Events.new_raw
  process_dummy-updates laws self events scope small_1 small_2 known =
      rw (known, run_handler)
        (bind_handler-Ensures _ _ (handle_updates self) _ scope (updates-Leaves self scope)
          (λ left p. record {
            subscriber = ap (handle_event events) p.subscriber;
            routes = λ j. ground (
              arith,
              p.routes j,
              fd-with_data_raw laws (fd_1 self) 0 os.set_empty small_1,
              fd-with_data_raw laws (fd_2 self) 0 os.set_out small_2,
            );
          }))
