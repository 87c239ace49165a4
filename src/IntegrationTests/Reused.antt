-- ===== src/IntegrationTests/Reused.antt =====
-- The turn of the event loop in tests/regressions.rs.
use event_manager.Prelude.{
  ℕ, suc, ◌+◌, ◌<◌, ◌≤◌, ◌%◌, ◌^◌, ◌≡◌, inl, inr, refl, sym, ap, subst, ◌∙◌, true, false, Option,
  some, List, Outcome, returned, panicked, unfinished, ◌>>=◌, Ensures, Ensures-and, Ensures-bind,
  Ensures-map, Ensures-true, Returns-Ensures, arith, contains, get_elem?, length, Bool-cases,
  if_true,
}
use event_manager.Prelude.HashMap
use event_manager.Os.{Os, RawFd, EpollEventLaws}
use event_manager.Events
use event_manager.Events.{Events}
use event_manager.Epoll.{SubscriberId, EpollWrapper, subscriber_id}
use event_manager.Epoll.Buffer.{is_discarded}
use event_manager.Epoll.Flushed.{IsFlushed}
use event_manager.EventOps.{ops_unchecked, adds, removes}
use event_manager.EventOps.Consistent.{perform-length}
use event_manager.Handler.{Scope, run_handler}
use event_manager.Handler.Rules.{run_handler-Ensures}
use event_manager.Subscribers
use event_manager.Subscribers.Identifiers.{get-write_back}
use event_manager.Events.RoundTrip.{fd-with_data_raw}
use event_manager.Manager.{scope}
use event_manager.Manager.Loop
use event_manager.Utilities.Expect.{expect_all-follows}
use event_manager.Utilities.Counting.{bump, process_with_data-counts}
use event_manager.Utilities.{
  CounterSubscriberWithData, get_all_counter_values, counter_subscriber_with_data, match_with_data,
  expect_all, process_with_data, events_with_data,
}
use event_manager.Utilities.Reuse.{fds, process_with_data-reuses}
use event_manager.IntegrationTests.{Tested}
use event_manager.IntegrationTests.Sifted.{
  AllOf, Ensures-all, perform-AllOf, all_gone, discarded_rounds,
}

module _ {os : Os} {S R : Type 0} where
  -- The counts once the subscriber has registered its descriptors again.
  toggled-counts :
      (laws : EpollEventLaws os) (s : CounterSubscriberWithData os) (fd : RawFd) (i : ℕ)
      (self : Scope os S R)
      → s.toggle_registry ≡ true
      → s.first_data < 2 ^ 32
      → fd < 2 ^ 31
      → i < 2 ^ 32
      → Ensures
          (λ left. get_all_counter_values left.0 ≡ bump (get_all_counter_values s) i)
          (run_handler
            (process_with_data s (Events.with_data_raw fd ((s.first_data + i) % 2 ^ 32) os.set_in))
            self)
  unfolding process_with_data events_with_data get_all_counter_values
  toggled-counts laws s fd i self on first low bound =
      let events = Events.with_data_raw {os = os} fd ((s.first_data + i) % 2 ^ 32) os.set_in in
      let Q : CounterSubscriberWithData os × Scope os S R → Type 0 =
        λ left. get_all_counter_values left.0 ≡ bump (get_all_counter_values s) i in
      let s' : CounterSubscriberWithData os = record s { toggle_registry = false } in
      let es : List (Events os) = events_with_data s' in
      subst (λ body. Ensures Q (run_handler body self))
        (sym (if_true s.toggle_registry _ (match_with_data s events) on))
        (expect_all-follows Q removes (expect_all adds es (match_with_data s' events)) es self
          (λ removed. expect_all-follows Q adds (match_with_data s' events) es removed (λ added.
            Ensures-map _ Q (run_handler (process_with_data s' events) added) (λ left p. p.0)
              (Returns-Ensures _ (run_handler (process_with_data s' events) added)
                (process_with_data-counts laws s' fd i added refl first low bound)))))

  -- The buffer once it has: the events behind the first are discarded ones.
  record IsToggled (own : List RawFd) (count : ℕ) (before : EpollWrapper os)
      (left : CounterSubscriberWithData os × Scope os S R) : Type 0 where
    all : AllOf os own count left.1.wrapper
    flushed : (fd : RawFd) → contains own fd ≡ true → IsFlushed os fd left.1.wrapper
    same_length : length left.1.ready_events ≡ length before.ready_events

  process-IsToggled :
      (s : CounterSubscriberWithData os) (events : Events os) (count : ℕ) (self : Scope os S R)
      → s.toggle_registry ≡ true
      → AllOf os (fds (events_with_data s)) count self.wrapper
      → Ensures
          (IsToggled (fds (events_with_data s)) count self.wrapper)
          (run_handler (process_with_data s events) self)
  process-IsToggled s events count self on all =
      let own = fds (events_with_data s) in
      let h = process_with_data s events in
      Ensures-map _ (IsToggled own count self.wrapper) (run_handler h self)
        (λ left p. record { all = p.0; flushed = p.1.0; same_length = p.1.1 })
        (Ensures-and (λ left. AllOf os own count left.1.wrapper) _ (run_handler h self)
          (run_handler-Ensures (λ o. AllOf os own count o.wrapper) (perform-AllOf own count)
            (λ _ _ p. p) h self all)
          (Ensures-and _ _ (run_handler h self)
            (Ensures-all (λ fd left. contains own fd ≡ true → IsFlushed os fd left.1.wrapper)
              (run_handler h self)
              (λ fd. elim (Bool-cases (contains own fd)) [
                | inr other ↦
                    Ensures-map (λ _. Unit) _ (run_handler h self) (λ left _ listed. absurd (cc))
                      (Ensures-true (run_handler h self))
                | inl listed ↦
                    Ensures-map _ _ (run_handler h self) (λ left p _. p.1)
                      (process_with_data-reuses s events self fd on listed)
              ]))
            (run_handler-Ensures (λ o. length o.ready_events ≡ length self.ready_events)
              (λ r o p. perform-length r o ∙ p) (λ _ _ p. p) h self refl)))

pass_over :
    {A B : Type 0} (o : Outcome A) (g : A → B) (f : B → Outcome B)
    → Ensures (λ a. f (g a) ≡ returned (g a)) o
    → (o >>= (λ a. returned (g a)) >>= f) ≡ (o >>= (λ a. returned (g a)))
pass_over (returned a) g f same = same
pass_over panicked g f same = refl
pass_over unfinished g f same = refl

-- The subscriber has counted one event of the counter `i`.
pub record IsCountedOnce {os : Os} (id : SubscriberId) (s : CounterSubscriberWithData os) (i : ℕ)
    (m : Tested os) : Type 0 where
  pub after : CounterSubscriberWithData os
  pub stored : HashMap.get m.subscribers.subscribers id ≡ some after
  pub counted : get_all_counter_values after ≡ bump (get_all_counter_values s) i

module _ {os : Os} (laws : EpollEventLaws os) (m : Tested os) (id : SubscriberId)
    (s : CounterSubscriberWithData os) (fd : RawFd) (i : ℕ) where
  -- The events that carry the registration of the counter `i`.
  abbrev events_of : Events os
  events_of = Events.with_data_raw fd ((s.first_data + i) % 2 ^ 32) os.set_in

  -- The call of `process`, and what is left in the buffer.
  abbrev call : Outcome (Tested os)
  call = Loop.process_event ⦃sub = counter_subscriber_with_data⦄ id events_of.inner m

  call-IsToggled :
      (k : ℕ)
      → HashMap.get m.subscribers.subscribers id ≡ some s
      → s.toggle_registry ≡ true
      → s.first_data < 2 ^ 32
      → fd < 2 ^ 31
      → i < 2 ^ 32
      → AllOf os (fds (events_with_data s)) (suc k) m.epoll_context
      → Ensures
          (λ m'.
            IsCountedOnce id s i m'
            × AllOf os (fds (events_with_data s)) (suc k) m'.epoll_context
            × ((j : RawFd)
                → contains (fds (events_with_data s)) j ≡ true
                → IsFlushed os j m'.epoll_context)
            × (length m'.epoll_context.ready_events ≡ length m.epoll_context.ready_events))
          call
  unfolding Loop.process_event Subscribers.get_mut_unchecked counter_subscriber_with_data
      ops_unchecked
  call-IsToggled k stored on first low bound all =
      rw (stored, Loop.process_event, Subscribers.get_mut_unchecked)
        (Ensures-bind _ _ (run_handler (process_with_data s events_of) (scope m id)) _
          (Ensures-and _ _ (run_handler (process_with_data s events_of) (scope m id))
            (toggled-counts laws s fd i (scope m id) on first low bound)
            (process-IsToggled s events_of (suc k) (scope m id) on all))
          (λ left p. (
            record {
              after = left.0;
              stored = ground (arith, get-write_back id left.0 m.subscribers id);
              counted = p.0;
            },
            p.1.all,
            p.1.flushed,
            p.1.same_length,
          )))

  -- Let the first event of the buffer carry the registration of a counter of a
  -- `CounterSubscriberWithData` whose registry is to be toggled, on a descriptor that is routed to it
  -- and is not negative, and let each further event of the turn be for one of its descriptors, or be a
  -- discarded one. Then the loop over these events calls `process` for the first one only, and does
  -- what that call does, its panics included; and where the call returns, the subscriber has counted
  -- this event and no other.
  pub dispatch_from-reuses :
      (k : ℕ) (e : Option os.EpollEvent)
      → HashMap.get m.subscribers.subscribers id ≡ some s
      → s.toggle_registry ≡ true
      → s.first_data < 2 ^ 32
      → fd < 2 ^ 31
      → i < 2 ^ 32
      → suc k ≤ length m.epoll_context.ready_events
      → get_elem? m.epoll_context.ready_events 0 ≡ some events_of.inner
      → is_discarded os events_of.inner ≡ false
      → subscriber_id m.epoll_context fd ≡ some id
      → AllOf os (fds (events_with_data s)) (suc k) m.epoll_context
      → (Loop.dispatch_from ⦃sub = counter_subscriber_with_data⦄ (suc k) 0 e m
          ≡ (call >>= (λ m'. returned (e, m'))))
        × Ensures (IsCountedOnce id s i) call
  unfolding Loop.dispatch_from Loop.dispatch_event Events.fd
  dispatch_from-reuses k e stored on first low bound fits queued kept routed all =
      let made = call-IsToggled k stored on first low bound all in
      let is_fd : os.event_fd events_of.inner ≡ fd =
        laws.fd_of_data events_of.inner
        ∙ (fd-with_data_raw laws fd ((s.first_data + i) % 2 ^ 32) os.set_in
            (omega (arith, low))).0 in
      let routed' : subscriber_id m.epoll_context (os.event_fd events_of.inner) ≡ some id =
        ap (subscriber_id m.epoll_context) is_fd ∙ routed in
      (
        rw (queued, Loop.dispatch_from)
            (rw (kept, routed', Loop.dispatch_event)
              (pass_over call (λ m'. (e, m')) _
                (Ensures-map _ _ call
                  (λ m' p.
                    discarded_rounds ⦃sub = counter_subscriber_with_data⦄ k (0 + 1) e m'
                      (λ j ev lo hi at.
                        all_gone (fds (events_with_data s)) (suc k) m'.epoll_context p.1 p.2 j ev
                          (omega (arith, lo)) (omega (arith, hi)) at)
                      (omega (arith, fits, p.3)))
                  made))),
        Ensures-map _ (IsCountedOnce id s i) call (λ m' p. p.0) made,
      )
