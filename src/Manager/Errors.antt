-- ===== src/Manager/Errors.antt =====
-- The errors of `SubscriberOps` and of the wait, and what they leave.
use event_manager.Prelude.{
  Bool, false, if◌then◌else◌, ◌==◌, Bool-cases, ℕ, ◌≡◌, ◌≢◌, refl, ◌⊎◌, inl, inr, none, some, ok,
  err, returned, Returns, Option-cases,
}
use event_manager.Prelude.HashMap
use event_manager.Prelude.HashMap.{remove_missing}
use event_manager.Os.{Os, IoError, raw_os_error}
use event_manager.Error.{Error, invalid_id}
use event_manager.Epoll.{SubscriberId, poll_result}
use event_manager.EventOps.{Request, ops_unchecked}
use event_manager.Subscribers
use event_manager.Epoll
use event_manager.Handler.{MutEventSubscriber}
use event_manager.Manager.Loop
use event_manager.EventOps.Errors.{perform-valid}
use event_manager.Manager.{
  Machine, context, with_context, remove_subscriber, subscriber_mut, event_ops, event_ops_request,
}

module _ {os : Os} {S R : Type 0} where
  -- The calls with an identifier that nobody has.
  pub record AllInvalid (id : SubscriberId) (change : S → S) (r : Request os) (m : Machine os S R)
      : Type 0 where
    pub removed : remove_subscriber id m ≡ (err invalid_id, m)
    pub changed : subscriber_mut id change m ≡ returned (err invalid_id, m)
    pub no_ops : event_ops id m ≡ err invalid_id
    pub requested : event_ops_request id r m ≡ (err invalid_id, m)

  -- The calls with the identifier of a subscriber.
  pub record AllValid (id : SubscriberId) (t : S) (change : S → S) (r : Request os)
      (m : Machine os S R) : Type 0 where
    pub removed : (remove_subscriber id m).0 ≡ ok t
    pub changed : Returns (λ left. left.0 ≡ ok t) (subscriber_mut id change m)
    pub gives_ops : event_ops id m ≡ ok (ops_unchecked (context m) id)
    pub requested : (event_ops_request id r m).0 ≢ err invalid_id

  unregistered-AllInvalid :
      (id : SubscriberId) (change : S → S) (r : Request os) (m : Machine os S R)
      → HashMap.get m.subscribers.subscribers id ≡ none
      → AllInvalid id change r m
  unfolding remove_subscriber Subscribers.remove subscriber_mut event_ops event_ops_request
      Subscribers.contains HashMap.contains_key
  unregistered-AllInvalid id change r m missing = record {
    removed = rw (missing, remove_subscriber, remove_missing m.subscribers.subscribers id missing);
    changed = rw (missing, subscriber_mut);
    no_ops = rw (missing, event_ops);
    requested = rw (missing, event_ops_request);
  }

  registered-AllValid :
      (id : SubscriberId) (t : S) (change : S → S) (r : Request os) (m : Machine os S R)
      → HashMap.get m.subscribers.subscribers id ≡ some t
      → AllValid id t change r m
  unfolding remove_subscriber Subscribers.remove subscriber_mut event_ops event_ops_request
      Subscribers.contains HashMap.contains_key Subscribers.get_mut_unchecked
  registered-AllValid id t change r m found = record {
    removed = rw (found, remove_subscriber);
    changed = rw (found, subscriber_mut) refl;
    gives_ops = rw (found, event_ops);
    requested = rw (found, event_ops_request) (perform-valid r (ops_unchecked (context m) id));
  }

  -- With an identifier that no subscriber has, `remove_subscriber`, `subscriber_mut` and `event_ops`
  -- return `InvalidId` and leave everything as it was; with the identifier of a subscriber they
  -- return that subscriber or an `EventOps` for it, and no request on that `EventOps` returns
  -- `InvalidId`.
  pub invalid_id_cases :
      (id : SubscriberId) (change : S → S) (r : Request os) (m : Machine os S R)
      → ((HashMap.get m.subscribers.subscribers id ≡ none) × AllInvalid id change r m)
        ⊎ ((t : S) × (HashMap.get m.subscribers.subscribers id ≡ some t) × AllValid id t change r m)
  invalid_id_cases id change r m = elim (Option-cases (HashMap.get m.subscribers.subscribers id)) [
    | inl missing ↦ inl (missing, unregistered-AllInvalid id change r m missing)
    | inr (t, found) ↦ inr (t, found, registered-AllValid id t change r m found)
  ]

-- The error of a system call that a signal has interrupted.
abbrev pub is_interrupted : (os : Os) → IoError → Bool
is_interrupted os e = elim (raw_os_error e) [ none ↦ false | some n ↦ n == os.eintr ]

module _ {os : Os} {S R : Type 0} where
  -- The manager with the buffer and the world that the wait leaves.
  abbrev pub waited : ℕ → Machine os S R → Machine os S R
  waited ms m =
      let (_, buffer, world) =
        os.epoll_wait m.epoll_context.epoll ms m.epoll_context.ready_events m.world in
      with_context m
        (record { wrapper = record (m.epoll_context) { ready_events = buffer }; world = world })

  poll-wait_err :
      (ms : ℕ) (m : Machine os S R) (e : IoError)
      → (os.epoll_wait m.epoll_context.epoll ms m.epoll_context.ready_events m.world).0 ≡ err e
      → (Epoll.poll ms (context m)).0
        ≡ (if is_interrupted os e then ok 0 else err (Error.epoll (os.errno_from e)))
  unfolding Epoll.poll poll_result
  poll-wait_err ms m e failed = elim (Option-cases (raw_os_error e)) [
    | inl custom ↦ rw failed (rw (custom, poll_result, is_interrupted))
    | inr (n, raw) ↦ rw failed (rw (raw, poll_result, is_interrupted))
  ]

module _ {os : Os} {S R : Type 0} ⦃sub : MutEventSubscriber os S R S⦄ where
  -- Where the wait fails, `run_with_timeout` returns without calling a subscriber or a remote closure:
  -- with no event where a signal has interrupted the wait, and else with its error. It leaves the
  -- manager as it was, with the buffer that the wait has left.
  pub run_with_timeout-wait_err :
      (fuel ms : ℕ) (m : Machine os S R) (e : IoError)
      → (os.epoll_wait m.epoll_context.epoll ms m.epoll_context.ready_events m.world).0 ≡ err e
      → Loop.run_with_timeout fuel ms m
        ≡ returned (
          (if is_interrupted os e then ok 0 else err (Error.epoll (os.errno_from e))),
          waited ms m,
        )
  unfolding Loop.run_with_timeout Loop.dispatch_events Loop.dispatch_from
      Loop.dispatch_endpoint_event Epoll.poll
  run_with_timeout-wait_err fuel ms m e failed = elim (Bool-cases (is_interrupted os e)) [
    | inl interrupted ↦ rw (poll-wait_err ms m e failed, interrupted, Loop.run_with_timeout)
    | inr other ↦ rw (poll-wait_err ms m e failed, other, Loop.run_with_timeout)
  ]
