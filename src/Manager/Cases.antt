-- ===== src/Manager/Cases.antt =====
-- What the operations of `SubscriberOps` answer and leave, case by case.
use event_manager.Prelude.{
  ◌≡◌, none, some, Result, ok, err, Ensures, Returns, Returns-Ensures, Option-cases, inl, inr,
}
use event_manager.Prelude.HashMap
use event_manager.Os.{Os}
use event_manager.Error.{Error, invalid_id}
use event_manager.Epoll
use event_manager.Epoll.{SubscriberId}
use event_manager.EventOps.{Request, perform, ops_unchecked}
use event_manager.Subscribers
use event_manager.Manager.{
  Machine, context, with_context, with_subscribers, remove_subscriber, subscriber_mut,
  event_ops_request,
}

module _ {os : Os} {S R : Type 0} (id : SubscriberId) (m : Machine os S R) where
  pub remove_subscriber_cases :
      (P : Result S (Error os) × Machine os S R → Type 0)
      → (HashMap.get m.subscribers.subscribers id ≡ none
          → P (err invalid_id, with_subscribers m (Subscribers.remove id m.subscribers).1))
      → ((t : S)
          → HashMap.get m.subscribers.subscribers id ≡ some t
          → P (
            ok t,
            with_context
                (with_subscribers m (Subscribers.remove id m.subscribers).1)
                (Epoll.remove id (context m)),
          ))
      → P (remove_subscriber id m)
  unfolding remove_subscriber Subscribers.remove
  remove_subscriber_cases P unknown known =
      elim (Option-cases (HashMap.get m.subscribers.subscribers id)) [
        | inl missing ↦ rw (missing, remove_subscriber) (unknown missing)
        | inr (t, found) ↦ rw (found, remove_subscriber) (known t found)
      ]

  pub subscriber_mut_cases :
      (P : Result S (Error os) × Machine os S R → Type 0) (change : S → S)
      → (HashMap.get m.subscribers.subscribers id ≡ none → P (err invalid_id, m))
      → ((t : S)
          → HashMap.get m.subscribers.subscribers id ≡ some t
          → P (ok t, with_subscribers m (Subscribers.write_back id (change t) m.subscribers)))
      → Returns P (subscriber_mut id change m)
  unfolding subscriber_mut Subscribers.contains HashMap.contains_key Subscribers.get_mut_unchecked
  subscriber_mut_cases P change unknown known =
      elim (Option-cases (HashMap.get m.subscribers.subscribers id)) [
        | inl missing ↦ rw (missing, subscriber_mut) (unknown missing)
        | inr (t, found) ↦ rw (found, subscriber_mut) (known t found)
      ]

  pub event_ops_request_cases :
      (P : Result (Unit {0}) (Error os) × Machine os S R → Type 0) (r : Request os)
      → (HashMap.get m.subscribers.subscribers id ≡ none → P (err invalid_id, m))
      → ((t : S)
          → HashMap.get m.subscribers.subscribers id ≡ some t
          → P (
            (perform r (ops_unchecked (context m) id)).0,
            with_context m (perform r (ops_unchecked (context m) id)).1.context,
          ))
      → P (event_ops_request id r m)
  unfolding event_ops_request Subscribers.contains HashMap.contains_key
  event_ops_request_cases P r unknown known =
      elim (Option-cases (HashMap.get m.subscribers.subscribers id)) [
        | inl missing ↦ rw (missing, event_ops_request) (unknown missing)
        | inr (t, found) ↦ rw (found, event_ops_request) (known t found)
      ]

  -- The same for what holds of the manager that is left.
  pub subscriber_mut-Ensures :
      (Inv : Machine os S R → Type 0) (change : S → S)
      → Inv m
      → ((t : S)
          → HashMap.get m.subscribers.subscribers id ≡ some t
          → Inv (with_subscribers m (Subscribers.write_back id (change t) m.subscribers)))
      → Ensures (λ left. Inv left.1) (subscriber_mut id change m)
  subscriber_mut-Ensures Inv change unknown known =
      Returns-Ensures _ (subscriber_mut id change m)
        (subscriber_mut_cases (λ left. Inv left.1) change (λ _. unknown) known)
