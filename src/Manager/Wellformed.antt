-- ===== src/Manager/Wellformed.antt =====
-- The invariant of the manager: a routed descriptor belongs to a registered subscriber, and is on
-- that subscriber's watch list.
use event_manager.Prelude.{
  ◌≡◌, refl, ◌∙◌, true, false, Bool, none, some, Ensures, Ensures-map, arith, is_some,
}
use event_manager.Prelude.HashMap
use event_manager.Prelude.HashMap.{contains_key_lem}
use event_manager.Os.{Os, RawFd}
use event_manager.Epoll
use event_manager.Epoll.{SubscriberId, EpollWrapper, Context, subscriber_id, watched}
use event_manager.Epoll.Dispatch.{subscriber_id-remove}
use event_manager.Epoll.Consistent.{IsConsistent, is_owner, remove-unrouted, remove-IsConsistent}
use event_manager.EventOps.{EventOps, Request, perform, ops_unchecked, register, unwatch}
use event_manager.Events
use event_manager.EventOps.Routing.{perform_cases, subscriber_id-register}
use event_manager.EventOps.Consistent.{perform-IsConsistent, subscriber_id-unregister}
use event_manager.Subscribers
use event_manager.Subscribers.{Subscribers}
use event_manager.Subscribers.Identifiers.{get-add, get-remove_lem, get-write_back}
use event_manager.Endpoint.{FnMsg}
use event_manager.Handler.{Handler, Scope, run_handler}
use event_manager.Handler.Rules.{run_handler-Ensures}
use event_manager.Manager.Cases.{
  remove_subscriber_cases, subscriber_mut-Ensures, event_ops_request_cases,
}
use event_manager.Manager.{
  Machine, context, scope, after_handler, remove_subscriber, subscriber_mut, event_ops_request,
  send_message,
}

abbrev pub is_registered : {S : Type 0} → Subscribers S → SubscriberId → Bool
is_registered subs id = is_some (HashMap.get subs.subscribers id)

-- Every routed descriptor belongs to a registered subscriber.
abbrev pub IsLive : {os : Os} {S : Type 0} → Subscribers S → EpollWrapper os → Type 0
IsLive subs w =
    (fd : RawFd) (id : SubscriberId) → subscriber_id w fd ≡ some id → is_registered subs id ≡ true

pub record IsWellformed {os : Os} {S R : Type 0} (m : Machine os S R) : Type 0 where
  pub consistent : IsConsistent os m.epoll_context
  pub live : IsLive m.subscribers m.epoll_context

module _ {os : Os} {S : Type 0} (subs : Subscribers S) where
  register-IsLive :
      (fd : RawFd) (id : SubscriberId) (w : EpollWrapper os)
      → is_registered subs id ≡ true
      → IsLive subs w
      → IsLive subs (register fd id w)
  register-IsLive fd id w registered live j i routed =
      ground (arith, subscriber_id-register fd j id w, live j i)

  unregister-IsLive :
      (fd : RawFd) (id : SubscriberId) (w : EpollWrapper os)
      → IsLive subs w
      → IsLive subs (unwatch fd id (Epoll.remove_event fd w))
  unregister-IsLive fd id w live j i routed =
      ground (arith, subscriber_id-unregister fd id w j, live j i)

  perform-IsLive :
      (r : Request os) (ops : EventOps os)
      → is_registered subs ops.subscriber_id ≡ true
      → IsLive subs ops.wrapper
      → IsLive subs (perform r ops).1.wrapper
  perform-IsLive r ops registered live =
      perform_cases (λ s. IsLive subs s.wrapper) r ops (λ _. live)
        (λ e _ _ _. register-IsLive (Events.fd e) ops.subscriber_id ops.wrapper registered live)
        (λ e _ _. unregister-IsLive (Events.fd e) ops.subscriber_id ops.wrapper live)

pub perform-own :
    {os : Os} (r : Request os) (ops : EventOps os)
    → (perform r ops).1.subscriber_id ≡ ops.subscriber_id
perform-own r ops =
    perform_cases (λ s. s.subscriber_id ≡ ops.subscriber_id) r ops (λ _. refl) (λ _ _ _ _. refl)
      (λ _ _ _. refl)

module _ {os : Os} where
  remove-routes :
      (id : SubscriberId) (c : Context os) (fd : RawFd) (i : SubscriberId)
      → subscriber_id (Epoll.remove id c).wrapper fd ≡ some i
      → subscriber_id c.wrapper fd ≡ some i
  remove-routes id c fd i routed = ground (arith, subscriber_id-remove id c fd)

-- What a handler of a registered subscriber keeps.
record Serves {os : Os} {S : Type 0} (subs : Subscribers S) (id : SubscriberId) (ops : EventOps os)
    : Type 0 where
  own : ops.subscriber_id ≡ id
  consistent : IsConsistent os ops.wrapper
  live : IsLive subs ops.wrapper

module _ {os : Os} {S : Type 0} where
  -- Writing a subscriber back unregisters nobody.
  write_back-IsLive :
      (subs : Subscribers S) (id : SubscriberId) (t : S) (w : EpollWrapper os)
      → IsLive subs w
      → IsLive (Subscribers.write_back id t subs) w
  write_back-IsLive subs id t w live fd i routed =
      ground (arith, get-write_back id t subs i, live fd i)

  pub add-IsLive :
      (subs : Subscribers S) (t : S) (w : EpollWrapper os)
      → IsLive subs w
      → IsLive (Subscribers.add t subs).1 w
  add-IsLive subs t w live fd i routed = ground (arith, get-add t subs i, live fd i)

module _ {os : Os} {S R : Type 0} where
  run_handler-Serves :
      {A : Type 0} (h : Handler os S R A) (subs : Subscribers S) (id : SubscriberId)
      (self : Scope os S R)
      → is_registered subs id ≡ true
      → Serves subs id self.ops
      → Ensures (λ left. Serves subs id left.1.ops) (run_handler h self)
  run_handler-Serves h subs id self registered serves =
      run_handler-Ensures (Serves subs id)
        (λ r ops p. record {
          own = perform-own r ops ∙ p.own;
          consistent = perform-IsConsistent r ops p.consistent;
          live = perform-IsLive subs r ops (rw (p.own) registered) p.live;
        })
        (λ ops world p. record { own = p.own; consistent = p.consistent; live = p.live }) h self
        serves

  -- A handler run for a registered subscriber keeps the manager well-formed.
  pub handled-IsWellformed :
      (h : Handler os S R S) (m : Machine os S R) (id : SubscriberId)
      → is_registered m.subscribers id ≡ true
      → IsWellformed m
      → Ensures (λ left. IsWellformed (after_handler m id left)) (run_handler h (scope m id))
  unfolding ops_unchecked
  handled-IsWellformed h m id registered wf =
      Ensures-map _ _ (run_handler h (scope m id))
        (λ left p. record {
          consistent = p.consistent;
          live = write_back-IsLive m.subscribers id left.0 left.1.wrapper p.live;
        })
        (run_handler-Serves h m.subscribers id (scope m id) registered
          (record { own = refl; consistent = wf.consistent; live = wf.live }))

  removed-IsLive :
      (id : SubscriberId) (m : Machine os S R) (w : EpollWrapper os)
      → IsLive m.subscribers m.epoll_context
      → ((fd : RawFd)
          → (is_owner (subscriber_id w fd) id ≡ false)
            × ((i : SubscriberId)
                → subscriber_id w fd ≡ some i
                → subscriber_id m.epoll_context fd ≡ some i))
      → IsLive (Subscribers.remove id m.subscribers).1 w
  removed-IsLive id m w live routes fd i routed =
      ground
        (arith, get-remove_lem id m.subscribers i, live fd i, (routes fd).0, (routes fd).1 i routed)

  unrouted_of_unregistered :
      (id : SubscriberId) (m : Machine os S R)
      → HashMap.get m.subscribers.subscribers id ≡ none
      → IsLive m.subscribers m.epoll_context
      → (fd : RawFd) → is_owner (subscriber_id m.epoll_context fd) id ≡ false
  unrouted_of_unregistered id m missing live fd = ground (arith, live fd id)

  -- Removing a subscriber, registered or not, keeps the manager well-formed.
  pub remove_subscriber-IsWellformed :
      (id : SubscriberId) (m : Machine os S R)
      → IsWellformed m
      → IsWellformed (remove_subscriber id m).1
  remove_subscriber-IsWellformed id m wf =
      remove_subscriber_cases id m (λ left. IsWellformed left.1)
        (λ missing. record {
          consistent = wf.consistent;
          live =
              removed-IsLive id m m.epoll_context wf.live
                (λ fd. (unrouted_of_unregistered id m missing wf.live fd, λ i e. e));
        })
        (λ t found. record {
          consistent = remove-IsConsistent id (context m) wf.consistent;
          live = removed-IsLive id m _ wf.live (λ fd.
              (remove-unrouted id (context m) wf.consistent fd, remove-routes id (context m) fd));
        })

  pub event_ops_request-IsWellformed :
      (id : SubscriberId) (r : Request os) (m : Machine os S R)
      → IsWellformed m
      → IsWellformed (event_ops_request id r m).1
  unfolding ops_unchecked
  event_ops_request-IsWellformed id r m wf =
      event_ops_request_cases id m (λ left. IsWellformed left.1) r (λ _. wf)
        (λ t found. record {
          consistent = perform-IsConsistent r (ops_unchecked (context m) id) wf.consistent;
          live = perform-IsLive m.subscribers r (ops_unchecked (context m) id) (rw found) wf.live;
        })

  pub subscriber_mut-IsWellformed :
      (id : SubscriberId) (change : S → S) (m : Machine os S R)
      → IsWellformed m
      → Ensures (λ left. IsWellformed left.1) (subscriber_mut id change m)
  subscriber_mut-IsWellformed id change m wf =
      subscriber_mut-Ensures id m IsWellformed change wf (λ t found. record {
        consistent = wf.consistent;
        live = write_back-IsLive m.subscribers id (change t) m.epoll_context wf.live;
      })

  pub send_message-IsWellformed :
      (msg : FnMsg os S R) (m : Machine os S R)
      → IsWellformed m
      → IsWellformed (send_message msg m).1
  unfolding send_message
  send_message-IsWellformed msg m wf = record { consistent = wf.consistent; live = wf.live }
