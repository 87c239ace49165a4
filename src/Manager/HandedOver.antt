-- ===== src/Manager/HandedOver.antt =====
-- The round of the dispatch loop in which an event is handed to its subscriber.
use event_manager.Prelude.{
  ℕ, zero, suc, ◌+◌, ◌≡◌, refl, sym, ap, ◌∙◌, false, Option, none, some, returned, ◌>>=◌,
  >>=-eq-returned, >>=-assoc, Ensures, Ensures-returned, Returns-returned, Returns-value, Returns,
  arith, subst, get_elem?, Option-cases, inl, inr, fun_ext,
}
use event_manager.Prelude.HashMap
use event_manager.Os.{Os}
use event_manager.Epoll.{SubscriberId, subscriber_id}
use event_manager.Epoll.Buffer.{is_discarded}
use event_manager.Events.{with_inner}
use event_manager.EventOps.{ops_unchecked}
use event_manager.Handler.{MutEventSubscriber}
use event_manager.Manager.{Machine, scope}
use event_manager.Manager.Loop
use event_manager.Manager.Rules.{dispatch_from-Ensures}
use event_manager.Manager.Wellformed.{IsWellformed}
use event_manager.Manager.Safe.{AllCalm, IsReady, registered_get, dispatch_from-IsReady}
use event_manager.Manager.Delivered.{IsProcessed, dispatch_event-IsProcessed}
use event_manager.Manager.Awaited.{AllSpare, Waits, run_handler-Waits}

module _ {os : Os} {S R : Type 0} ⦃sub : MutEventSubscriber os S R S⦄ where
  -- The rounds up to one, and the rounds from there on.
  pub dispatch_from-split :
      (i k total j : ℕ) (e : Option os.EpollEvent) (m : Machine os S R)
      → total ≡ i + k
      → Loop.dispatch_from total j e m
        ≡ (Loop.dispatch_from i j e m >>= (λ left. Loop.dispatch_from k (j + i) left.0 left.1))
  unfolding Loop.dispatch_from
  dispatch_from-split zero k total j e m is =
      let same : total ≡ k = omega arith in
      let start : j ≡ j + 0 = omega arith in
      subst (λ n. Loop.dispatch_from total j e m ≡ Loop.dispatch_from n (j + 0) e m) same
        (ap (λ n. Loop.dispatch_from total n e m) start)
  dispatch_from-split (suc i) k zero j e m is = absurd (omega arith)
  dispatch_from-split (suc i) k (suc total) j e m is =
      elim (Option-cases (get_elem? m.epoll_context.ready_events j)) [
        | inl missing ↦ rw (missing, Loop.dispatch_from)
        | inr (event, found) ↦
            let start : (j + 1) + i ≡ j + suc i = omega arith in
            rw (found, Loop.dispatch_from)
              (ap (λ f. Loop.dispatch_event event e m >>= f)
                  (fun_ext (λ left.
                    dispatch_from-split i k total (j + 1) left.0 left.1 (omega arith)
                    ∙ ap
                        (λ n.
                          Loop.dispatch_from i (j + 1) left.0 left.1
                          >>= (λ l. Loop.dispatch_from k n l.0 l.1))
                        start))
                ∙ sym (>>=-assoc (Loop.dispatch_event event e m) _ _))
      ]

  -- An event waits in its place of the buffer while others are dispatched.
  pub dispatch_from-Waits :
      (i : ℕ) (ev : os.EpollEvent) (route : Option SubscriberId) (rounds : ℕ) (m : Machine os S R)
      → AllSpare route (os.event_fd ev) sub
      → Waits i ev route m.epoll_context
      → Ensures (λ left. Waits i ev route left.1.epoll_context) (Loop.dispatch_from rounds 0 none m)
  unfolding ops_unchecked
  dispatch_from-Waits i ev route rounds m spare =
      dispatch_from-Ensures (λ m'. Waits i ev route m'.epoll_context)
        (λ t event own m' _.
          run_handler-Waits i ev route (sub.process t (with_inner event)) (scope m' own)
            (spare t (with_inner event)))
        rounds 0 none m

-- The dispatch of an event in its round: the rounds before it, what it does, and the rounds after it.
pub record IsHandedOver {os : Os} {S R : Type 0} ⦃sub : MutEventSubscriber os S R S⦄ (i k : ℕ)
    (ev : os.EpollEvent) (id : SubscriberId) (m : Machine os S R)
    (left : Option os.EpollEvent × Machine os S R) : Type 0 where
  pub before : Option os.EpollEvent × Machine os S R
  pub ran : Loop.dispatch_from i 0 none m ≡ returned before
  pub subscriber : S
  pub stored : HashMap.get before.1.subscribers.subscribers id ≡ some subscriber
  pub after : Option os.EpollEvent × Machine os S R
  pub handled : Loop.dispatch_event ev before.0 before.1 ≡ returned after
  pub processed : IsProcessed id subscriber ev before.1 after.1.subscribers
  pub rest : Loop.dispatch_from k (i + 1) after.0 after.1 ≡ returned left

module _ {os : Os} {S R : Type 0} ⦃sub : MutEventSubscriber os S R S⦄ (calm : AllCalm sub) where
  -- What its round does, once it is reached.
  handed_over :
      (i k : ℕ) (ev : os.EpollEvent) (id : SubscriberId) (m : Machine os S R)
      (before left : Option os.EpollEvent × Machine os S R)
      → Loop.dispatch_from i 0 none m ≡ returned before
      → is_discarded os ev ≡ false
      → Waits i ev (some id) before.1.epoll_context
      → IsWellformed before.1
      → Loop.dispatch_from (suc k) i before.0 before.1 ≡ returned left
      → IsHandedOver i k ev id m left
  unfolding Loop.dispatch_from
  handed_over i k ev id m before left ran kept waits wf later =
      let (t, stored) =
        registered_get (HashMap.get before.1.subscribers.subscribers id)
          (wf.live (os.event_fd ev) id waits.routed) in
      let (after, handled, rest) =
        >>=-eq-returned (Loop.dispatch_event ev before.0 before.1) _
          (rw (waits.queued, Loop.dispatch_from) at later) in
      let p = Returns-returned _ (Loop.dispatch_event ev before.0 before.1) handled (
        dispatch_event-IsProcessed ev before.0 before.1 id t kept waits.routed stored
          (calm t (with_inner ev))) in
      record {
        before = before;
        ran = ran;
        subscriber = t;
        stored = stored;
        after = after;
        handled = handled;
        processed = p.1;
        rest = rest;
      }

  -- Take a buffer whose first events can be routed or have been discarded, subscribers that do not
  -- panic, and one of these events that is not discarded and is routed to a subscriber, and whose
  -- descriptor no subscriber removes. Then the loop over these events returns, and in its round the
  -- event is dispatched to that subscriber, which is stored as `process` leaves it, whatever is done
  -- for the events before it.
  pub dispatch_from-IsHandedOver :
      (i k : ℕ) (ev : os.EpollEvent) (id : SubscriberId) (m : Machine os S R)
      → AllSpare (some id) (os.event_fd ev) sub
      → IsReady (i + suc k) m
      → is_discarded os ev ≡ false
      → get_elem? m.epoll_context.ready_events i ≡ some ev
      → subscriber_id m.epoll_context (os.event_fd ev) ≡ some id
      → Returns (IsHandedOver i k ev id m) (Loop.dispatch_from (i + suc k) 0 none m)
  dispatch_from-IsHandedOver i k ev id m spare ready kept queued routed =
      let whole = Loop.dispatch_from (i + suc k) 0 none m in
      let (left, is_left, _) =
        Returns-value _ whole
          (dispatch_from-IsReady calm (i + suc k) (i + suc k) 0 none m (omega arith) tt ready) in
      let (before, ran, later) =
        >>=-eq-returned (Loop.dispatch_from i 0 none m) _
          (sym (dispatch_from-split i (suc k) (i + suc k) 0 none m refl) ∙ is_left) in
      let start : 0 + i ≡ i = omega arith in
      let still_ready =
        Returns-returned _ (Loop.dispatch_from i 0 none m) ran
          (dispatch_from-IsReady calm (i + suc k) i 0 none m (omega arith) tt ready) in
      let waits = Ensures-returned _ (Loop.dispatch_from i 0 none m) ran (
        dispatch_from-Waits i ev (some id) i m spare
          (record { queued = queued; routed = routed })) in
      subst (Returns (IsHandedOver i k ev id m)) (sym is_left) (
        handed_over i k ev id m before left ran kept waits still_ready.1.wf
          (subst (λ n. Loop.dispatch_from (suc k) n before.0 before.1 ≡ returned left) start later))
