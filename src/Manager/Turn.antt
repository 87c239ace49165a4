-- ===== src/Manager/Turn.antt =====
-- `dispatch_events` as a whole: its loop, and the remote requests after it.
use event_manager.Prelude.{
  ℕ, ◌<◌, ◌≡◌, sym, ap, ◌∙◌, subst, Ensures-map, Option, none, some, List, [], ◌∷◌, ◌++◌, Result,
  Ensures, Ensures-and, Returns, Returns-and, Returns-map, Returns-value, Returns-Ensures, arith,
  inl, inr, Bool-cases, ◌==◌, length, true,
}
use event_manager.Os.{Os}
use event_manager.Error.{Error}
use event_manager.Epoll.{SubscriberId}
use event_manager.Events.{Events, with_inner}
use event_manager.Endpoint.{FnMsg, EventManagerChannel, send_msg}
use event_manager.Handler.{Handler, MutEventSubscriber, Scope, run_handler}
use event_manager.Handler.Rules.{Calm}
use event_manager.Manager.{Machine, scope}
use event_manager.Manager.Loop
use event_manager.Manager.Rules.{dispatch_from-Ensures, dispatch_events-Ensures}
use event_manager.Manager.Remote.{messages-reply_to}
use event_manager.Manager.Wellformed.{IsWellformed}
use event_manager.Manager.Kept.{dispatch_events-IsWellformed}
use event_manager.Manager.Safe.{AllCalm, IsReady, IsInput, dispatch_from-IsReady}
use event_manager.Manager.Total.{
  IsPlain, AllPlain, AllQuiet, run_closure-IsPlain, Drained, handle_endpoint_calls-Returns,
}

-- A handler that does not panic, and sends only requests that neither panic nor send.
abbrev pub IsTame : {os : Os} {S R A : Type 0} → Handler os S R A → Type 0
IsTame (Handler.done a) = Unit
IsTame Handler.panics = ⊥
IsTame {os} (Handler.request r k) = (x : Result (Unit {0}) (Error os)) → IsTame (k x)
IsTame {os} (Handler.send f reply k) =
    IsPlain f × ((x : Result (Unit {0}) (Error os)) → IsTame (k x))
IsTame {os} (Handler.effect change k) = (w : os.World) → IsTame (k w)

abbrev pub AllTame : {os : Os} {S R : Type 0} → MutEventSubscriber os S R S → Type 0
AllTame {os} {S} sub = (t : S) (e : Events os) → IsTame (sub.process t e)

module _ {os : Os} {S R : Type 0} where
  pub IsTame-Calm : {A : Type 0} (h : Handler os S R A) → IsTame h → Calm h
  IsTame-Calm (Handler.done a) tame = tt
  IsTame-Calm Handler.panics tame = tame
  IsTame-Calm (Handler.request r k) tame = λ x. IsTame-Calm (k x) (tame x)
  IsTame-Calm (Handler.send f reply k) tame = λ x. IsTame-Calm (k x) (tame.1 x)
  IsTame-Calm (Handler.effect change k) tame = λ w. IsTame-Calm (k w) (tame w)

  pub AllPlain-after :
      (l : List (FnMsg os S R)) (msg : FnMsg os S R) (rest : List (FnMsg os S R))
      → AllPlain (l ++ msg ∷ rest)
      → AllPlain rest
  AllPlain-after [] msg rest plain = plain.1
  AllPlain-after (x ∷ l) msg rest plain = AllPlain-after l msg rest plain.1

  AllPlain-append :
      (l : List (FnMsg os S R)) (msg : FnMsg os S R)
      → AllPlain l
      → IsPlain msg.fnbox
      → AllPlain (l ++ msg ∷ [])
  AllPlain-append [] msg all plain = (plain, tt)
  AllPlain-append (x ∷ l) msg all plain = (all.0, AllPlain-append l msg all.1 plain)

  pub send_msg-AllPlain :
      (msg : FnMsg os S R) (c : EventManagerChannel os S R) (world : os.World)
      → AllPlain c.messages
      → IsPlain msg.fnbox
      → AllPlain (send_msg msg c world).1.messages
  unfolding send_msg
  send_msg-AllPlain msg c world all plain = elim (Bool-cases c.receiver_alive) [
    | inl alive ↦ rw alive (AllPlain-append c.messages msg all plain)
    | inr dropped ↦ rw dropped all
  ]

  run_handler-AllPlain :
      {A : Type 0} (h : Handler os S R A) (self : Scope os S R)
      → IsTame h
      → AllPlain self.channel.messages
      → Ensures (λ left. AllPlain left.1.channel.messages) (run_handler h self)
  unfolding run_handler
  run_handler-AllPlain (Handler.done a) self tame all = all
  run_handler-AllPlain Handler.panics self tame all = tt
  run_handler-AllPlain (Handler.request r k) self tame all =
      run_handler-AllPlain (k _) _ (tame _) all
  run_handler-AllPlain (Handler.send f reply k) self tame all =
      run_handler-AllPlain (k _) _ (tame.1 _)
        (send_msg-AllPlain _ self.channel self.world all tame.0)
  run_handler-AllPlain (Handler.effect change k) self tame all =
      run_handler-AllPlain (k _) _ (tame _) all

module _ {os : Os} {S R : Type 0} ⦃sub : MutEventSubscriber os S R S⦄ (tame : AllTame sub) where
  processed-AllPlain :
      (t : S) (event : os.EpollEvent) (id : SubscriberId) (m : Machine os S R)
      → AllPlain m.channel.messages
      → Ensures
          (λ left. AllPlain left.1.channel.messages)
          (run_handler (sub.process t (with_inner event)) (scope m id))
  processed-AllPlain t event id m =
      run_handler-AllPlain (sub.process t (with_inner event)) (scope m id)
        (tame t (with_inner event))

  pub dispatch_from-AllPlain :
      (rounds ev_index : ℕ) (endpoint_event : Option os.EpollEvent) (m : Machine os S R)
      → AllPlain m.channel.messages
      → Ensures
          (λ left. AllPlain left.1.channel.messages)
          (Loop.dispatch_from rounds ev_index endpoint_event m)
  dispatch_from-AllPlain =
      dispatch_from-Ensures (λ m. AllPlain m.channel.messages)
        (λ t event id m _. processed-AllPlain t event id m)

  -- The queued requests are still plain when `dispatch_events` returns.
  pub dispatch_events-AllPlain :
      (quiet : AllQuiet sub) (fuel event_count : ℕ) (m : Machine os S R)
      → AllPlain m.channel.messages
      → Ensures (λ m'. AllPlain m'.channel.messages) (Loop.dispatch_events fuel event_count m)
  dispatch_events-AllPlain quiet =
      dispatch_events-Ensures (λ m. AllPlain m.channel.messages)
        (λ t event id m _. processed-AllPlain t event id m)
        (λ msg rest m queued all.
          let plain = subst AllPlain queued all in
          Ensures-map (λ left. left.1.channel ≡ record (m.channel) { messages = rest }) _
            (Loop.run_closure msg.fnbox _)
            (λ left p.
              subst AllPlain
                (sym (messages-reply_to msg.sender left.0 left.1.channel ∙ ap (λ c. c.messages) p))
                plain.1)
            (Returns-Ensures _ (Loop.run_closure msg.fnbox _)
              (run_closure-IsPlain quiet msg.fnbox _ plain.0)))
        (λ m all. all)

  -- Once the loop has found its endpoint event, fuel for the queued requests is enough.
  endpoint_event-Returns :
      (quiet : AllQuiet sub) (fuel : ℕ) (endpoint_event : Option os.EpollEvent) (m : Machine os S R)
      → IsInput os endpoint_event
      → AllPlain m.channel.messages
      → length m.channel.messages < fuel
      → Returns (λ _. Unit) (Loop.dispatch_endpoint_event fuel endpoint_event m)
  unfolding Loop.dispatch_endpoint_event
  endpoint_event-Returns quiet fuel none m input all enough = tt
  endpoint_event-Returns quiet fuel (some event) m input all enough =
      let is_input : (os.event_set event == os.set_in) ≡ true = ground arith in
      rw (is_input, Loop.dispatch_endpoint_event)
        (Returns-map (Drained m.channel.messages m) _ (Loop.handle_endpoint_calls fuel m)
          (λ _ _. tt) (handle_endpoint_calls-Returns quiet fuel m all enough))

  -- If the first events of the buffer can be routed, every handler returns and sends only requests
  -- that return, and every `init` is quiet, then there is a bound such that with at least that much
  -- fuel `dispatch_events` returns, and the manager is well-formed.
  pub dispatch_events-Returns :
      (quiet : AllQuiet sub) (count : ℕ) (m : Machine os S R)
      → IsReady count m
      → AllPlain m.channel.messages
      → (bound : ℕ) × ((fuel : ℕ)
          → bound < fuel
          → Returns IsWellformed (Loop.dispatch_events fuel count m))
  dispatch_events-Returns quiet count m ready all =
      let found = Loop.dispatch_from count 0 none m in
      let looped = dispatch_from-IsReady calm count count 0 none m (omega arith) tt ready in
      let (left, is_left, p) = Returns-value _ found (
        Returns-and _ found (Returns-map _ _ found (λ _ _. tt) looped) (
          Ensures-and (λ left. IsInput os left.0 × IsReady count left.1)
            (λ left. AllPlain left.1.channel.messages) found (Returns-Ensures _ found looped)
            (dispatch_from-AllPlain count 0 none m all))) in
      (
        length left.1.channel.messages,
        λ fuel enough.
            Returns-and IsWellformed (Loop.dispatch_events fuel count m)
              (unfold Loop.dispatch_events in
                rw is_left (endpoint_event-Returns quiet fuel left.0 left.1 p.0.0 p.1 enough))
              (dispatch_events-IsWellformed fuel count m ready.wf),
      )
    where
      calm : AllCalm sub
      calm = λ t e. IsTame-Calm (sub.process t e) (tame t e)
