-- ===== src/Manager/Polled.antt =====
-- The wait of a turn of the event loop, on top of an epoll that behaves as documented: its events can
-- be dispatched.
use event_manager.Prelude.{
  ok_unique, refl, ℕ, ◌≡◌, ◌∙◌, sym, some, ok, err, arith, inl, inr, Option-cases, Bool-cases,
  Result-cases, get_elem?, ◌==◌, ap, ◌%◌, ◌^◌, subst, ◌⊎◌,
}
use event_manager.Os.{Os, RawFd, IoError, raw_os_error}
use event_manager.Error.{Error}
use event_manager.Epoll
use event_manager.Epoll.{SubscriberId, EpollWrapper, subscriber_id, watched, poll_result}
use event_manager.Epoll.Buffer.{IsDeliverable, AllDeliverable}
use event_manager.Kernel.{Kernel, IsRouted}
use event_manager.Kernel.Synced.{fewer-InSync}
use event_manager.Manager.{Machine, context, with_context}
use event_manager.Manager.Wellformed.{IsWellformed}
use event_manager.Manager.Safe.{IsReady}
use event_manager.Manager.Total.{AllPlain}
use event_manager.Manager.Synced.{IsInStep}

-- What holds between two turns of the event loop.
pub record IsRunnable {os : Os} {S R : Type 0} (kernel : Kernel os) (ep : os.Epoll)
    (channel_fd : RawFd) (m : Machine os S R) : Type 0 where
  pub wf : IsWellformed m
  pub in_step : IsInStep kernel ep channel_fd m
  pub plain : AllPlain m.channel.messages

-- Where the wait reports the channel's descriptor, it reports input and nothing else.
abbrev pub ReportsInput : {os : Os} {S R : Type 0} → ℕ → RawFd → Machine os S R → Type 0
ReportsInput {os} ms channel_fd m =
    (i : ℕ) (ev : os.EpollEvent)
    → get_elem? (os.epoll_wait m.epoll_context.epoll ms m.epoll_context.ready_events m.world).1 i
      ≡ some ev
    → os.event_fd ev ≡ channel_fd
    → os.event_set ev ≡ os.set_in

module _ {os : Os} where
  poll_result_err :
      (e : IoError)
      → (poll_result {os = os} (err e) ≡ ok 0)
        ⊎ ((x : Error os) × (poll_result {os = os} (err e) ≡ err x))
  unfolding poll_result
  poll_result_err e = elim (Option-cases (raw_os_error e)) [
    | inl custom ↦ inr (Error.epoll (os.errno_from e), rw (custom, poll_result))
    | inr (n, raw) ↦ elim (Bool-cases (n == os.eintr)) [
      | inl interrupted ↦ inl (rw (raw, poll_result, interrupted))
      | inr other ↦ inr (Error.epoll (os.errno_from e), rw (raw, poll_result, other))
    ]
  ]

module _ {os : Os} {S R : Type 0} where
  -- The poll passes on what a wait that returns has counted.
  pub poll-wait :
      (ms n : ℕ) (m : Machine os S R)
      → (os.epoll_wait m.epoll_context.epoll ms m.epoll_context.ready_events m.world).0 ≡ ok n
      → (Epoll.poll ms (context m)).0 ≡ ok n
  unfolding Epoll.poll poll_result
  poll-wait ms n m waited = rw waited refl

module _ {os : Os} (kernel : Kernel os) (channel_fd : RawFd) where
  reported-IsDeliverable :
      (w : EpollWrapper os) (fd : RawFd) (ev registered : os.EpollEvent)
      → os.event_data ev ≡ os.event_data registered
      → (os.event_fd registered ≡ fd) × IsRouted channel_fd w fd
      → (os.event_fd ev ≡ channel_fd → os.event_set ev ≡ os.set_in)
      → IsDeliverable os w channel_fd ev
  reported-IsDeliverable w fd ev registered same (own, route) input =
      let is_fd : os.event_fd ev ≡ fd =
        kernel.event_laws.fd_of_data ev
        ∙ ap (λ d. d % 2 ^ 32) same
        ∙ sym (kernel.event_laws.fd_of_data registered)
        ∙ own in
      elim route [
        | inl (id, e) ↦ inr (inl (id, ap (subscriber_id w) is_fd ∙ e))
        | inr channel ↦ inr (inr (is_fd ∙ channel, input (is_fd ∙ channel)))
      ]

module _ {os : Os} {S R : Type 0} (kernel : Kernel os) (ep : os.Epoll) (channel_fd : RawFd) where
  -- The manager when the wait has filled its buffer.
  abbrev pub polled : ℕ → Machine os S R → Machine os S R
  polled ms m = with_context m (Epoll.poll ms (context m)).1

  pub polled-IsInStep :
      (ms : ℕ) (m : Machine os S R)
      → IsInStep kernel ep channel_fd m
      → IsInStep kernel ep channel_fd (polled ms m)
  unfolding Epoll.poll subscriber_id
  polled-IsInStep ms m step = record {
    same_epoll = step.same_epoll;
    same_fd = step.same_fd;
    in_sync =
        fewer-InSync kernel channel_fd m.epoll_context m.world _
          (λ fd ev.
            rw
              (kernel.wait_interest m.epoll_context.epoll ms m.epoll_context.ready_events m.world
                fd)
              (λ e. e))
          step.in_sync;
    modest = step.modest;
  }

  polled-IsReady :
      (ms n : ℕ) (m : Machine os S R)
      → (os.epoll_wait m.epoll_context.epoll ms m.epoll_context.ready_events m.world).0 ≡ ok n
      → ReportsInput ms channel_fd m
      → IsRunnable kernel ep channel_fd m
      → IsReady n (polled ms m)
  unfolding Epoll.poll subscriber_id watched
  polled-IsReady ms n m waited input run = record {
    wf = record { consistent = run.wf.consistent; live = run.wf.live };
    deliverable =
        subst (λ c. AllDeliverable os n c (polled ms m).epoll_context) (sym run.in_step.same_fd)
          (λ i ev lt e.
            let (fd, registered, listed, same) =
              kernel.wait_reports m.epoll_context.epoll ms m.epoll_context.ready_events m.world n i
                ev waited lt e in
            reported-IsDeliverable kernel channel_fd (polled ms m).epoll_context fd ev registered
              same (run.in_step.in_sync fd registered listed) (input i ev e));
    fits = omega (
      arith,
      kernel.wait_laws.wait_count m.epoll_context.epoll ms m.epoll_context.ready_events m.world n
          waited,
      kernel.wait_laws.wait_length m.epoll_context.epoll ms m.epoll_context.ready_events m.world,
    );
  }

  -- The poll passes an error on, or the events that it counts are ready to be dispatched.
  pub polled_cases :
      (ms : ℕ) (m : Machine os S R)
      → ReportsInput ms channel_fd m
      → IsRunnable kernel ep channel_fd m
      → ((n : ℕ) × ((Epoll.poll ms (context m)).0 ≡ ok n) × IsReady n (polled ms m))
        ⊎ ((x : Error os) × ((Epoll.poll ms (context m)).0 ≡ err x))
  unfolding Epoll.poll subscriber_id watched
  polled_cases ms m input run =
      elim (Result-cases
        (os.epoll_wait m.epoll_context.epoll ms m.epoll_context.ready_events m.world).0) [
          | inl (n, waited) ↦
              inl (n, unfold poll_result in rw waited, polled-IsReady ms n m waited input run)
          | inr (e, failed) ↦ elim (poll_result_err e) [
            | inl none_ready ↦ inl (
              0,
              rw failed none_ready,
              record {
                wf = record { consistent = run.wf.consistent; live = run.wf.live };
                deliverable = λ i ev lt e. absurd (omega (arith, lt));
                fits = omega arith;
              },
            )
            | inr (x, is_err) ↦ inr (x, rw failed is_err)
          ]
        ]

  pub subscriber_id-poll :
      (ms : ℕ) (m : Machine os S R) (fd : RawFd)
      → subscriber_id (Epoll.poll ms (context m)).1.wrapper fd ≡ subscriber_id m.epoll_context fd
  unfolding Epoll.poll subscriber_id
  subscriber_id-poll ms m fd = refl

  pub answered-IsReady :
      (ms n : ℕ) (m : Machine os S R)
      → ReportsInput ms channel_fd m
      → IsRunnable kernel ep channel_fd m
      → (Epoll.poll ms (context m)).0 ≡ ok n
      → IsReady n (with_context m (Epoll.poll ms (context m)).1)
  answered-IsReady ms n m input run answer = elim (polled_cases ms m input run) [
    | inr (x, failed) ↦ absurd (cc)
    | inl (n', other, ready) ↦
        subst (λ k. IsReady k (with_context m (Epoll.poll ms (context m)).1))
          (ok_unique (Epoll.poll ms (context m)).0 other answer) ready
  ]
