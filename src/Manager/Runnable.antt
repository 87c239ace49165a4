-- ===== src/Manager/Runnable.antt =====
-- One turn of the event loop on top of an epoll that behaves as documented.
use event_manager.Prelude.{
  ℕ, ◌<◌, Ensures, Ensures-and, Ensures-bind, Ensures-map, Returns, Returns-and, Returns-bind, inl,
  inr, Result-cases,
}
use event_manager.Os.{Os}
use event_manager.Epoll
use event_manager.Epoll.{SubscriberId, EpollWrapper, subscriber_id, watched, poll_result}
use event_manager.Handler.{MutEventSubscriber}
use event_manager.Kernel.{Kernel, IsUnshared}
use event_manager.Manager.{Machine, context}
use event_manager.Manager.Loop
use event_manager.Manager.Wellformed.{IsWellformed}
use event_manager.Manager.Kept.{dispatch_events-IsWellformed}
use event_manager.Manager.Total.{AllPlain, AllQuiet}
use event_manager.Manager.Turn.{AllTame, dispatch_events-Returns, dispatch_events-AllPlain}
use event_manager.Manager.Synced.{IsInStep}
use event_manager.Manager.InStep.{AllModestHandlers, dispatch_events-IsInStep}
use event_manager.Manager.Polled.{IsRunnable, ReportsInput, polled, polled_cases, polled-IsInStep}

module _ {os : Os} {S R : Type 0} ⦃sub : MutEventSubscriber os S R S⦄ (kernel : Kernel os)
    (ep : os.Epoll) (tame : AllTame sub) (quiet : AllQuiet sub) where
  -- The turn returns, also where its removals leave registrations behind.
  pub run_with_timeout-settles :
      (channel_fd ms : ℕ) (m : Machine os S R)
      → ReportsInput ms channel_fd m
      → IsRunnable kernel ep channel_fd m
      → (bound : ℕ) × ((fuel : ℕ)
          → bound < fuel
          → Returns (λ _. Unit) (Loop.run_with_timeout fuel ms m))
  unfolding Loop.run_with_timeout Epoll.poll
  run_with_timeout-settles channel_fd ms m input run =
      elim (polled_cases kernel ep channel_fd ms m input run) [
        | inr (x, failed) ↦ (0, λ fuel enough. rw (failed, Loop.run_with_timeout) tt)
        | inl (n, answer, ready) ↦
            let (bound, returns) = dispatch_events-Returns tame quiet n _ ready run.plain in
            (
              bound,
              λ fuel enough.
                  rw (answer, Loop.run_with_timeout)
                    (Returns-bind IsWellformed _ (Loop.dispatch_events fuel n _) _
                      (returns fuel enough) (λ left p. tt)),
            )
      ]

module _ {os : Os} {S R : Type 0} ⦃sub : MutEventSubscriber os S R S⦄ (kernel : Kernel os)
    (ep : os.Epoll) (unshared : IsUnshared kernel ep) (modest : AllModestHandlers kernel ep sub)
    (tame : AllTame sub) (quiet : AllQuiet sub) where
  dispatch_events-IsRunnable :
      (channel_fd fuel n : ℕ) (m : Machine os S R)
      → IsRunnable kernel ep channel_fd m
      → Ensures (IsRunnable kernel ep channel_fd) (Loop.dispatch_events fuel n m)
  dispatch_events-IsRunnable channel_fd fuel n m run =
      Ensures-map _ _ (Loop.dispatch_events fuel n m)
        (λ m' p. record { wf = p.0; in_step = p.1.0; plain = p.1.1 })
        (Ensures-and IsWellformed
          (λ m'. IsInStep kernel ep channel_fd m' × AllPlain m'.channel.messages)
          (Loop.dispatch_events fuel n m) (dispatch_events-IsWellformed fuel n m run.wf)
          (Ensures-and (IsInStep kernel ep channel_fd) (λ m'. AllPlain m'.channel.messages)
            (Loop.dispatch_events fuel n m)
            (dispatch_events-IsInStep kernel ep unshared modest channel_fd fuel n m run.in_step)
            (dispatch_events-AllPlain tame quiet fuel n m run.plain)))

  polled-IsRunnable :
      (channel_fd ms : ℕ) (m : Machine os S R)
      → IsRunnable kernel ep channel_fd m
      → IsRunnable kernel ep channel_fd (polled kernel ep channel_fd ms m)
  unfolding Epoll.poll subscriber_id watched
  polled-IsRunnable channel_fd ms m run = record {
    wf = record { consistent = run.wf.consistent; live = run.wf.live };
    in_step = polled-IsInStep kernel ep channel_fd ms m run.in_step;
    plain = run.plain;
  }

  -- A turn that returns, whatever fuel it had.
  pub run_with_timeout-IsRunnable :
      (channel_fd fuel ms : ℕ) (m : Machine os S R)
      → IsRunnable kernel ep channel_fd m
      → Ensures (λ left. IsRunnable kernel ep channel_fd left.1) (Loop.run_with_timeout fuel ms m)
  unfolding Loop.run_with_timeout
  run_with_timeout-IsRunnable channel_fd fuel ms m run =
      let next = polled-IsRunnable channel_fd ms m run in
      elim (Result-cases (Epoll.poll ms (context m)).0) [
        | inr (x, failed) ↦ rw (failed, Loop.run_with_timeout) next
        | inl (n, answer) ↦
            rw (answer, Loop.run_with_timeout)
              (Ensures-bind (IsRunnable kernel ep channel_fd) _ (Loop.dispatch_events fuel n _) _
                (dispatch_events-IsRunnable channel_fd fuel n _ next) (λ left p. p))
      ]

  -- Take an epoll that behaves as documented, on which other code registers nothing and no closed
  -- descriptor stays registered, because no duplicate outlives it, and where no `process`, `init` or
  -- queued request panics, an `init` and a queued request send no request, a `process` sends only
  -- requests like these, and the channel's descriptor is reported with input only. With fuel above
  -- some bound a turn of the event loop returns, so it neither meets its `unreachable!` nor goes on
  -- for ever, and the manager that it leaves meets these conditions again.
  pub run_with_timeout-Returns :
      (channel_fd ms : ℕ) (m : Machine os S R)
      → ReportsInput ms channel_fd m
      → IsRunnable kernel ep channel_fd m
      → (bound : ℕ) × ((fuel : ℕ)
          → bound < fuel
          → Returns
              (λ left. IsRunnable kernel ep channel_fd left.1)
              (Loop.run_with_timeout fuel ms m))
  unfolding Loop.run_with_timeout
  run_with_timeout-Returns channel_fd ms m input run =
      let (bound, returns) =
        run_with_timeout-settles kernel ep tame quiet channel_fd ms m input run in
      (
        bound,
        λ fuel enough.
            Returns-and _ (Loop.run_with_timeout fuel ms m) (returns fuel enough)
              (run_with_timeout-IsRunnable channel_fd fuel ms m run),
      )
