-- ===== src/Manager/Reached.antt =====
-- Any state in the life of a manager, from the call that makes it on.
use event_manager.Prelude.{ℕ, ◌<◌, ◌≡◌, ok, Returns, Returns-self, Returns-map}
use event_manager.Os.{Os}
use event_manager.Endpoint
use event_manager.Handler.{MutEventSubscriber}
use event_manager.Kernel.{Kernel, IsUnshared}
use event_manager.Manager.{EventManager, Machine, new_with_capacity}
use event_manager.Manager.Loop
use event_manager.Manager.Wellformed.{IsWellformed}
use event_manager.Manager.Total.{AllQuiet}
use event_manager.Manager.Turn.{AllTame}
use event_manager.Manager.InStep.{AllModestHandlers}
use event_manager.Manager.Polled.{ReportsInput}
use event_manager.Manager.Runnable.{run_with_timeout-Returns}
use event_manager.Manager.Created.{created, created-IsRunnable}
use event_manager.Manager.Reach.{Reach, turns, later, Reach-IsRunnable}

module _ {os : Os} {S R : Type 0} ⦃sub : MutEventSubscriber os S R S⦄ (kernel : Kernel os)
    (tame : AllTame sub) (quiet : AllQuiet sub) where
  -- Take an epoll that behaves as documented, on which no closed descriptor stays registered, because
  -- no duplicate outlives it, subscribers and other code that register descriptors on its instance
  -- through `EventOps` only, and subscribers and requests that neither panic nor send requests, but
  -- that a `process` may send such a request. Make any sequence of calls of `SubscriberOps`, messages,
  -- effects of other code and turns of the event loop that have returned, from the manager that
  -- `new_with_capacity` makes, after which the wait reports the channel's descriptor, if it does, with
  -- input only. Then the manager is well-formed, and with fuel above some bound the next turn returns,
  -- and leaves a manager that is reached in this way.
  pub reached-Returns :
      (capacity : ℕ) (world : os.World) (manager : EventManager os S R) (ms : ℕ)
      (m : Machine os S R)
      → IsUnshared kernel manager.epoll_context.epoll
      → AllModestHandlers kernel manager.epoll_context.epoll sub
      → (new_with_capacity {os = os} {S = S} {R = R} capacity world).0 ≡ ok manager
      → Reach kernel manager.epoll_context.epoll (created capacity world manager) m
      → ReportsInput ms (Endpoint.fd manager.channel) m
      → IsWellformed m
        × ((bound : ℕ) × ((fuel : ℕ)
              → bound < fuel
              → Returns
                  (λ left.
                    Reach kernel manager.epoll_context.epoll
                      (created capacity world manager)
                      left.1)
                  (Loop.run_with_timeout fuel ms m)))
  reached-Returns capacity world manager ms m unshared modest made reach input =
      let ep = manager.epoll_context.epoll in
      let channel_fd = Endpoint.fd manager.channel in
      let run =
        Reach-IsRunnable kernel ep unshared modest tame quiet channel_fd
          (created-IsRunnable kernel capacity world manager made) reach in
      let (bound, returns) =
        run_with_timeout-Returns kernel ep unshared modest tame quiet channel_fd ms m input run in
      (
        run.wf,
        (
          bound,
          λ fuel enough.
              Returns-map _ _ (Loop.run_with_timeout fuel ms m)
                (λ left p. later reach (turns fuel ms left.0 m left.1 p.0))
                (Returns-self _ (Loop.run_with_timeout fuel ms m) (returns fuel enough)),
        ),
      )
