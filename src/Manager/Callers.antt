-- ===== src/Manager/Callers.antt =====
-- Several threads that call `call_blocking` and `fire`, the turns of the manager's thread, and the
-- end of the manager, in any order.
use event_manager.Prelude.{
  ℕ, ◌+◌, ◌<◌, ◌≤◌, ◌≡◌, ◌≢◌, refl, ◌⊎◌, inl, inr, true, false, none, some, List, [], ◌∷◌, err,
  returned, arith, length, contains, count, contains_of_count, Bool-cases,
}
use event_manager.Os.{Os}
use event_manager.Error.{channel_recv}
use event_manager.Endpoint.{Closure, EventManagerChannel, recv, fire, call_send}
use event_manager.Endpoint.Callers.{senders, answered, disconnect, recv_result}
use event_manager.Handler.{MutEventSubscriber}
use event_manager.Manager.{Machine}
use event_manager.Manager.Loop
use event_manager.Manager.Total.{AllPlain, AllQuiet}
use event_manager.Manager.Accounted.{
  Accounted, unanswered, calls-Accounted, fires-Accounted, handles-Accounted,
}

-- The callers so far, by their temporary channels, and the manager's channel.
pub data Life {os : Os} {S R : Type 0} ⦃sub : MutEventSubscriber os S R S⦄
    : List ℕ → EventManagerChannel os S R → Type 0 where
  begins :
      (fd : os.EventFd)
      → Life [] (record { event_fd = fd; messages = []; receiver_alive = true; replies = [] })
  -- A thread makes a new temporary channel, and sends its closure.
  calls :
      {callers : List ℕ} {c : EventManagerChannel os S R}
      → Life callers c
      → (f : Closure os S R) (reply : ℕ) (world : os.World) → contains callers reply ≡ false
      → c.receiver_alive ≡ true
      → Life (reply ∷ callers) (call_send f reply c world).1
  fires :
      {callers : List ℕ} {c : EventManagerChannel os S R}
      → Life callers c
      → (f : Closure os S R) (world : os.World) → Life callers (fire f c world).1
  -- The manager's thread handles the queue, with fuel that is enough.
  handles :
      {callers : List ℕ} (fuel : ℕ) (m m' : Machine os S R)
      → Life callers m.channel
      → AllPlain m.channel.messages
      → length m.channel.messages < fuel
      → Loop.handle_endpoint_calls fuel m ≡ returned m'
      → Life callers m'.channel
  ends :
      {callers : List ℕ} {c : EventManagerChannel os S R}
      → Life callers c
      → Life callers (disconnect c)

module _ {os : Os} {S R : Type 0} ⦃sub : MutEventSubscriber os S R S⦄ where
  Life-Accounted :
      (quiet : AllQuiet sub) {callers : List ℕ} {c : EventManagerChannel os S R}
      → Life callers c
      → Accounted callers c
  unfolding disconnect
  Life-Accounted quiet (begins fd) = record {
    most = λ k. omega arith;
    none_lost = λ k _ called. cc;
    emptied = λ dead. refl;
  }
  Life-Accounted quiet (calls {callers} {c} l f reply world fresh alive) =
      calls-Accounted callers c f reply world fresh alive (Life-Accounted quiet l)
  Life-Accounted quiet (fires {callers} {c} l f world) =
      fires-Accounted callers c f world (Life-Accounted quiet l)
  Life-Accounted quiet (handles {callers} fuel m m' l plain enough e) =
      handles-Accounted quiet callers fuel m m' plain enough e (Life-Accounted quiet l)
  Life-Accounted quiet (ends {callers} {c} l) =
      let acc = Life-Accounted quiet l in
      record {
        most = λ k. omega (arith, acc.most k);
        none_lost = λ k alive _. cc;
        emptied = λ _. refl;
      }

  -- Take threads that call `call_blocking`, each with a new temporary channel, or `fire`, turns in
  -- which the manager's thread handles its queue, and the end of the manager, in any order, where
  -- requests neither panic nor send requests, and no `init` does. Then no caller is sent two results,
  -- or one while its request is still queued. While the manager lives, a caller's request is queued
  -- or has been answered, and the caller gets no `ChannelRecv`; once the manager has ended, every
  -- caller gets a result or `ChannelRecv`, so that none waits for ever.
  pub call-resolves :
      (quiet : AllQuiet sub) (callers : List ℕ) (c : EventManagerChannel os S R) (reply : ℕ)
      → Life callers c
      → contains callers reply ≡ true
      → (count (senders c.messages) reply + count (answered c) reply ≤ 1)
        × (((c.receiver_alive ≡ true)
              × (count (senders c.messages) reply + count (answered c) reply ≡ 1)
              × (recv_result reply c ≢ some (err channel_recv)))
            ⊎ ((c.receiver_alive ≡ false) × (recv_result reply c ≢ none)))
  unfolding recv_result recv
  call-resolves quiet callers c reply life called =
      let acc = Life-Accounted quiet life in
      (
        ground (arith, acc.most reply),
        elim (Bool-cases c.receiver_alive) [
          | inl alive ↦ inl (
            alive,
            acc.none_lost reply alive called,
            λ lost. ground (
              arith,
              acc.none_lost reply alive called,
              unanswered c.replies reply,
              contains_of_count (senders c.messages) reply,
            ),
          )
          | inr dead ↦ inr (dead, λ waits. ground (arith, acc.emptied dead))
        ],
      )
