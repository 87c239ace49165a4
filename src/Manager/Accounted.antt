-- ===== src/Manager/Accounted.antt =====
-- The requests of the callers of `call_blocking`: queued or answered.
use event_manager.Prelude.{
  ℕ, ◌+◌, ◌<◌, ◌≤◌, ◌≡◌, refl, inl, inr, true, false, none, some, List, [], ◌∷◌, ◌++◌, map,
  returned, Returns-Ensures, Ensures-returned, arith, length, contains, count, count-append,
  Bool-cases, if◌then◌else◌,
}
use event_manager.Prelude.HashMap
use event_manager.Os.{Os}
use event_manager.Endpoint.{Closure, FnMsg, EventManagerChannel, fire, call_send, send_msg}
use event_manager.Endpoint.Callers.{one_sender, senders, answered}
use event_manager.Handler.{MutEventSubscriber}
use event_manager.Manager.{Machine}
use event_manager.Manager.Loop
use event_manager.Manager.Remote.{handle_endpoint_calls-alive}
use event_manager.Manager.Total.{AllPlain, AllQuiet, Drained, handle_endpoint_calls-Returns}

module _ {os : Os} {S R : Type 0} where
  senders-append_one :
      (l : List (FnMsg os S R)) (msg : FnMsg os S R) (k : ℕ)
      → count (senders (l ++ msg ∷ [])) k ≡ count (senders l) k + count (one_sender msg.sender) k
  senders-append_one [] msg k = ground (arith, count-append (one_sender msg.sender) [] k)
  senders-append_one (x ∷ l) msg k = ground (
    arith,
    count-append (one_sender x.sender) (senders (l ++ msg ∷ [])) k,
    count-append (one_sender x.sender) (senders l) k,
    senders-append_one l msg k,
  )

-- A caller that has been sent no reply.
pub unanswered :
    {R : Type 0} (replies : List (ℕ × R)) (k : ℕ)
    → HashMap.get replies k ≡ none
    → count (map (λ r. r.0) replies) k ≡ 0
unfolding HashMap.get
unanswered [] k missing = refl
unanswered ((j, r) ∷ replies) k missing = ground (arith, unanswered replies k)

-- Each caller's request is queued or answered, and that once; only the end of the manager loses it.
pub record Accounted {os : Os} {S R : Type 0} (callers : List ℕ) (c : EventManagerChannel os S R)
    : Type 0 where
  pub most :
      (k : ℕ)
      → count (senders c.messages) k + count (answered c) k ≤ (if contains callers k then 1 else 0)
  pub none_lost :
      (k : ℕ)
      → c.receiver_alive ≡ true
      → contains callers k ≡ true
      → count (senders c.messages) k + count (answered c) k ≡ 1
  pub emptied : c.receiver_alive ≡ false → c.messages ≡ []

module _ {os : Os} {S R : Type 0} where
  pub calls-Accounted :
      (callers : List ℕ) (c : EventManagerChannel os S R) (f : Closure os S R) (reply : ℕ)
      (world : os.World)
      → contains callers reply ≡ false
      → c.receiver_alive ≡ true
      → Accounted callers c
      → Accounted (reply ∷ callers) (call_send f reply c world).1
  unfolding call_send send_msg
  calls-Accounted callers c f reply world fresh alive acc = rw alive (record {
    most = λ k. ground (
      arith,
      acc.most k,
      senders-append_one c.messages (record { fnbox = f; sender = some reply }) k,
    );
    none_lost = λ k _ called. ground (
      arith,
      acc.most k,
      acc.none_lost k alive,
      senders-append_one c.messages (record { fnbox = f; sender = some reply }) k,
    );
    emptied = λ dead. cc;
  })

  pub fires-Accounted :
      (callers : List ℕ) (c : EventManagerChannel os S R) (f : Closure os S R) (world : os.World)
      → Accounted callers c
      → Accounted callers (fire f c world).1
  unfolding fire send_msg
  fires-Accounted callers c f world acc = elim (Bool-cases c.receiver_alive) [
    | inr dead ↦
        rw dead
          (record { most = acc.most; none_lost = λ k alive. cc; emptied = λ _. acc.emptied dead })
    | inl alive ↦ rw alive (record {
      most = λ k. ground (
        arith,
        acc.most k,
        senders-append_one c.messages (record { fnbox = f; sender = none }) k,
      );
      none_lost = λ k _ called. ground (
        arith,
        acc.none_lost k alive called,
        senders-append_one c.messages (record { fnbox = f; sender = none }) k,
      );
      emptied = λ dead. cc;
    })
  ]

module _ {os : Os} {S R : Type 0} ⦃sub : MutEventSubscriber os S R S⦄ where
  pub handles-Accounted :
      (quiet : AllQuiet sub) (callers : List ℕ) (fuel : ℕ) (m m' : Machine os S R)
      → AllPlain m.channel.messages
      → length m.channel.messages < fuel
      → Loop.handle_endpoint_calls fuel m ≡ returned m'
      → Accounted callers m.channel
      → Accounted callers m'.channel
  handles-Accounted quiet callers fuel m m' plain enough is_left acc =
      let (drained, replied) =
        Ensures-returned (Drained m.channel.messages m) (Loop.handle_endpoint_calls fuel m) is_left
          (Returns-Ensures _ (Loop.handle_endpoint_calls fuel m)
            (handle_endpoint_calls-Returns quiet fuel m plain enough)) in
      let same =
        Ensures-returned (λ left. left.channel.receiver_alive ≡ m.channel.receiver_alive)
          (Loop.handle_endpoint_calls fuel m) is_left (handle_endpoint_calls-alive fuel m) in
      record {
        most = λ k. ground (
          arith,
          acc.most k,
          drained,
          replied,
          count-append (answered m.channel) (senders m.channel.messages) k,
        );
        none_lost = λ k alive called. ground (
          arith,
          acc.none_lost k,
          same,
          drained,
          replied,
          count-append (answered m.channel) (senders m.channel.messages) k,
        );
        emptied = λ _. drained;
      }
