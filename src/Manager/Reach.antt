-- ===== src/Manager/Reach.antt =====
-- The life of a manager: the calls that its thread makes on it, the messages of other threads, and
-- the turns of its event loop, in any order.
use event_manager.Prelude.{
  ℕ, ◌≡◌, sym, Result, returned, Outcome, Ensures, Ensures-returned, Outcome, Returns-Ensures,
  subst,
}
use event_manager.Os.{Os, RawFd}
use event_manager.Error.{Error}
use event_manager.Epoll.{SubscriberId}
use event_manager.EventOps.{Request}
use event_manager.Endpoint.{FnMsg}
use event_manager.Handler.{MutEventSubscriber}
use event_manager.Kernel.{Kernel, IsUnshared, IsModest}
use event_manager.Manager.{
  Machine, context, remove_subscriber, subscriber_mut, event_ops_request, send_message,
}
use event_manager.Manager.Loop
use event_manager.Manager.Wellformed.{
  IsWellformed, remove_subscriber-IsWellformed, event_ops_request-IsWellformed,
  subscriber_mut-IsWellformed, send_message-IsWellformed,
}
use event_manager.Manager.Kept.{add_subscriber-IsWellformed}
use event_manager.Manager.Total.{
  IsPlain, AllPlain, AllQuiet, add_subscriber-channel, remove_subscriber-channel,
  subscriber_mut-channel, event_ops_request-channel,
}
use event_manager.Manager.Turn.{AllTame, send_msg-AllPlain}
use event_manager.Manager.Synced.{IsInStep, IsModestClosure, changed-IsSynced}
use event_manager.Manager.InStep.{
  AllModestHandlers, add_subscriber-IsInStep, remove_subscriber-IsInStep, subscriber_mut-IsInStep,
  event_ops_request-IsInStep, send_message-IsInStep,
}
use event_manager.Manager.Polled.{IsRunnable}
use event_manager.Manager.Runnable.{run_with_timeout-IsRunnable}

module _ {os : Os} {S R : Type 0} ⦃sub : MutEventSubscriber os S R S⦄ (kernel : Kernel os)
    (ep : os.Epoll) where
  -- One call of `SubscriberOps` that returns, a message of any thread, an effect of other code, or a
  -- turn that returns.
  pub data Step : Machine os S R → Machine os S R → Type 0 where
    adds :
        (t : S) (id : SubscriberId) (m m' : Machine os S R)
        → Loop.add_subscriber t m ≡ returned (id, m')
        → Step m m'
    removes : (id : SubscriberId) (m : Machine os S R) → Step m (remove_subscriber id m).1
    changes :
        (id : SubscriberId) (change : S → S) (answer : Result S (Error os)) (m m' : Machine os S R)
        → subscriber_mut id change m ≡ returned (answer, m')
        → Step m m'
    requests :
        (id : SubscriberId) (r : Request os) (m : Machine os S R)
        → Step m (event_ops_request id r m).1
    sends :
        (msg : FnMsg os S R) (m : Machine os S R)
        → IsPlain msg.fnbox
        → IsModestClosure kernel ep msg.fnbox
        → Step m (send_message msg m).1
    effects :
        (change : os.World → os.World) (m : Machine os S R)
        → IsModest kernel ep change
        → Step m (record m { world = change m.world })
    turns :
        (fuel ms : ℕ) (answer : Result ℕ (Error os)) (m m' : Machine os S R)
        → Loop.run_with_timeout fuel ms m ≡ returned (answer, m')
        → Step m m'

  pub data Reach (start : Machine os S R) : Machine os S R → Type 0 where
    here : Reach start start
    later : {m m' : Machine os S R} → Reach start m → Step m m' → Reach start m'

module _ {os : Os} {S R : Type 0} ⦃sub : MutEventSubscriber os S R S⦄ (kernel : Kernel os)
    (ep : os.Epoll) (unshared : IsUnshared kernel ep) (modest : AllModestHandlers kernel ep sub)
    (tame : AllTame sub) (quiet : AllQuiet sub) (channel_fd : RawFd) where
  abbrev Runnable : Machine os S R → Type 0
  Runnable = IsRunnable kernel ep channel_fd

  -- What holds of the machine that returned code leaves.
  left_by :
      {A : Type 0} (P : Machine os S R → Type 0) (o : Outcome (A × Machine os S R)) {a : A}
      {m' : Machine os S R}
      → o ≡ returned (a, m')
      → Ensures (λ left. P left.1) o
      → P m'
  left_by P o is_left p = Ensures-returned (λ left. P left.1) o is_left p

  -- The queue where the channel is the same.
  same_channel-AllPlain :
      (m m' : Machine os S R)
      → AllPlain m.channel.messages
      → m'.channel ≡ m.channel
      → AllPlain m'.channel.messages
  same_channel-AllPlain m m' all same = subst (λ c. AllPlain c.messages) (sym same) all

  adds-IsRunnable :
      (t : S) (id : SubscriberId) (m m' : Machine os S R)
      → Loop.add_subscriber t m ≡ returned (id, m')
      → Runnable m
      → Runnable m'
  adds-IsRunnable t id m m' is_left run = record {
    wf = left_by IsWellformed _ is_left (add_subscriber-IsWellformed t m run.wf);
    in_step =
        left_by (IsInStep kernel ep channel_fd) _ is_left
          (add_subscriber-IsInStep kernel ep unshared modest channel_fd t m run.in_step);
    plain = same_channel-AllPlain m m' run.plain (
        left_by (λ left. left.channel ≡ m.channel) _ is_left
          (Returns-Ensures _ (Loop.add_subscriber t m) (add_subscriber-channel quiet t m)));
  }

  changes-IsRunnable :
      (id : SubscriberId) (change : S → S) (answer : Result S (Error os)) (m m' : Machine os S R)
      → subscriber_mut id change m ≡ returned (answer, m')
      → Runnable m
      → Runnable m'
  changes-IsRunnable id change answer m m' is_left run = record {
    wf = left_by IsWellformed _ is_left (subscriber_mut-IsWellformed id change m run.wf);
    in_step =
        left_by (IsInStep kernel ep channel_fd) _ is_left
          (subscriber_mut-IsInStep kernel ep channel_fd id change m run.in_step);
    plain = same_channel-AllPlain m m' run.plain (
        left_by (λ left. left.channel ≡ m.channel) _ is_left
          (Returns-Ensures _ (subscriber_mut id change m) (subscriber_mut-channel id change m)));
  }

  effects-IsRunnable :
      (change : os.World → os.World) (m : Machine os S R)
      → IsModest kernel ep change
      → Runnable m
      → Runnable (record m { world = change m.world })
  effects-IsRunnable change m alone run = record {
    wf = record { consistent = run.wf.consistent; live = run.wf.live };
    in_step = changed-IsSynced kernel ep channel_fd change (context m) m.channel alone run.in_step;
    plain = run.plain;
  }

  Step-IsRunnable : {m m' : Machine os S R} → Step kernel ep m m' → Runnable m → Runnable m'
  unfolding send_message
  Step-IsRunnable (adds t id m m' e) run = adds-IsRunnable t id m m' e run
  Step-IsRunnable (removes id m) run = record {
    wf = remove_subscriber-IsWellformed id m run.wf;
    in_step = remove_subscriber-IsInStep kernel ep channel_fd unshared id m run.in_step;
    plain =
        same_channel-AllPlain m (remove_subscriber id m).1 run.plain
          (remove_subscriber-channel id m);
  }
  Step-IsRunnable (changes id change answer m m' e) run =
      changes-IsRunnable id change answer m m' e run
  Step-IsRunnable (requests id r m) run = record {
    wf = event_ops_request-IsWellformed id r m run.wf;
    in_step = event_ops_request-IsInStep kernel ep channel_fd id r m run.in_step;
    plain =
        same_channel-AllPlain m (event_ops_request id r m).1 run.plain
          (event_ops_request-channel id r m);
  }
  Step-IsRunnable (sends msg m plain alone) run = record {
    wf = send_message-IsWellformed msg m run.wf;
    in_step = send_message-IsInStep kernel ep channel_fd msg m alone run.in_step;
    plain = send_msg-AllPlain msg m.channel m.world run.plain plain;
  }
  Step-IsRunnable (effects change m alone) run = effects-IsRunnable change m alone run
  Step-IsRunnable (turns fuel ms answer m m' e) run =
      left_by Runnable _ e
        (run_with_timeout-IsRunnable kernel ep unshared modest tame quiet channel_fd fuel ms m run)

  pub Reach-IsRunnable :
      {start m : Machine os S R} → Runnable start → Reach kernel ep start m → Runnable m
  Reach-IsRunnable run here = run
  Reach-IsRunnable run (later r s) = Step-IsRunnable s (Reach-IsRunnable run r)
