-- ===== src/Manager/Synced.antt =====
-- Handlers and remote closures, the interest list of epoll, and the routes.
use event_manager.Prelude.{
  sym, subst, ◌≡◌, refl, ◌∙◌, List, [], ◌∷◌, ◌++◌, Result, Ensures, arith, inl, inr, Bool-cases,
}
use event_manager.Os.{Os, RawFd}
use event_manager.Error.{Error}
use event_manager.Epoll
use event_manager.Epoll.{
  SubscriberId, Context, subscriber_id, watched, remove_fds, remove_fd, remove_event,
}
use event_manager.EventOps.{EventOps, Request, perform, register, unwatch}
use event_manager.EventOps.Routing.{perform_cases}
use event_manager.Endpoint
use event_manager.Endpoint.{Closure, FnMsg, EventManagerChannel, send_msg, kick, reply_to}
use event_manager.Handler.{Handler, Scope, run_handler}
use event_manager.Kernel.{Kernel, IsUnshared, InSync, IsModest}
use event_manager.Kernel.Synced.{perform-InSync, remove-InSync, fewer-InSync}
use event_manager.Manager.{Machine, context}

module _ {os : Os} {S R : Type 0} (kernel : Kernel os) (ep : os.Epoll) where
  -- A closure whose effects, and those of the closures that it sends, register nothing.
  abbrev pub IsModestClosure : Closure os S R → Type 0
  IsModestClosure (Closure.done r) = Unit
  IsModestClosure Closure.panics = Unit
  IsModestClosure (Closure.add_subscriber t k) = (id : SubscriberId) → IsModestClosure (k id)
  IsModestClosure (Closure.remove_subscriber id k) =
      (x : Result S (Error os)) → IsModestClosure (k x)
  IsModestClosure (Closure.subscriber_mut id change k) =
      (x : Result S (Error os)) → IsModestClosure (k x)
  IsModestClosure (Closure.event_ops id r k) =
      (x : Result (Unit {0}) (Error os)) → IsModestClosure (k x)
  IsModestClosure (Closure.send f reply k) =
      IsModestClosure f × ((x : Result (Unit {0}) (Error os)) → IsModestClosure (k x))
  IsModestClosure (Closure.effect change k) =
      IsModest kernel ep change × ((w : os.World) → IsModestClosure (k w))

  abbrev pub AllModest : List (FnMsg os S R) → Type 0
  AllModest [] = Unit
  AllModest (msg ∷ msgs) = IsModestClosure msg.fnbox × AllModest msgs

  abbrev pub IsModestHandler : {A : Type 0} → Handler os S R A → Type 0
  IsModestHandler (Handler.done a) = Unit
  IsModestHandler Handler.panics = Unit
  IsModestHandler (Handler.request r k) = (x : Result (Unit {0}) (Error os)) → IsModestHandler (k x)
  IsModestHandler (Handler.send f reply k) =
      IsModestClosure f × ((x : Result (Unit {0}) (Error os)) → IsModestHandler (k x))
  IsModestHandler (Handler.effect change k) =
      IsModest kernel ep change × ((w : os.World) → IsModestHandler (k w))

  -- The wrapper, the channel and the world of a machine, or of a handler's scope: `ep` and
  -- `channel_fd` stay the same, the interest list is in step, and so it is after every queued closure.
  pub record IsSynced (channel_fd : RawFd) (c : Context os) (channel : EventManagerChannel os S R)
      : Type 0 where
    pub same_epoll : c.epoll ≡ ep
    pub same_fd : Endpoint.fd channel ≡ channel_fd
    pub in_sync : InSync kernel channel_fd c.wrapper c.world
    pub modest : AllModest channel.messages

-- No operation changes the epoll instance.
module _ {os : Os} where
  perform-epoll : (r : Request os) (ops : EventOps os) → (perform r ops).1.epoll ≡ ops.epoll
  unfolding register unwatch remove_event
  perform-epoll r ops =
      perform_cases (λ s. s.epoll ≡ ops.epoll) r ops (λ _. refl) (λ _ _ _ _. refl)
        (λ e world _. ground arith)

  epoll-remove_fds : (fds : List RawFd) (c : Context os) → (remove_fds fds c).epoll ≡ c.epoll
  unfolding remove_fds remove_fd remove_event
  epoll-remove_fds [] c = refl
  epoll-remove_fds (fd ∷ fds) c = epoll-remove_fds fds (remove_fd fd c)

  epoll-remove : (id : SubscriberId) (c : Context os) → (Epoll.remove id c).epoll ≡ c.epoll
  unfolding Epoll.remove
  epoll-remove id c = epoll-remove_fds (watched c.wrapper id) _

module _ {os : Os} {S R : Type 0} (kernel : Kernel os) (ep : os.Epoll) (channel_fd : RawFd) where
  abbrev Synced : Context os → EventManagerChannel os S R → Type 0
  Synced = IsSynced kernel ep channel_fd

  AllModest-append :
      (l : List (FnMsg os S R)) (msg : FnMsg os S R)
      → AllModest kernel ep l
      → IsModestClosure kernel ep msg.fnbox
      → AllModest kernel ep (l ++ msg ∷ [])
  AllModest-append [] msg all modest = (modest, tt)
  AllModest-append (x ∷ l) msg all modest = (all.0, AllModest-append l msg all.1 modest)

  -- Any effect that registers nothing keeps them in step.
  pub changed-IsSynced :
      (change : os.World → os.World) (c : Context os) (channel : EventManagerChannel os S R)
      → IsModest kernel ep change
      → Synced c channel
      → Synced (record c { world = change c.world }) channel
  unfolding subscriber_id
  changed-IsSynced change c channel modest synced = record {
    same_epoll = synced.same_epoll;
    same_fd = synced.same_fd;
    in_sync =
        fewer-InSync kernel channel_fd c.wrapper c.world (change c.world)
          (λ fd ev. rw (synced.same_epoll) (modest c.world fd ev)) synced.in_sync;
    modest = synced.modest;
  }

  pub send_msg-IsSynced :
      (msg : FnMsg os S R) (c : Context os) (channel : EventManagerChannel os S R)
      → IsModestClosure kernel ep msg.fnbox
      → Synced c channel
      → Synced
          (record c { world = (send_msg msg channel c.world).2 })
          (send_msg msg channel c.world).1
  unfolding send_msg kick Endpoint.fd subscriber_id
  send_msg-IsSynced msg c channel plain synced = elim (Bool-cases channel.receiver_alive) [
    | inr dropped ↦ rw dropped (record {
      same_epoll = synced.same_epoll;
      same_fd = synced.same_fd;
      in_sync = synced.in_sync;
      modest = synced.modest;
    })
    | inl alive ↦ rw alive (record {
      same_epoll = synced.same_epoll;
      same_fd = synced.same_fd;
      in_sync =
          fewer-InSync kernel channel_fd c.wrapper c.world _
            (λ fd ev. rw (kernel.write_interest c.epoll channel.event_fd 1 c.world fd) (λ e. e))
            synced.in_sync;
      modest = AllModest-append channel.messages msg synced.modest plain;
    })
  ]

  pub perform-IsSynced :
      (r : Request os) (ops : EventOps os) (channel : EventManagerChannel os S R)
      → Synced ops.context channel
      → Synced (perform r ops).1.context channel
  perform-IsSynced r ops channel synced = record {
    same_epoll = perform-epoll r ops ∙ synced.same_epoll;
    same_fd = synced.same_fd;
    in_sync = perform-InSync kernel channel_fd r ops synced.in_sync;
    modest = synced.modest;
  }

  pub run_handler-IsSynced :
      {A : Type 0} (h : Handler os S R A) (self : Scope os S R)
      → IsModestHandler kernel ep h
      → Synced self.context self.channel
      → Ensures (λ left. Synced left.1.context left.1.channel) (run_handler h self)
  unfolding run_handler
  run_handler-IsSynced (Handler.done a) self modest synced = synced
  run_handler-IsSynced Handler.panics self modest synced = tt
  run_handler-IsSynced (Handler.request r k) self modest synced =
      run_handler-IsSynced (k _) _ (modest _) (perform-IsSynced r self.ops self.channel synced)
  run_handler-IsSynced (Handler.send f reply k) self modest synced =
      run_handler-IsSynced (k _) _ (modest.1 _) (
        send_msg-IsSynced (record { fnbox = f; sender = reply }) self.context self.channel modest.0
          synced)
  run_handler-IsSynced (Handler.effect change k) self modest synced =
      run_handler-IsSynced (k _) _ (modest.1 _)
        (changed-IsSynced change self.context self.channel modest.0 synced)

  pub remove-IsSynced :
      IsUnshared kernel ep
      → (id : SubscriberId) (c : Context os) (channel : EventManagerChannel os S R)
      → Synced c channel
      → Synced (Epoll.remove id c) channel
  remove-IsSynced unshared id c channel synced = record {
    same_epoll = epoll-remove id c ∙ synced.same_epoll;
    same_fd = synced.same_fd;
    in_sync =
        remove-InSync kernel channel_fd id c
          (subst (IsUnshared kernel) (sym synced.same_epoll) unshared) synced.in_sync;
    modest = synced.modest;
  }

  abbrev pub IsInStep : Machine os S R → Type 0
  IsInStep m = Synced (context m) m.channel
