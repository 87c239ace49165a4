-- ===== src/Manager/Created.antt =====
-- `EventManager::new_with_capacity`: when it fails, and the manager that it makes.
use event_manager.Prelude.{
  subst, ℕ, ◌<◌, ◌≤◌, ◌≡◌, refl, ◌∙◌, sym, true, ◌^◌, none, [], ok, err, arith, inl, inr, ltb,
  Bool-cases, Result-cases, length, length-replicate, replicate, ◌⊎◌, Result,
}
use event_manager.Prelude.HashMap
use event_manager.Os.{Os, RawFd, IoError, op_add}
use event_manager.Error.{Error, invalid_capacity}
use event_manager.Events.{as_u64}
use event_manager.Epoll
use event_manager.Epoll.{SubscriberId, EpollWrapper, subscriber_id, watched}
use event_manager.Epoll.Consistent.{IsExact, IsExact-IsConsistent}
use event_manager.Endpoint
use event_manager.Endpoint.{EventManagerChannel}
use event_manager.Subscribers
use event_manager.Kernel.{Kernel}
use event_manager.Manager.{EventManager, max_ready_events_capacity, new_with_capacity}
use event_manager.Manager.{Machine}
use event_manager.Manager.Polled.{IsRunnable}

-- The event that registers the channel.
abbrev channel_event : (os : Os) → os.EventFd → os.EpollEvent
channel_event os fd = os.event_new os.set_in (as_u64 (os.eventfd_raw fd))

module _ (os : Os) where
  event_fd-channel_event :
      Kernel os
      → (fd : os.EventFd) → os.eventfd_raw fd < 2 ^ 31
      → os.event_fd (channel_event os fd) ≡ os.eventfd_raw fd
  event_fd-channel_event kernel fd small = ground (
    arith,
    kernel.event_laws.fd_of_data (channel_event os fd),
    kernel.event_laws.data_of_new os.set_in (as_u64 (os.eventfd_raw fd)),
  )

  -- The answer of the third system call of `new_with_capacity`, and the world that it leaves.
  abbrev pub registration : os.World → os.Epoll → os.EventFd → Result (Unit {0}) IoError × os.World
  registration world ep fd =
      os.epoll_ctl ep op_add (os.eventfd_raw fd) (channel_event os fd)
        (os.eventfd_new os.efd_nonblock (os.epoll_new world).1).1

  -- The three system calls of `new_with_capacity`, the first of them that fails, and the error that
  -- is returned for it.
  abbrev pub IsFailedCall : Error os → os.World → Type 0
  IsFailedCall e world =
      ((x : IoError) × ((os.epoll_new world).0 ≡ err x) × (e ≡ Error.epoll (os.errno_from x)))
      ⊎ ((x : IoError) × (ep : os.Epoll) × ((os.epoll_new world).0 ≡ ok ep)
          × ((os.eventfd_new os.efd_nonblock (os.epoll_new world).1).0 ≡ err x)
          × (e ≡ Error.event_fd (os.errno_from x)))
      ⊎ ((x : IoError) × (ep : os.Epoll) × (fd : os.EventFd) × ((os.epoll_new world).0 ≡ ok ep)
          × ((os.eventfd_new os.efd_nonblock (os.epoll_new world).1).0 ≡ ok fd)
          × ((registration world ep fd).0 ≡ err x)
          × (e ≡ Error.epoll (os.errno_from x)))

  -- All three succeed, and give the manager its epoll instance and its channel.
  abbrev pub AllSucceed : os.World → os.Epoll → os.EventFd → os.World → Type 0
  AllSucceed world ep fd left =
      ((os.epoll_new world).0 ≡ ok ep)
      × ((os.eventfd_new os.efd_nonblock (os.epoll_new world).1).0 ≡ ok fd)
      × ((registration world ep fd).0 ≡ ok tt)
      × (left ≡ (registration world ep fd).1)

  -- The wrapper as `new_with_capacity` makes it.
  abbrev empty_wrapper : ℕ → os.Epoll → EpollWrapper os
  empty_wrapper capacity ep = record {
    epoll = ep;
    fd_dispatch = [];
    subscriber_watch_list = [];
    ready_events = replicate capacity os.event_default;
  }

  empty_wrapper-IsExact : (capacity : ℕ) (ep : os.Epoll) → IsExact os (empty_wrapper capacity ep)
  unfolding watched subscriber_id HashMap.get
  empty_wrapper-IsExact capacity ep fd id = refl

-- The manager that a successful call returns, in the world that the call leaves.
abbrev pub created : {os : Os} {S R : Type 0} → ℕ → os.World → EventManager os S R → Machine os S R
created {os} {S} {R} capacity world manager = record {
  manager = manager;
  world = (new_with_capacity {os = os} {S = S} {R = R} capacity world).1;
}

module _ {os : Os} {S R : Type 0} (kernel : Kernel os) (capacity : ℕ) where
  -- The manager that a successful call has made, with the world that it leaves.
  pub record IsCreated (manager : EventManager os S R) (left : os.World) : Type 0 where
    pub small : capacity ≤ max_ready_events_capacity os
    pub room : length manager.epoll_context.ready_events ≡ capacity
    pub exact : IsExact os manager.epoll_context
    pub no_subscriber : (id : SubscriberId) → HashMap.get manager.subscribers.subscribers id ≡ none
    pub no_route : (fd : RawFd) → subscriber_id manager.epoll_context fd ≡ none
    pub first_id : manager.subscribers.next_id ≡ 1
    pub runnable :
        IsRunnable kernel manager.epoll_context.epoll
          (Endpoint.fd manager.channel)
          (record { manager = manager; world = left })

  abbrev empty_channel : os.EventFd → EventManagerChannel os S R
  empty_channel fd = record { event_fd = fd; messages = []; receiver_alive = true; replies = [] }

  abbrev empty_manager : os.Epoll → os.EventFd → EventManager os S R
  empty_manager ep fd = record {
    subscribers = Subscribers.new;
    epoll_context = empty_wrapper os capacity ep;
    channel = empty_channel fd;
  }

  -- With only the channel's descriptor on the interest list, the empty manager can run.
  empty_manager-IsCreated :
      (ep : os.Epoll) (fd : os.EventFd) (w : os.World)
      → capacity ≤ max_ready_events_capacity os
      → os.eventfd_raw fd < 2 ^ 31
      → ((j : RawFd) → kernel.interest ep w j ≡ none)
      → (os.epoll_ctl ep op_add (os.eventfd_raw fd) (channel_event os fd) w).0 ≡ ok tt
      → IsCreated
          (empty_manager ep fd)
          (os.epoll_ctl ep op_add (os.eventfd_raw fd) (channel_event os fd) w).1
  unfolding Endpoint.fd subscriber_id watched HashMap.get Subscribers.new
  empty_manager-IsCreated ep fd w small low empty done = record {
    small = small;
    room = length-replicate capacity os.event_default;
    exact = empty_wrapper-IsExact os capacity ep;
    no_subscriber = λ id. refl;
    no_route = λ j. refl;
    first_id = refl;
    runnable = record {
      wf = record {
        consistent =
            IsExact-IsConsistent (empty_wrapper os capacity ep)
              (empty_wrapper-IsExact os capacity ep);
        live = λ j id routed. cc;
      };
      in_step = record {
        same_epoll = refl;
        same_fd = refl;
        in_sync = λ j ev found.
            let listed = kernel.add_ok ep (os.eventfd_raw fd) (channel_event os fd) w j done in
            let own : os.eventfd_raw fd ≡ j = ground (arith, listed, empty j) in
            (
              ground (arith, listed, empty j, event_fd-channel_event os kernel fd low),
              inr (sym own),
            );
        modest = tt;
      };
      plain = tt;
    };
  }

  -- `new_with_capacity` refuses a capacity above the maximum without a system call, passes on the
  -- error of the first system call that fails, and else, where all three have succeeded, makes a
  -- manager with the epoll instance and the eventfd that they have made, with room for `capacity`
  -- events, without subscribers and routes, whose watch lists are exact and on which the event loop
  -- can run.
  pub new_with_capacity_cases :
      (world : os.World)
      → ((ltb (max_ready_events_capacity os) capacity ≡ true)
          × (new_with_capacity {os = os} {S = S} {R = R} capacity world
              ≡ (err invalid_capacity, world)))
        ⊎ ((e : Error os) × ((new_with_capacity {os = os} {S = S} {R = R} capacity world).0 ≡ err e)
            × IsFailedCall os e world)
        ⊎ ((manager : EventManager os S R) × ((new_with_capacity {os = os} {S = S} {R = R} capacity
                world).0
              ≡ ok manager)
            × AllSucceed os world manager.epoll_context.epoll manager.channel.event_fd
                (new_with_capacity {os = os} {S = S} {R = R} capacity world).1
            × IsCreated manager (new_with_capacity {os = os} {S = S} {R = R} capacity world).1)
  unfolding new_with_capacity Epoll.new Endpoint.new Endpoint.fd
  new_with_capacity_cases world = elim (Bool-cases (ltb (max_ready_events_capacity os) capacity)) [
    | inl large ↦ inl (large, rw (large, new_with_capacity))
    | inr small ↦ elim (Result-cases (os.epoll_new world).0) [
      | inr (x, failed) ↦
          inr (inl (_, rw (small, new_with_capacity) (rw failed), inl (x, failed, refl)))
      | inl (ep, made) ↦
          elim (Result-cases (os.eventfd_new os.efd_nonblock (os.epoll_new world).1).0) [
            | inr (x, failed) ↦ inr (
                inl (
                  Error.event_fd (os.errno_from x),
                  ground arith,
                  inr (inl (x, ep, made, failed, refl)),
                ))
            | inl (fd, opened) ↦
                elim (Result-cases
                  (os.epoll_ctl ep op_add (os.eventfd_raw fd) (channel_event os fd)
                    (os.eventfd_new os.efd_nonblock (os.epoll_new world).1).1).0) [
                      | inr (x, failed) ↦ inr (
                          inl (
                            Error.epoll (os.errno_from x),
                            ground arith,
                            inr (inr (x, ep, fd, made, opened, failed, refl)),
                          ))
                      | inl (tt, done) ↦ inr (
                          inr (
                            empty_manager ep fd,
                            ground arith,
                            (made, opened, done, ground arith),
                            subst (IsCreated (empty_manager ep fd)) (ground arith) (
                                empty_manager-IsCreated ep fd
                                  (os.eventfd_new os.efd_nonblock (os.epoll_new world).1).1
                                  (ground arith) (kernel.eventfd_fd _ _ fd opened)
                                  (λ j.
                                    kernel.eventfd_interest ep _ _ j
                                    ∙ kernel.new_empty world ep j made)
                                  done),
                          ))
                    ]
          ]
    ]
  ]

  pub created-IsCreated :
      (world : os.World) (manager : EventManager os S R)
      → (new_with_capacity {os = os} {S = S} {R = R} capacity world).0 ≡ ok manager
      → IsCreated manager (created capacity world manager).world
  created-IsCreated world manager made = elim (new_with_capacity_cases world) [
    | inl (large, refused) ↦ absurd (ground arith)
    | inr (inl (e, failed, _)) ↦ absurd (ground arith)
    | inr (inr (other, is_other, _, p)) ↦
        let same : other ≡ manager = ground arith in
        subst (λ (x : EventManager os S R). IsCreated x (created capacity world x).world) same p
  ]

  pub created-IsRunnable :
      (world : os.World) (manager : EventManager os S R)
      → (new_with_capacity {os = os} {S = S} {R = R} capacity world).0 ≡ ok manager
      → IsRunnable kernel manager.epoll_context.epoll
          (Endpoint.fd manager.channel)
          (created capacity world manager)
  created-IsRunnable world manager made = (created-IsCreated world manager made).runnable
