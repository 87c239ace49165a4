-- ===== src/Epoll.antt =====
-- `EpollWrapper` of src/epoll.rs. An operation that calls the operating system takes the wrapper
-- together with the world, and returns both.
pub mod Dispatch
pub mod Buffer
pub mod Flushed
pub mod Consistent
use event_manager.Prelude.{
  ℕ, Option, none, some, List, [], ◌∷◌, map, Result, ok, err, replicate, unwrap_or, ◌==◌,
  if◌then◌else◌,
}
use event_manager.Prelude.HashMap
use event_manager.Prelude.HashMap.{HashMap}
use event_manager.Os.{Os, RawFd, IoError, raw_os_error, op_delete}
use event_manager.Error.{Error}

-- `SubscriberId` of lib.rs: a `u64`
abbrev pub SubscriberId : Type 0
SubscriberId = ℕ

pub record EpollWrapper (os : Os) : Type 0 where
  pub epoll : os.Epoll
  pub fd_dispatch : HashMap SubscriberId
  pub subscriber_watch_list : HashMap (List RawFd)
  pub ready_events : List os.EpollEvent

-- The wrapper behind a mutable reference, and the world that its calls act on.
pub record Context (os : Os) : Type 0 where
  pub wrapper : EpollWrapper os
  pub open wrapper use *
  pub world : os.World

-- What `remove_event` does to one entry of the buffer.
unfoldable pub discard : (os : Os) → RawFd → os.EpollEvent → os.EpollEvent
discard os fd event = if os.event_fd event == fd then os.event_default else event

module _ {os : Os} where
  unfoldable pub new : ℕ → os.World → Result (EpollWrapper os) (Error os) × os.World
  new ready_events_capacity world =
      let (made, world') = os.epoll_new world in
      elim made [
        | err e ↦ (err (Error.epoll (os.errno_from e)), world')
        | ok ep ↦ (
          ok (record {
            epoll = ep;
            fd_dispatch = [];
            subscriber_watch_list = [];
            ready_events = replicate ready_events_capacity os.event_default;
          }),
          world',
        )
      ]

  -- An interrupted wait counts as no event; any other error is returned.
  unfoldable pub poll_result : Result ℕ IoError → Result ℕ (Error os)
  poll_result (ok event_count) = ok event_count
  poll_result (err e) = elim (raw_os_error e) [
    | none ↦ err (Error.epoll (os.errno_from e))
    | some n ↦ if n == os.eintr then ok 0 else err (Error.epoll (os.errno_from e))
  ]

  unfoldable pub poll : ℕ → Context os → Result ℕ (Error os) × Context os
  unfolding poll_result
  poll milliseconds self =
      let (answer, buffer, world') =
        os.epoll_wait self.epoll milliseconds self.ready_events self.world in
      (
        poll_result answer,
        record { wrapper = record (self.wrapper) { ready_events = buffer }; world = world' },
      )

  unfoldable pub remove_event : RawFd → EpollWrapper os → EpollWrapper os
  unfolding discard
  remove_event fd self = record self {
    fd_dispatch = HashMap.remove self.fd_dispatch fd;
    ready_events = map (discard os fd) self.ready_events;
  }

  -- The body of the loop in `remove`: the result of the system call is ignored.
  unfoldable pub remove_fd : RawFd → Context os → Context os
  unfolding remove_event
  remove_fd fd self =
      let (_, world') = os.epoll_ctl self.epoll op_delete fd os.event_default self.world in
      record { wrapper = remove_event fd self.wrapper; world = world' }

  unfoldable pub remove_fds : List RawFd → Context os → Context os
  remove_fds [] self = self
  remove_fds (fd ∷ fds) self = remove_fds fds (remove_fd fd self)

  -- The file descriptors that the watch list of a subscriber names; none where it has no list.
  unfoldable pub watched : EpollWrapper os → SubscriberId → List RawFd
  watched self subscriber_id = unwrap_or (HashMap.get self.subscriber_watch_list subscriber_id) []

  unfoldable pub remove : SubscriberId → Context os → Context os
  unfolding watched remove_fds
  remove subscriber_id self =
      let fds = watched self.wrapper subscriber_id in
      remove_fds fds (record self {
        wrapper = record (self.wrapper) {
          subscriber_watch_list = HashMap.remove self.subscriber_watch_list subscriber_id;
        };
      })

  unfoldable pub subscriber_id : EpollWrapper os → RawFd → Option SubscriberId
  subscriber_id self fd = HashMap.get self.fd_dispatch fd
