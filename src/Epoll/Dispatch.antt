-- ===== src/Epoll/Dispatch.antt =====
-- What the operations of the wrapper do to the routing of events: to `fd_dispatch`, read through
-- `subscriber_id`, to the watch lists, read through `watched`, and to the buffer.
use event_manager.Prelude.{
  ◌≡◌, refl, ◌∙◌, none, List, [], ◌∷◌, arith, contains, ◌==◌, if◌then◌else◌,
}
use event_manager.Prelude.HashMap.{get-remove}
use event_manager.Os.{Os, RawFd}
use event_manager.Epoll.{
  SubscriberId, EpollWrapper, Context, remove_event, remove_fd, remove_fds, watched, remove,
  subscriber_id,
}

module _ {os : Os} where
  pub subscriber_id-remove_event :
      (fd j : RawFd) (w : EpollWrapper os)
      → subscriber_id (remove_event fd w) j ≡ (if fd == j then none else subscriber_id w j)
  unfolding subscriber_id remove_event
  subscriber_id-remove_event fd j w = get-remove w.fd_dispatch fd j

  pub watched-remove_event :
      (fd : RawFd) (w : EpollWrapper os) (id : SubscriberId)
      → watched (remove_event fd w) id ≡ watched w id
  unfolding watched remove_event
  watched-remove_event fd w id = refl

  pub subscriber_id-remove_fds :
      (fds : List RawFd) (c : Context os) (j : RawFd)
      → subscriber_id (remove_fds fds c).wrapper j
        ≡ (if contains fds j then none else subscriber_id c.wrapper j)
  unfolding remove_fds remove_fd
  subscriber_id-remove_fds [] c j = refl
  subscriber_id-remove_fds (fd ∷ fds) c j = ground (
    arith,
    subscriber_id-remove_fds fds (remove_fd fd c) j,
    subscriber_id-remove_event fd j c.wrapper,
  )

  pub watched-remove_fds :
      (fds : List RawFd) (c : Context os) (id : SubscriberId)
      → watched (remove_fds fds c).wrapper id ≡ watched c.wrapper id
  unfolding remove_fds remove_fd
  watched-remove_fds [] c id = refl
  watched-remove_fds (fd ∷ fds) c id =
      watched-remove_fds fds (remove_fd fd c) id ∙ watched-remove_event fd c.wrapper id

  -- Removing a subscriber unroutes the file descriptors on its watch list, and no others.
  pub subscriber_id-remove :
      (id : SubscriberId) (c : Context os) (j : RawFd)
      → subscriber_id (remove id c).wrapper j
        ≡ (if contains (watched c.wrapper id) j then none else subscriber_id c.wrapper j)
  unfolding remove subscriber_id
  subscriber_id-remove id c j = subscriber_id-remove_fds (watched c.wrapper id) _ j

  -- Its own watch list is dropped, and every other list stays.
  pub watched-remove :
      (id : SubscriberId) (c : Context os) (i : SubscriberId)
      → watched (remove id c).wrapper i ≡ (if id == i then [] else watched c.wrapper i)
  unfolding remove watched
  watched-remove id c i =
      watched-remove_fds (watched c.wrapper id) _ i
      ∙ ground (arith, get-remove c.subscriber_watch_list id i)
