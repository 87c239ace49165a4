-- ===== src/Epoll/Consistent.antt =====
-- How `fd_dispatch` and the watch lists of `EpollWrapper` agree.
use event_manager.Prelude.{
  ◌≡◌, Bool, true, false, Option, none, some, arith, contains, count, count_of_contains,
  contains_of_count, ◌==◌, if◌then◌else◌,
}
use event_manager.Os.{Os, RawFd}
use event_manager.Epoll.{SubscriberId, EpollWrapper, Context, watched, remove, subscriber_id}
use event_manager.Epoll.Dispatch.{subscriber_id-remove, watched-remove}

-- A descriptor that is routed to a subscriber is on that subscriber's watch list.
abbrev pub IsConsistent : (os : Os) → EpollWrapper os → Type 0
IsConsistent os w =
    (fd : RawFd) (id : SubscriberId)
    → subscriber_id w fd ≡ some id
    → contains (watched w id) fd ≡ true

abbrev pub is_owner : Option SubscriberId → SubscriberId → Bool
is_owner none id = false
is_owner (some owner) id = owner == id

-- A watch list names exactly the descriptors routed to its subscriber, each once.
abbrev pub IsExact : (os : Os) → EpollWrapper os → Type 0
IsExact os w =
    (fd : RawFd) (id : SubscriberId)
    → count (watched w id) fd ≡ (if is_owner (subscriber_id w fd) id then 1 else 0)

module _ {os : Os} where
  pub IsExact-IsConsistent : (w : EpollWrapper os) → IsExact os w → IsConsistent os w
  IsExact-IsConsistent w exact fd id e =
      ground (arith, exact fd id, contains_of_count (watched w id) fd)

  pub remove-IsConsistent :
      (id : SubscriberId) (c : Context os)
      → IsConsistent os c.wrapper
      → IsConsistent os (remove id c).wrapper
  remove-IsConsistent id c h fd i e =
      ground (arith, subscriber_id-remove id c fd, watched-remove id c i, h fd i)

  -- If every routed descriptor is on the watch list of its subscriber, then once a subscriber is
  -- removed, no descriptor is routed to it.
  pub remove-unrouted :
      (id : SubscriberId) (c : Context os)
      → IsConsistent os c.wrapper
      → (fd : RawFd) → is_owner (subscriber_id (remove id c).wrapper fd) id ≡ false
  remove-unrouted id c h fd = ground (arith, subscriber_id-remove id c fd, h fd id)

  pub remove-IsExact :
      (id : SubscriberId) (c : Context os) → IsExact os c.wrapper → IsExact os (remove id c).wrapper
  remove-IsExact id c exact fd i = ground (
    arith,
    subscriber_id-remove id c fd,
    watched-remove id c i,
    exact fd i,
    exact fd id,
    count_of_contains (watched c.wrapper id) fd,
    contains_of_count (watched c.wrapper id) fd,
  )

  -- If each watch list names exactly the descriptors routed to its subscriber, then removing a
  -- subscriber leaves a descriptor that is routed to another one routed to it.
  remove_others :
      (id other : SubscriberId) (c : Context os) (fd : RawFd)
      → IsExact os c.wrapper
      → (other == id) ≡ false
      → subscriber_id c.wrapper fd ≡ some other
      → subscriber_id (remove id c).wrapper fd ≡ some other
  remove_others id other c fd exact ne e = ground (
    arith,
    subscriber_id-remove id c fd,
    exact fd id,
    count_of_contains (watched c.wrapper id) fd,
  )
