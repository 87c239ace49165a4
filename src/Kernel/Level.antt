-- ===== src/Kernel/Level.antt =====
-- Documented behaviour of eventfd(2) and of epoll(7) without EPOLLET, as hypotheses on the operating
-- system.
use event_manager.Prelude.{ℕ, ◌<◌, ◌≡◌, ◌≢◌, true, some, ok, List, length, get_elem?}
use event_manager.Os.{Os}
use event_manager.Endpoint.Interleaved.{IsReadable}
use event_manager.Kernel.{Kernel}

-- A descriptor that is registered for input and can be read is reported by every wait that leaves room
-- in its buffer (epoll(7), level-triggered), with the data of its registration and some event bits.
pub record IsLevel {os : Os} (kernel : Kernel os) (ep : os.Epoll) (fd : os.EventFd) : Type 0 where
  pub eventfd : IsReadable os fd
  pub open eventfd use *
  pub wait_readable :
      (ms : ℕ) (buffer : List os.EpollEvent) (w : os.World) (n : ℕ) (registered : os.EpollEvent)
      → kernel.interest ep w (os.eventfd_raw fd) ≡ some registered
      → os.event_set registered ≡ os.set_in
      → readable w ≡ true
      → (os.epoll_wait ep ms buffer w).0 ≡ ok n
      → n < length buffer
      → (i : ℕ) × (ev : os.EpollEvent) × (i < n)
        × (get_elem? (os.epoll_wait ep ms buffer w).1 i ≡ some ev)
        × (os.event_data ev ≡ os.event_data registered)
        × (os.event_bits ev ≢ os.event_bits os.event_default)
