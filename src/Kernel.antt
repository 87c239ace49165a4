-- ===== src/Kernel.antt =====
-- Documented behaviour of epoll (epoll_ctl(2), epoll_wait(2)), as hypotheses on the operating
-- system: its calls keep an interest list, and a wait reports what is on that list. The list has one
-- entry for a descriptor's number: left out is a closed descriptor that stays registered because of a
-- duplicate, and whose number is in use again.
pub mod Synced
pub mod Level
use event_manager.Prelude.{
  Bool, true, false, ℕ, ◌<◌, ◌^◌, ◌≡◌, ◌⊎◌, Option, none, some, ok, err, get_elem?, ◌==◌,
  if◌then◌else◌,
}
use event_manager.Os.{
  Os, RawFd, IoError, ControlOperation, op_add, op_modify, op_delete, EpollEventLaws, WaitLaws,
}
use event_manager.Epoll.{SubscriberId, EpollWrapper, subscriber_id}
use mathlib.Core.List.{List}

pub record Kernel (os : Os) : Type 0 where
  pub event_laws : EpollEventLaws os
  pub wait_laws : WaitLaws os
  -- the event that a descriptor is registered with, on an epoll instance
  pub interest : os.Epoll → os.World → RawFd → Option os.EpollEvent
  pub add_ok :
      (ep : os.Epoll) (fd : RawFd) (ev : os.EpollEvent) (w : os.World) (j : RawFd)
      → (os.epoll_ctl ep op_add fd ev w).0 ≡ ok tt
      → interest ep (os.epoll_ctl ep op_add fd ev w).1 j
        ≡ (if fd == j then some ev else interest ep w j)
  -- Only a descriptor that is registered can be modified.
  pub modify_ok :
      (ep : os.Epoll) (fd : RawFd) (ev : os.EpollEvent) (w : os.World) (j : RawFd)
      → (os.epoll_ctl ep op_modify fd ev w).0 ≡ ok tt
      → ((old : os.EpollEvent) × (interest ep w fd ≡ some old))
        × (interest ep (os.epoll_ctl ep op_modify fd ev w).1 j
            ≡ (if fd == j then some ev else interest ep w j))
  pub delete_ok :
      (ep : os.Epoll) (fd : RawFd) (ev : os.EpollEvent) (w : os.World) (j : RawFd)
      → (os.epoll_ctl ep op_delete fd ev w).0 ≡ ok tt
      → interest ep (os.epoll_ctl ep op_delete fd ev w).1 j
        ≡ (if fd == j then none else interest ep w j)
  pub ctl_err :
      (ep : os.Epoll) (op : ControlOperation) (fd : RawFd) (ev : os.EpollEvent) (w : os.World)
      (e : IoError) (j : RawFd)
      → (os.epoll_ctl ep op fd ev w).0 ≡ err e
      → interest ep (os.epoll_ctl ep op fd ev w).1 j ≡ interest ep w j
  -- Whether a descriptor is open in this process.
  pub is_open : os.World → RawFd → Bool
  -- A deletion fails only for a descriptor that is not registered (ENOENT) or is not open (EBADF). A
  -- closed descriptor stays registered as long as a duplicate of it is open (epoll(7), Q6).
  pub delete_err :
      (ep : os.Epoll) (fd : RawFd) (ev : os.EpollEvent) (w : os.World) (e : IoError)
      → (os.epoll_ctl ep op_delete fd ev w).0 ≡ err e
      → (interest ep w fd ≡ none) ⊎ (is_open w fd ≡ false)
  pub wait_interest :
      (ep : os.Epoll) (ms : ℕ) (buffer : List os.EpollEvent) (w : os.World) (j : RawFd)
      → interest ep (os.epoll_wait ep ms buffer w).2 j ≡ interest ep w j
  -- A reported event carries the data of a registration.
  pub wait_reports :
      (ep : os.Epoll) (ms : ℕ) (buffer : List os.EpollEvent) (w : os.World) (n i : ℕ)
      (ev : os.EpollEvent)
      → (os.epoll_wait ep ms buffer w).0 ≡ ok n
      → i < n
      → get_elem? (os.epoll_wait ep ms buffer w).1 i ≡ some ev
      → (fd : RawFd) × (registered : os.EpollEvent) × (interest ep w fd ≡ some registered)
        × (os.event_data ev ≡ os.event_data registered)
  pub write_interest :
      (ep : os.Epoll) (fd : os.EventFd) (n : ℕ) (w : os.World) (j : RawFd)
      → interest ep (os.eventfd_write fd n w).1 j ≡ interest ep w j
  pub read_interest :
      (ep : os.Epoll) (fd : os.EventFd) (w : os.World) (j : RawFd)
      → interest ep (os.eventfd_read fd w).1 j ≡ interest ep w j
  -- A new epoll instance has no registrations, and a new descriptor is not negative.
  pub new_empty :
      (w : os.World) (ep : os.Epoll) (j : RawFd)
      → (os.epoll_new w).0 ≡ ok ep
      → interest ep (os.epoll_new w).1 j ≡ none
  pub eventfd_interest :
      (ep : os.Epoll) (flags : ℕ) (w : os.World) (j : RawFd)
      → interest ep (os.eventfd_new flags w).1 j ≡ interest ep w j
  pub eventfd_fd :
      (flags : ℕ) (w : os.World) (fd : os.EventFd)
      → (os.eventfd_new flags w).0 ≡ ok fd
      → os.eventfd_raw fd < 2 ^ 31

-- No descriptor that is registered on an instance is closed, so none has a duplicate that outlives it.
-- This is what a program has to see to: no call of the crate checks it.
abbrev pub IsUnshared : {os : Os} → Kernel os → os.Epoll → Type 0
IsUnshared {os} kernel ep =
    (w : os.World) (fd : RawFd) (ev : os.EpollEvent)
    → kernel.interest ep w fd ≡ some ev
    → kernel.is_open w fd ≡ true

-- A descriptor that is routed to a subscriber, or is the channel's.
abbrev pub IsRouted : {os : Os} → RawFd → EpollWrapper os → RawFd → Type 0
IsRouted channel_fd wrapper fd =
    ((id : SubscriberId) × (subscriber_id wrapper fd ≡ some id)) ⊎ (fd ≡ channel_fd)

-- Every registration carries its own descriptor, and that is routed, or is the channel's.
abbrev pub InSync : {os : Os} → Kernel os → RawFd → EpollWrapper os → os.World → Type 0
InSync {os} kernel channel_fd wrapper world =
    (fd : RawFd) (ev : os.EpollEvent)
    → kernel.interest wrapper.epoll world fd ≡ some ev
    → (os.event_fd ev ≡ fd) × IsRouted channel_fd wrapper fd

-- What other code does to the world between two calls of the crate: it may close descriptors, which
-- takes them off the list, but it registers none on this epoll instance.
abbrev pub IsModest : {os : Os} → Kernel os → os.Epoll → (os.World → os.World) → Type 0
IsModest {os} kernel ep change =
    (w : os.World) (fd : RawFd) (ev : os.EpollEvent)
    → kernel.interest ep (change w) fd ≡ some ev
    → kernel.interest ep w fd ≡ some ev
