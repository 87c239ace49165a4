-- ===== src/EventOps/Table.antt =====
-- `EventOps` and the removal of a subscriber as operations on one table: a partial map from the
-- descriptors to the subscriber that each is routed to and the event that it is registered with.
pub mod Refines
pub mod Run
use event_manager.Prelude.{
  ◌≡◌, Bool, false, Option, none, some, Result, ok, err, ◌==◌, if◌then◌else◌,
}
use event_manager.Os.{Os, RawFd}
use event_manager.Error.{Error, fd_already_registered}
use event_manager.Events
use event_manager.Events.{Events}
use event_manager.Epoll.{SubscriberId, Context, subscriber_id}
use event_manager.EventOps.{Request, adds, modifies, removes}
use event_manager.Kernel.{Kernel}

abbrev pub Table : Type 0 → Type 0
Table Event = RawFd → Option (SubscriberId × Event)

module _ {Event : Type 0} where
  -- The entry of a descriptor: its route, and its registration.
  abbrev pub entry : Option SubscriberId → Option Event → Option (SubscriberId × Event)
  entry none registered = none
  entry (some id) none = none
  entry (some id) (some event) = some (id, event)

  abbrev pub has_owner : SubscriberId → Option (SubscriberId × Event) → Bool
  has_owner id none = false
  has_owner id (some (owner, event)) = owner == id

  -- An entry with another event.
  abbrev pub with_event : Event → Option (SubscriberId × Event) → Option (SubscriberId × Event)
  with_event event none = none
  with_event event (some (owner, old)) = some (owner, event)

  -- What the removal of a subscriber does to the table.
  abbrev pub dropped : SubscriberId → Table Event → Table Event
  dropped id t = λ fd. if has_owner id (t fd) then none else t fd

-- The table that the code and the kernel keep together.
abbrev pub table : {os : Os} → Kernel os → Context os → Table os.EpollEvent
table kernel c fd = entry (subscriber_id c.wrapper fd) (kernel.interest c.epoll c.world fd)

module _ {os : Os} where
  -- What a request does to the table, when it is answered.
  abbrev pub answered :
      SubscriberId
      → Request os
      → Result (Unit {0}) (Error os)
      → Table os.EpollEvent
      → Table os.EpollEvent
  answered id r (err e) t = t
  answered id (adds e) (ok _) t =
      λ fd. if Events.fd e == fd then some (id, Events.epoll_event e) else t fd
  answered id (modifies e) (ok _) t =
      λ fd. if Events.fd e == fd then with_event (Events.epoll_event e) (t fd) else t fd
  answered id (removes e) (ok _) t = λ fd. if Events.fd e == fd then none else t fd

  -- A subscriber may remove the descriptors that are its own.
  abbrev pub IsPermitted : SubscriberId → Request os → Table os.EpollEvent → Type 0
  IsPermitted id (adds e) t = Unit
  IsPermitted id (modifies e) t = Unit
  IsPermitted id (removes e) t = (event : os.EpollEvent) × (t (Events.fd e) ≡ some (id, event))

  -- A descriptor that is in the table is not added again.
  abbrev pub IsRefused : Request os → Result (Unit {0}) (Error os) → Table os.EpollEvent → Type 0
  IsRefused (adds e) answer t =
      (entry : SubscriberId × os.EpollEvent)
      → t (Events.fd e) ≡ some entry
      → answer ≡ err fd_already_registered
  IsRefused (modifies e) answer t = Unit
  IsRefused (removes e) answer t = Unit

-- A call of one subscriber, or the removal of one.
pub data Command (os : Os) : Type 0 where
  asks : SubscriberId → Request os → Command os
  drops : SubscriberId → Command os
