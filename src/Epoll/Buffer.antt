-- ===== src/Epoll/Buffer.antt =====
-- The buffer of ready events under `remove_event`, and the events that `dispatch_events` can route.
use event_manager.Prelude.{
  ℕ, ◌<◌, ◌≡◌, ◌⊎◌, inl, inr, refl, true, Bool, ◌&&◌, some, map, length, length-map, arith,
  get_elem?, get_elem?-map, Option-cases, Bool-cases, ◌==◌, subst,
}
use mathlib.Core.Option
use event_manager.Os.{Os, RawFd}
use event_manager.Epoll.{SubscriberId, EpollWrapper, discard, remove_event, subscriber_id}
use event_manager.Epoll.Dispatch.{subscriber_id-remove_event}

-- The test of `dispatch_events` for an event that has been discarded.
abbrev pub is_discarded : (os : Os) → os.EpollEvent → Bool
is_discarded os ev =
    os.event_bits ev == os.event_bits os.event_default
    && os.event_fd ev == os.event_fd os.event_default

-- An event that is discarded, or routed to a subscriber, or says that the channel's descriptor can
-- be read.
abbrev pub IsDeliverable : (os : Os) → EpollWrapper os → RawFd → os.EpollEvent → Type 0
IsDeliverable os w channel_fd ev =
    (is_discarded os ev ≡ true)
    ⊎ (((id : SubscriberId) × (subscriber_id w (os.event_fd ev) ≡ some id))
        ⊎ ((os.event_fd ev ≡ channel_fd) × (os.event_set ev ≡ os.set_in)))

-- So is each of the first `count` events of the buffer.
abbrev pub AllDeliverable : (os : Os) → ℕ → RawFd → EpollWrapper os → Type 0
AllDeliverable os count channel_fd w =
    (i : ℕ) (ev : os.EpollEvent)
    → i < count
    → get_elem? w.ready_events i ≡ some ev
    → IsDeliverable os w channel_fd ev

module _ {os : Os} where
  ready_events-remove_event :
      (fd : RawFd) (w : EpollWrapper os)
      → (remove_event fd w).ready_events ≡ map (discard os fd) w.ready_events
  unfolding remove_event
  ready_events-remove_event fd w = refl

  pub length-remove_event :
      (fd : RawFd) (w : EpollWrapper os)
      → length (remove_event fd w).ready_events ≡ length w.ready_events
  unfolding remove_event
  length-remove_event fd w = length-map (discard os fd) w.ready_events

  -- An entry of the flushed buffer is the discarded entry of the old one.
  pub get_elem?-remove_event :
      (fd : RawFd) (w : EpollWrapper os) (i : ℕ)
      → get_elem? (remove_event fd w).ready_events i
        ≡ Option.map (discard os fd) (get_elem? w.ready_events i)
  unfolding remove_event
  get_elem?-remove_event fd w i = get_elem?-map (discard os fd) w.ready_events i

  discard-IsDeliverable :
      (fd channel_fd : RawFd) (w : EpollWrapper os) (ev : os.EpollEvent)
      → IsDeliverable os w channel_fd ev
      → IsDeliverable os (remove_event fd w) channel_fd (discard os fd ev)
  unfolding discard
  discard-IsDeliverable fd channel_fd w ev (inl h) = ground arith
  discard-IsDeliverable fd channel_fd w ev (inr (inl (id, h))) =
      elim (Bool-cases (os.event_fd ev == fd)) [
        | inl hit ↦ inl (ground arith)
        | inr miss ↦
            inr (inl (id, ground (arith, subscriber_id-remove_event fd (os.event_fd ev) w)))
      ]
  discard-IsDeliverable fd channel_fd w ev (inr (inr h)) = ground arith

  -- If each of the first events of the buffer is discarded, routed or the channel's, then the same
  -- holds after `remove_event`: it discards the events that it unroutes.
  pub remove_event-AllDeliverable :
      (fd channel_fd : RawFd) (count : ℕ) (w : EpollWrapper os)
      → AllDeliverable os count channel_fd w
      → AllDeliverable os count channel_fd (remove_event fd w)
  remove_event-AllDeliverable fd channel_fd count w all i ev lt e =
      elim (Option-cases (get_elem? w.ready_events i)) [
        | inl missing ↦ ground (arith, get_elem?-remove_event fd w i)
        | inr (old, found) ↦
            subst (IsDeliverable os (remove_event fd w) channel_fd)
              (ground (arith, get_elem?-remove_event fd w i))
              (discard-IsDeliverable fd channel_fd w old (all i old lt found))
      ]
