-- ===== src/Epoll/Flushed.antt =====
-- The events that the buffer still holds for a descriptor when it is removed.
use event_manager.Prelude.{
  ℕ, ◌≡◌, true, some, List, [], ◌∷◌, arith, get_elem?, contains, Option-cases, Bool-cases, inl, inr,
  ◌==◌,
}
use event_manager.Os.{Os, RawFd}
use event_manager.Epoll.{
  SubscriberId, EpollWrapper, Context, discard, remove_event, remove_fd, remove_fds, remove,
  watched,
}
use event_manager.Epoll.Buffer.{get_elem?-remove_event, is_discarded}

-- Every event of the buffer with this descriptor is a discarded one.
abbrev pub IsFlushed : (os : Os) → RawFd → EpollWrapper os → Type 0
IsFlushed os fd w =
    (i : ℕ) (ev : os.EpollEvent)
    → get_elem? w.ready_events i ≡ some ev
    → os.event_fd ev ≡ fd
    → is_discarded os ev ≡ true

eq_of_test : (j fd : ℕ) → (j == fd) ≡ true → j ≡ fd
eq_of_test j fd hit = ground arith

module _ {os : Os} where
  pub remove_event-IsFlushed :
      (fd : RawFd) (w : EpollWrapper os) → IsFlushed os fd (remove_event fd w)
  unfolding discard
  remove_event-IsFlushed fd w i ev e same = elim (Option-cases (get_elem? w.ready_events i)) [
    | inl missing ↦ ground (arith, get_elem?-remove_event fd w i)
    | inr (old, found) ↦ elim (Bool-cases (os.event_fd old == fd)) [
      | inl hit ↦ ground (arith, get_elem?-remove_event fd w i)
      | inr miss ↦ ground (arith, get_elem?-remove_event fd w i)
    ]
  ]

  -- Discarding the events of another descriptor leaves them discarded.
  pub remove_event-keeps-IsFlushed :
      (fd j : RawFd) (w : EpollWrapper os) → IsFlushed os fd w → IsFlushed os fd (remove_event j w)
  unfolding discard
  remove_event-keeps-IsFlushed fd j w flushed i ev e same =
      elim (Option-cases (get_elem? w.ready_events i)) [
        | inl missing ↦ ground (arith, get_elem?-remove_event j w i)
        | inr (old, found) ↦ ground (arith, get_elem?-remove_event j w i, flushed i old found)
      ]

  remove_fds-keeps-IsFlushed :
      (fds : List RawFd) (fd : RawFd) (c : Context os)
      → IsFlushed os fd c.wrapper
      → IsFlushed os fd (remove_fds fds c).wrapper
  unfolding remove_fds remove_fd
  remove_fds-keeps-IsFlushed [] fd c flushed = flushed
  remove_fds-keeps-IsFlushed (j ∷ fds) fd c flushed =
      remove_fds-keeps-IsFlushed fds fd (remove_fd j c)
        (remove_event-keeps-IsFlushed fd j c.wrapper flushed)

  remove_fds-IsFlushed :
      (fds : List RawFd) (fd : RawFd) (c : Context os)
      → contains fds fd ≡ true
      → IsFlushed os fd (remove_fds fds c).wrapper
  unfolding remove_fds remove_fd
  remove_fds-IsFlushed [] fd c listed = absurd (ground arith)
  remove_fds-IsFlushed (j ∷ fds) fd c listed = elim (Bool-cases (j == fd)) [
    | inl hit ↦
        remove_fds-keeps-IsFlushed fds fd (remove_fd j c)
          (rw⁻¹ (eq_of_test j fd hit) (remove_event-IsFlushed j c.wrapper))
    | inr miss ↦ remove_fds-IsFlushed fds fd (remove_fd j c) (ground arith)
  ]

  -- After a subscriber is removed, every event that the buffer holds for a descriptor on its watch
  -- list is a discarded one.
  pub remove-IsFlushed :
      (id : SubscriberId) (c : Context os) (fd : RawFd)
      → contains (watched c.wrapper id) fd ≡ true
      → IsFlushed os fd (remove id c).wrapper
  unfolding remove
  remove-IsFlushed id c fd listed = remove_fds-IsFlushed (watched c.wrapper id) fd _ listed
