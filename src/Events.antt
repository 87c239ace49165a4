-- ===== src/Events.antt =====
-- `Events` of src/events.rs: an `EpollEvent` whose 64 bits of data hold a file descriptor in the
-- low half and the user's data in the high half. Arithmetic wraps, as in a release build.
pub mod RoundTrip
use event_manager.Prelude.{ℕ, ◌+◌, ◌-◌, ◌*◌, ◌/◌, ◌%◌, ◌^◌, Bool, ◌&&◌, ltb, ◌==◌, if◌then◌else◌}
use event_manager.Os.{Os, RawFd, EventSet}

-- `std::os::unix::io::AsRawFd`
pub record AsRawFd (T : Type 0) : Type 0 where
  pub as_raw_fd : T → RawFd

-- `source as u64` of an `i32`: the sign bit is extended.
abbrev pub as_u64 : RawFd → ℕ
as_u64 fd = if ltb fd (2 ^ 31) then fd else fd + (2 ^ 64 - 2 ^ 32)

pub record Events (os : Os) : Type 0 where
  pub inner : os.EpollEvent

module _ {os : Os} where
  unfoldable pub with_inner : os.EpollEvent → Events os
  with_inner inner = record { inner = inner }

  -- `((data as u64) << 32) + (source as u64)`
  unfoldable pub with_data_raw : RawFd → ℕ → EventSet → Events os
  with_data_raw source user_data events =
      let inner_data = (user_data * 2 ^ 32 + as_u64 source) % 2 ^ 64 in
      record { inner = os.event_new events inner_data }

  unfoldable pub new_raw : RawFd → EventSet → Events os
  unfolding with_data_raw
  new_raw source events = with_data_raw source 0 events

  unfoldable pub empty_raw : RawFd → Events os
  unfolding new_raw
  empty_raw fd = new_raw fd os.set_empty

  unfoldable pub fd : Events os → RawFd
  fd self = os.event_data self.inner % 2 ^ 32

  unfoldable pub user_data : Events os → ℕ
  user_data self = os.event_data self.inner / 2 ^ 32 % 2 ^ 32

  unfoldable pub event_set : Events os → EventSet
  event_set self = os.event_set self.inner

  unfoldable pub epoll_event : Events os → os.EpollEvent
  epoll_event self = self.inner

  -- `PartialEq::eq`
  unfoldable pub eq : Events os → Events os → Bool
  unfolding fd user_data event_set
  eq self other =
      fd self == fd other && user_data self == user_data other && event_set self == event_set other

module _ {os : Os} {T : Type 0} ⦃source_fd : AsRawFd T⦄ where
  unfoldable pub with_data : T → ℕ → EventSet → Events os
  unfolding with_data_raw
  with_data source user_data events = with_data_raw (source_fd.as_raw_fd source) user_data events

  unfoldable pub new : T → EventSet → Events os
  unfolding new_raw
  new source events = new_raw (source_fd.as_raw_fd source) events

  unfoldable pub empty : T → Events os
  unfolding empty_raw
  empty source = empty_raw (source_fd.as_raw_fd source)
