-- ===== src/Events/RoundTrip.antt =====
-- Encoding and decoding of the 64-bit data of `Events`, for descriptors of either sign.
use event_manager.Prelude.{
  ℕ, ◌+◌, ◌-◌, ◌*◌, ◌%◌, ◌^◌, ◌<◌, ◌≡◌, ◌↔◌, ltb, if◌then◌else◌, ◌∙◌, true, arith,
}
use event_manager.Os.{Os, RawFd, EventSet, EpollEventLaws}
use event_manager.Events.{as_u64, with_data_raw, fd, user_data, event_set, eq}

module _ {os : Os} (laws : EpollEventLaws os) where
  inner_data :
      (source : RawFd) (value : ℕ) (events : EventSet)
      → os.event_data (with_data_raw {os = os} source value events).inner
        ≡ (value * 2 ^ 32 + as_u64 source) % 2 ^ 64
  unfolding with_data_raw
  inner_data source value events = laws.data_of_new events _ ∙ omega arith

  -- The file descriptor comes back from the encoding whatever its sign, and so does the event set.
  pub fd-with_data_raw :
      (source : RawFd) (value : ℕ) (events : EventSet)
      → source < 2 ^ 32
      → (fd (with_data_raw {os = os} source value events) ≡ source)
        × (event_set (with_data_raw {os = os} source value events) ≡ events)
  unfolding fd event_set with_data_raw
  fd-with_data_raw source value events hs =
      (ground (arith, inner_data source value events), laws.set_of_new events _)

  -- The user's data comes back where the file descriptor is not negative.
  pub user_data-with_data_raw :
      (source : RawFd) (value : ℕ) (events : EventSet)
      → source < 2 ^ 31
      → value < 2 ^ 32
      → user_data (with_data_raw {os = os} source value events) ≡ value
  unfolding user_data
  user_data-with_data_raw source value events hs hv = ground (arith, inner_data source value events)

  -- The user's data comes back from the 64-bit encoding exactly where the file descriptor is not
  -- negative. For a negative one the sign extension takes one off it, modulo 2 ^ 32.
  pub user_data_cases :
      (source : RawFd) (value : ℕ) (events : EventSet)
      → source < 2 ^ 32
      → value < 2 ^ 32
      → (user_data (with_data_raw {os = os} source value events)
          ≡ (if ltb source (2 ^ 31) then value else (value + 2 ^ 32 - 1) % 2 ^ 32))
        × ((user_data (with_data_raw {os = os} source value events) ≡ value) ↔ (source < 2 ^ 31))
  unfolding user_data
  user_data_cases source value events hs hv = (
    ground (arith, inner_data source value events),
    ground (arith, inner_data source value events),
  )

  -- Two `Events` built from valid parts compare equal exactly when all three parts are equal.
  pub eq-with_data_raw :
      (a b : RawFd) (v w : ℕ) (s t : EventSet)
      → a < 2 ^ 31
      → b < 2 ^ 31
      → v < 2 ^ 32
      → w < 2 ^ 32
      → (eq (with_data_raw {os = os} a v s) (with_data_raw b w t) ≡ true)
        ↔ ((a ≡ b) × (v ≡ w) × (s ≡ t))
  unfolding eq
  eq-with_data_raw a b v w s t ha hb hv hw = ground (
    arith,
    fd-with_data_raw a v s (omega arith),
    fd-with_data_raw b w t (omega arith),
    user_data-with_data_raw a v s ha hv,
    user_data-with_data_raw b w t hb hw,
  )
