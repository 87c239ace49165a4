-- ===== src/Utilities/Counting.antt =====
-- What the counting subscribers count.
use event_manager.Prelude.{
  if_true, if_false, ℕ, zero, suc, ◌+◌, ◌-◌, ◌%◌, ◌^◌, ◌<◌, ◌≡◌, refl, sym, subst, ◌∙◌, true, false,
  List, [], ◌∷◌, Returns, arith, ◌==◌,
}
use event_manager.Os.{Os, RawFd, EpollEventLaws}
use event_manager.Events
use event_manager.Events.{Events}
use event_manager.Events.RoundTrip.{user_data-with_data_raw, fd-with_data_raw}
use event_manager.Handler.{Handler, Scope, run_handler}
use event_manager.Utilities.{
  CounterSubscriberWithData, increment, count_data, match_with_data, process_with_data,
  get_all_counter_values,
}

spurious : (i k : ℕ) → k < 3 → (suc (suc (suc i)) == k) ≡ false
spurious i k h = ground arith

-- One more at an index of a list, and nothing beyond its end.
abbrev pub bump : List ℕ → ℕ → List ℕ
bump [] i = []
bump (n ∷ ns) zero = (n + 1) % 2 ^ 64 ∷ ns
bump (n ∷ ns) (suc i) = n ∷ bump ns i

module _ {os : Os} (laws : EpollEventLaws os) where
  event_id_lem :
      (fd : RawFd) (first i : ℕ)
      → first < 2 ^ 32
      → fd < 2 ^ 31
      → i < 2 ^ 32
      → (Events.user_data (Events.with_data_raw {os = os} fd ((first + i) % 2 ^ 32) os.set_in)
            + 2 ^ 32
            - first)
          % 2 ^ 32
        ≡ i
  event_id_lem fd first i f low bound =
      omega
        (arith, user_data-with_data_raw laws fd ((first + i) % 2 ^ 32) os.set_in low (omega arith))

  -- The data is the number of the counter, after the first.
  pub count_data_lem :
      (self : CounterSubscriberWithData os) (fd : RawFd) (i : ℕ)
      → self.first_data < 2 ^ 32
      → fd < 2 ^ 31
      → i < 2 ^ 32
      → get_all_counter_values
          (count_data (Events.with_data_raw fd ((self.first_data + i) % 2 ^ 32) os.set_in) self)
        ≡ bump (get_all_counter_values self) i
  unfolding count_data increment get_all_counter_values
  count_data_lem self fd zero first low bound =
      rw (event_id_lem fd self.first_data 0 first low bound, count_data)
  count_data_lem self fd (suc zero) first low bound =
      rw (event_id_lem fd self.first_data 1 first low bound, count_data)
  count_data_lem self fd (suc (suc zero)) first low bound =
      rw (event_id_lem fd self.first_data 2 first low bound, count_data)
  count_data_lem self fd (suc (suc (suc i))) first low bound = rw (
    event_id_lem fd self.first_data (suc (suc (suc i))) first low bound,
    spurious i 0 (omega arith),
    spurious i 1 (omega arith),
    spurious i 2 (omega arith),
    count_data,
  )

module _ {os : Os} {S R : Type 0} (laws : EpollEventLaws os) where
  input_counts :
      (s : CounterSubscriberWithData os) (events : Events os)
      → s.toggle_registry ≡ false
      → (Events.event_set events == os.set_in) ≡ true
      → process_with_data {S = S} {R = R} s events ≡ Handler.done (count_data events s)
  unfolding process_with_data match_with_data
  input_counts s events off input = if_false s.toggle_registry _ _ off ∙ if_true _ _ _ input

  -- An event that is registered with the data of a subscriber's counter, on a descriptor that is not
  -- negative, adds one to that counter, modulo 2 ^ 64, and to no other; any other data changes none.
  -- The body returns, and leaves its watch list, the channel and the world alone.
  pub process_with_data-counts :
      (s : CounterSubscriberWithData os) (fd : RawFd) (i : ℕ) (self : Scope os S R)
      → s.toggle_registry ≡ false
      → s.first_data < 2 ^ 32
      → fd < 2 ^ 31
      → i < 2 ^ 32
      → Returns
          (λ left.
            (get_all_counter_values left.0 ≡ bump (get_all_counter_values s) i) × (left.1 ≡ self))
          (run_handler
            (process_with_data s (Events.with_data_raw fd ((s.first_data + i) % 2 ^ 32) os.set_in))
            self)
  unfolding run_handler
  process_with_data-counts s fd i self off first low bound =
      let events = Events.with_data_raw {os = os} fd ((s.first_data + i) % 2 ^ 32) os.set_in in
      let input : (Events.event_set events == os.set_in) ≡ true =
        ground
          (arith, fd-with_data_raw laws fd ((s.first_data + i) % 2 ^ 32) os.set_in (omega arith)) in
      subst
        (λ h.
          Returns
            (λ left.
              (get_all_counter_values left.0 ≡ bump (get_all_counter_values s) i) × (left.1 ≡ self))
            (run_handler h self))
        (sym (input_counts s events off input)) (count_data_lem laws s fd i first low bound, refl)
