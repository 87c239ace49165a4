-- ===== src/Subscribers.antt =====
-- `Subscribers` of src/subscribers.rs: the registered subscribers under their identifiers.
pub mod Identifiers
use event_manager.Prelude.{ℕ, ◌+◌, ◌%◌, ◌^◌, Bool, Option, none, some, [], Outcome, unwrap}
use event_manager.Prelude.HashMap
use event_manager.Prelude.HashMap.{HashMap}
use event_manager.Epoll.{SubscriberId}

pub record Subscribers (T : Type 0) : Type 0 where
  pub subscribers : HashMap T
  pub next_id : ℕ

module _ {T : Type 0} where
  unfoldable pub new : Subscribers T
  new = record { subscribers = []; next_id = 1 }

  -- The counter is a `u64`, and wraps as in a release build.
  unfoldable pub add : T → Subscribers T → SubscriberId × Subscribers T
  add subscriber self = (
    self.next_id,
    record {
      subscribers = HashMap.insert self.subscribers self.next_id subscriber;
      next_id = (self.next_id + 1) % 2 ^ 64;
    },
  )

  unfoldable pub remove : SubscriberId → Subscribers T → Option T × Subscribers T
  remove subscriber_id self = (
    HashMap.get self.subscribers subscriber_id,
    record self { subscribers = HashMap.remove self.subscribers subscriber_id },
  )

  unfoldable pub contains : SubscriberId → Subscribers T → Bool
  contains subscriber_id self = HashMap.contains_key self.subscribers subscriber_id

  -- Reading through the reference that `get_mut_unchecked` returns; it panics where there is none.
  unfoldable pub get_mut_unchecked : SubscriberId → Subscribers T → Outcome T
  get_mut_unchecked subscriber_id self = unwrap (HashMap.get self.subscribers subscriber_id)

  -- Writing through that reference.
  unfoldable pub write_back : SubscriberId → T → Subscribers T → Subscribers T
  write_back subscriber_id subscriber self = record self {
    subscribers = HashMap.insert self.subscribers subscriber_id subscriber;
  }
