-- ===== src/Traits.antt =====
-- The implementations of `EventSubscriber` and `MutEventSubscriber` in lib.rs for the pointers and
-- cells of the standard library: each forwards to the subscriber inside.
pub mod Shared
pub mod Cells
use event_manager.Prelude.{
  ◌≡◌, refl, ap, Bool, true, false, if◌then◌else◌, Outcome, returned, panicked, ◌>>=◌,
}
use event_manager.Os.{Os}
use event_manager.Events.{Events}
use event_manager.Handler.{Handler, EventSubscriber, MutEventSubscriber, Scope, run_handler}

-- `Arc`, `Rc` and `Box`: a value behind a pointer.
pub record Arc (T : Type 0) : Type 0 where
  pub deref : T

pub record Rc (T : Type 0) : Type 0 where
  pub deref : T

pub record Box (T : Type 0) : Type 0 where
  pub deref : T

-- `RefCell` and `Mutex`: `borrow_mut` panics where the value is borrowed, and `get_mut().unwrap()`
-- where another user of the mutex has panicked while holding it.
pub record RefCell (T : Type 0) : Type 0 where
  pub value : T
  pub borrowed : Bool

pub record Mutex (T : Type 0) : Type 0 where
  pub value : T
  pub poisoned : Bool

module _ {os : Os} {S R : Type 0} where
  -- The same body, with its result changed.
  unfoldable pub map_handler : {A B : Type 0} → (A → B) → Handler os S R A → Handler os S R B
  map_handler f (Handler.done a) = Handler.done (f a)
  map_handler f Handler.panics = Handler.panics
  map_handler f (Handler.request r k) = Handler.request r (λ x. map_handler f (k x))
  map_handler f (Handler.send g reply k) = Handler.send g reply (λ x. map_handler f (k x))
  map_handler f (Handler.effect change k) = Handler.effect change (λ w. map_handler f (k w))

  module _ {T : Type 0} where
    unfoldable pub arc_event_subscriber : EventSubscriber os S R T → EventSubscriber os S R (Arc T)
    arc_event_subscriber sub = record {
      process = λ self events. sub.process self.deref events;
      init = λ self. sub.init self.deref;
    }

    unfoldable pub arc_mut_event_subscriber :
        EventSubscriber os S R T → MutEventSubscriber os S R (Arc T)
    unfolding map_handler
    arc_mut_event_subscriber sub = record {
      process = λ self events. map_handler (λ _. self) (sub.process self.deref events);
      init = λ self. map_handler (λ _. self) (sub.init self.deref);
    }

    unfoldable pub rc_event_subscriber : EventSubscriber os S R T → EventSubscriber os S R (Rc T)
    rc_event_subscriber sub = record {
      process = λ self events. sub.process self.deref events;
      init = λ self. sub.init self.deref;
    }

    unfoldable pub rc_mut_event_subscriber :
        EventSubscriber os S R T → MutEventSubscriber os S R (Rc T)
    unfolding map_handler
    rc_mut_event_subscriber sub = record {
      process = λ self events. map_handler (λ _. self) (sub.process self.deref events);
      init = λ self. map_handler (λ _. self) (sub.init self.deref);
    }

    unfoldable pub box_event_subscriber : EventSubscriber os S R T → EventSubscriber os S R (Box T)
    box_event_subscriber sub = record {
      process = λ self events. sub.process self.deref events;
      init = λ self. sub.init self.deref;
    }

    unfoldable pub box_mut_event_subscriber :
        MutEventSubscriber os S R T → MutEventSubscriber os S R (Box T)
    unfolding map_handler
    box_mut_event_subscriber sub = record {
      process =
          λ self events. map_handler (λ t. record { deref = t }) (sub.process self.deref events);
      init = λ self. map_handler (λ t. record { deref = t }) (sub.init self.deref);
    }

    unfoldable pub refcell_mut_event_subscriber :
        MutEventSubscriber os S R T → MutEventSubscriber os S R (RefCell T)
    unfolding map_handler
    refcell_mut_event_subscriber sub = record {
      process = λ self events.
          if self.borrowed
          then Handler.panics
          else map_handler (λ t. record self { value = t }) (sub.process self.value events);
      init = λ self.
          if self.borrowed
          then Handler.panics
          else map_handler (λ t. record self { value = t }) (sub.init self.value);
    }

    unfoldable pub mutex_mut_event_subscriber :
        MutEventSubscriber os S R T → MutEventSubscriber os S R (Mutex T)
    unfolding map_handler
    mutex_mut_event_subscriber sub = record {
      process = λ self events.
          if self.poisoned
          then Handler.panics
          else map_handler (λ t. record self { value = t }) (sub.process self.value events);
      init = λ self.
          if self.poisoned
          then Handler.panics
          else map_handler (λ t. record self { value = t }) (sub.init self.value);
    }
