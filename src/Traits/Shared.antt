-- ===== src/Traits/Shared.antt =====
-- `EventSubscriber` for a RefCell and a Mutex that are shared, in lib.rs: their value lies in the
-- memory of the process, which the world holds.
use event_manager.Prelude.{◌≡◌, true, false, if◌then◌else◌}
use event_manager.Os.{Os}
use event_manager.EventOps.{with_world}
use event_manager.Handler.{bind_handler, Handler, EventSubscriber, MutEventSubscriber, Scope}
use event_manager.Traits.{RefCell, Mutex}

-- A place in memory.
pub record Location (os : Os) (V : Type 0) : Type 0 where
  pub load : os.World → V
  pub store : V → os.World → os.World

-- Memory keeps what is stored, and storing what is there changes nothing.
pub record LocationLaws {os : Os} {V : Type 0} (place : Location os V) : Type 0 where
  pub load-store : (v : V) (w : os.World) → place.load (place.store v w) ≡ v
  pub store-load : (w : os.World) → place.store (place.load w) w ≡ w

-- A mutex that is shared: `acquire` is what other threads do until it is free.
pub record SharedMutex (os : Os) (T : Type 0) : Type 0 where
  pub cell : Location os (Mutex T)
  pub acquire : os.World → os.World

module _ {os : Os} {S R : Type 0} where
  -- The scope in another world.
  abbrev pub in_world : Scope os S R → os.World → Scope os S R
  in_world self world = record self { ops = with_world self.ops world }

  module _ {T : Type 0} where
    -- `borrow_mut`, what is done to the value, and the end of the borrow.
    unfoldable pub with_borrow_mut :
        Location os (RefCell T) → (T → Handler os S R T) → Handler os S R (Unit {0})
    unfolding bind_handler
    with_borrow_mut self body =
        Handler.effect (λ w. self.store (record (self.load w) { borrowed = true }) w)
          (λ w.
            if (self.load w).borrowed
            then Handler.panics
            else bind_handler (body (self.load w).value) (λ t.
              Handler.effect (self.store (record { value = t; borrowed = false }))
                (λ _. Handler.done tt)))

    -- `lock().unwrap()`, what is done to the value, and the release of the lock.
    unfoldable pub with_lock : SharedMutex os T → (T → Handler os S R T) → Handler os S R (Unit {0})
    unfolding bind_handler
    with_lock self body = Handler.effect self.acquire (λ before.
        let locked = self.cell.load (self.acquire before) in
        if locked.poisoned
        then Handler.panics
        else bind_handler (body locked.value) (λ t.
          Handler.effect (self.cell.store (record { value = t; poisoned = false }))
            (λ _. Handler.done tt)))

    unfoldable pub refcell_event_subscriber :
        MutEventSubscriber os S R T → EventSubscriber os S R (Location os (RefCell T))
    unfolding with_borrow_mut
    refcell_event_subscriber sub = record {
      process = λ self events. with_borrow_mut self (λ t. sub.process t events);
      init = λ self. with_borrow_mut self sub.init;
    }

    unfoldable pub mutex_event_subscriber :
        MutEventSubscriber os S R T → EventSubscriber os S R (SharedMutex os T)
    unfolding with_lock
    mutex_event_subscriber sub = record {
      process = λ self events. with_lock self (λ t. sub.process t events);
      init = λ self. with_lock self sub.init;
    }
