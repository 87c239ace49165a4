-- ===== src/Subscribers/Identifiers.antt =====
-- The identifiers that a collection of subscribers gives out.
use event_manager.Prelude.{
  ℕ, ◌+◌, ◌-◌, ◌^◌, ◌<◌, ◌≡◌, refl, none, some, arith, ◌==◌, if◌then◌else◌, List, [], ◌∷◌, ◌∙◌, ap,
  suc, zero, Option-cases, inl, inr,
}
use event_manager.Prelude.HashMap
use event_manager.Prelude.HashMap.{get-insert, get-remove}
use event_manager.Epoll.{SubscriberId}
use event_manager.Subscribers.{Subscribers, new, add, remove, write_back}

-- A caller of the collection, by its sequence of calls.
pub data Call (T : Type 0) : Type 0 where
  adds : T → Call T
  removes : SubscriberId → Call T

module _ {T : Type 0} where
  pub get-add :
      (subscriber : T) (self : Subscribers T) (id : SubscriberId)
      → HashMap.get (add subscriber self).1.subscribers id
        ≡ (if self.next_id == id then some subscriber else HashMap.get self.subscribers id)
  unfolding add
  get-add subscriber self id = get-insert self.subscribers self.next_id subscriber id

  pub get-remove_lem :
      (removed : SubscriberId) (self : Subscribers T) (id : SubscriberId)
      → HashMap.get (remove removed self).1.subscribers id
        ≡ (if removed == id then none else HashMap.get self.subscribers id)
  unfolding remove
  get-remove_lem removed self id = get-remove self.subscribers removed id

  pub get-write_back :
      (written : SubscriberId) (subscriber : T) (self : Subscribers T) (id : SubscriberId)
      → HashMap.get (write_back written subscriber self).subscribers id
        ≡ (if written == id then some subscriber else HashMap.get self.subscribers id)
  unfolding write_back
  get-write_back written subscriber self id = get-insert self.subscribers written subscriber id

  -- Every identifier in use is below the counter.
  abbrev pub IsFresh : Subscribers T → Type 0
  IsFresh self =
      (id : SubscriberId) (t : T) → HashMap.get self.subscribers id ≡ some t → id < self.next_id

  pub add-IsFresh :
      (t : T) (self : Subscribers T)
      → self.next_id + 1 < 2 ^ 64
      → IsFresh self
      → IsFresh (add t self).1
  unfolding add
  add-IsFresh t self room h id u e = ground (arith, get-add t self id, h id u)

  remove-IsFresh :
      (removed : SubscriberId) (self : Subscribers T)
      → IsFresh self
      → IsFresh (remove removed self).1
  unfolding remove
  remove-IsFresh removed self h id u e = ground (arith, get-remove_lem removed self id, h id u)

  -- If every identifier in use is below the counter, the one that `add` gives out is not in use.
  pub add_unused :
      (t : T) (self : Subscribers T)
      → IsFresh self
      → HashMap.get self.subscribers (add t self).0 ≡ none
  unfolding add
  add_unused t self h = elim (Option-cases (HashMap.get self.subscribers self.next_id)) [
    | inl unused ↦ unused
    | inr (u, e) ↦ absurd (omega (arith, h self.next_id u e))
  ]

  -- The identifiers that a sequence of calls gives out.
  pub ids_from : List (Call T) → Subscribers T → List SubscriberId
  unfolding add remove
  ids_from [] self = []
  ids_from (adds t ∷ calls) self = let (id, self') = add t self in id ∷ ids_from calls self'
  ids_from (removes id ∷ calls) self = ids_from calls (remove id self).1

  abbrev pub adds_in : List (Call T) → ℕ
  adds_in [] = 0
  adds_in (adds _ ∷ calls) = suc (adds_in calls)
  adds_in (removes _ ∷ calls) = adds_in calls

abbrev pub count_up : ℕ → ℕ → List ℕ
count_up first zero = []
count_up first (suc n) = first ∷ count_up (first + 1) n

module _ {T : Type 0} where
  ids_from_lem :
      (calls : List (Call T)) (self : Subscribers T)
      → self.next_id + adds_in calls < 2 ^ 64
      → ids_from calls self ≡ count_up self.next_id (adds_in calls)
  unfolding ids_from add remove
  ids_from_lem [] self room = refl
  ids_from_lem (adds t ∷ calls) self room =
      ap (λ ids. self.next_id ∷ ids)
        (ids_from_lem calls (add t self).1 (omega arith)
          ∙ ap (λ first. count_up first (adds_in calls)) (omega arith))
  ids_from_lem (removes id ∷ calls) self room = ids_from_lem calls _ room

  -- A new collection numbers the subscribers that are added 1, 2, 3, …, whatever is removed in
  -- between, if they are fewer than 2 ^ 64 - 1.
  pub ids_from-new :
      (calls : List (Call T))
      → adds_in calls < 2 ^ 64 - 1
      → ids_from calls new ≡ count_up 1 (adds_in calls)
  unfolding new
  ids_from-new calls room = ids_from_lem calls _ (omega arith)
