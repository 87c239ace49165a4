-- ===== src/Tests/Operations.antt =====
-- Each theorem about the operations on watch lists at a concrete input.
use event_manager.Prelude.{ℕ, ◌≡◌, refl, none, some, [], ◌∷◌, arith, count}
use event_manager.Prelude.HashMap
use event_manager.Events
use event_manager.Events.{Events}
use event_manager.Epoll
use event_manager.Epoll.{SubscriberId, subscriber_id, watched, remove_event}
use event_manager.Epoll.Consistent.{IsExact}
use event_manager.Epoll.Buffer.{AllDeliverable, remove_event-AllDeliverable}
use event_manager.Epoll.Flushed.{IsFlushed, remove-IsFlushed}
use event_manager.EventOps.{EventOps, removes, perform, add, remove, ops_unchecked, ctl}
use event_manager.EventOps.Consistent.{perform-IsExact}
use event_manager.EventOps.Branches.{remove-add}
use event_manager.EventOps.Flushed.{add-remove-IsFlushed}
use event_manager.EventOps.Foreign.{foreign_remove}
use event_manager.Kernel.{InSync}
use event_manager.Kernel.Synced.{perform-InSync}
use event_manager.Subscribers
use event_manager.Subscribers.Identifiers.{Call, ids_from, ids_from-new, count_up}
use event_manager.Manager.{context}
use event_manager.Tests.Kernel.{sim, sim_kernel}
use event_manager.Tests.Examples.{
  wrapper, machine, wrapper-IsExact, wrapper-IsConsistent, machine-deliverable, world-InSync,
}

-- The operations of subscriber 1, which watches descriptor 7, and of subscriber 2.
abbrev own : EventOps sim
own = record { context = context machine; subscriber_id = 1 }

abbrev foreign : EventOps sim
foreign = record { context = context machine; subscriber_id = 2 }

abbrev seven : Events sim
seven = record { inner = (1, 7) }

abbrev nine : Events sim
nine = record { inner = (1, 9) }

perform-IsExact_example : IsExact sim (perform (removes seven) own).1.wrapper
unfolding subscriber_id HashMap.get Events.fd
perform-IsExact_example = perform-IsExact (removes seven) own refl wrapper-IsExact

remove_event-AllDeliverable_example : AllDeliverable sim 2 4 (remove_event 7 wrapper)
remove_event-AllDeliverable_example = remove_event-AllDeliverable 7 4 2 wrapper machine-deliverable

remove-IsFlushed_example : IsFlushed sim 7 (Epoll.remove 1 (context machine)).wrapper
unfolding watched HashMap.get
remove-IsFlushed_example = remove-IsFlushed 1 (context machine) 7 refl

add-remove-IsFlushed_example :
    IsFlushed sim (Events.fd seven) (remove seven own).1.wrapper
    × IsFlushed sim (Events.fd seven) (add seven (remove seven own).1).1.wrapper
unfolding remove ctl Events.fd HashMap.get
add-remove-IsFlushed_example = add-remove-IsFlushed seven seven own refl

remove-add_example :
    (subscriber_id (remove nine (add nine own).1).1.wrapper 7 ≡ subscriber_id wrapper 7)
    × (count (watched (remove nine (add nine own).1).1.wrapper 1) 7 ≡ count (watched wrapper 1) 7)
unfolding add remove ctl Events.fd HashMap.get HashMap.contains_key HashMap.insert
remove-add_example = remove-add nine own refl refl 7 1

foreign_remove_example :
    (subscriber_id
        (add seven (ops_unchecked (remove seven foreign).1.context 3)).1.wrapper
        (Events.fd seven)
      ≡ some 3)
    × (subscriber_id
          (Epoll.remove 1
            (add seven (ops_unchecked (remove seven foreign).1.context 3)).1.context).wrapper
          (Events.fd seven)
        ≡ none)
unfolding add remove ctl remove_event ops_unchecked Events.fd HashMap.get HashMap.contains_key
    HashMap.insert HashMap.remove subscriber_id
foreign_remove_example =
    foreign_remove seven seven foreign 1 3 refl refl refl wrapper-IsConsistent refl refl

perform-InSync_example :
    InSync sim_kernel 4
      (perform (removes seven) own).1.wrapper
      (perform (removes seven) own).1.world
perform-InSync_example = perform-InSync sim_kernel 4 (removes seven) own world-InSync

ids_from-new_example :
    ids_from (Call.adds 5 ∷ Call.removes 1 ∷ Call.adds 5 ∷ []) (Subscribers.new {T = ℕ})
    ≡ count_up 1 2
ids_from-new_example = ids_from-new (Call.adds 5 ∷ Call.removes 1 ∷ Call.adds 5 ∷ []) (omega arith)
