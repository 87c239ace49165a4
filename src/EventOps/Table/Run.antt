-- ===== src/EventOps/Table/Run.antt =====
-- Any sequence of requests of the subscribers and of removals of subscribers.
use event_manager.Prelude.{◌≡◌, refl, sym, subst, fun_ext, List, [], ◌∷◌, Result, ok}
use event_manager.Os.{Os}
use event_manager.Error.{Error}
use event_manager.Epoll
use event_manager.Epoll.{Context}
use event_manager.Epoll.Consistent.{IsExact, remove-IsExact}
use event_manager.EventOps.{perform, ops_unchecked}
use event_manager.EventOps.Consistent.{perform-IsExact}
use event_manager.EventOps.Table.{
  Table, table, answered, dropped, IsPermitted, IsRefused, Command, asks, drops,
}
use event_manager.EventOps.Table.Refines.{
  perform-answered, perform-IsRefused, owned_of_permitted, remove-dropped,
}
use event_manager.Kernel.{Kernel}

-- A call, and what it answered; the removal of a subscriber answers nothing.
abbrev pub Answered : Os → Type 0
Answered os = Command os × Result (Unit {0}) (Error os)

module _ {os : Os} where
  -- The calls on the code.
  unfoldable pub obey : Command os → Context os → Result (Unit {0}) (Error os) × Context os
  obey (asks id r) c = let (answer, ops) = perform r (ops_unchecked c id) in (answer, ops.context)
  obey (drops id) c = (ok tt, Epoll.remove id c)

  unfoldable pub run_commands : List (Command os) → Context os → List (Answered os) × Context os
  unfolding obey
  run_commands [] c = ([], c)
  run_commands (x ∷ xs) c =
      let (answer, c') = obey x c in
      let (rest, left) = run_commands xs c' in ((x, answer) ∷ rest, left)

  -- The same calls, on the table, with the answers that they had.
  abbrev pub step : Answered os → Table os.EpollEvent → Table os.EpollEvent
  step (asks id r, answer) t = answered id r answer t
  step (drops id, answer) t = dropped id t

  unfoldable pub replay : List (Answered os) → Table os.EpollEvent → Table os.EpollEvent
  replay [] t = t
  replay (x ∷ xs) t = replay xs (step x t)

  -- Subscribers remove what the table gives them only.
  abbrev pub AllPermitted : List (Answered os) → Table os.EpollEvent → Type 0
  AllPermitted [] t = Unit
  AllPermitted ((asks id r, answer) ∷ xs) t =
      IsPermitted id r t × AllPermitted xs (answered id r answer t)
  AllPermitted ((drops id, answer) ∷ xs) t = AllPermitted xs (dropped id t)

  -- What the table has is not added again.
  abbrev pub AllRefused : List (Answered os) → Table os.EpollEvent → Type 0
  AllRefused [] t = Unit
  AllRefused ((asks id r, answer) ∷ xs) t =
      IsRefused r answer t × AllRefused xs (answered id r answer t)
  AllRefused ((drops id, answer) ∷ xs) t = AllRefused xs (dropped id t)

module _ {os : Os} (kernel : Kernel os) where
  -- On an epoll that behaves as documented, start where every watch list names exactly the
  -- descriptors routed to its subscriber, and make any sequence of requests of subscribers, each of
  -- which removes only what the table gives it, and of removals of subscribers. The watch lists are
  -- exact again, the routes and registrations are the table that the same calls with the same answers
  -- make of the first one, and whoever added a descriptor of the table was refused.
  pub run_refines :
      (commands : List (Command os)) (c : Context os)
      → IsExact os c.wrapper
      → AllPermitted (run_commands commands c).0 (table kernel c)
      → IsExact os (run_commands commands c).1.wrapper
        × (table kernel (run_commands commands c).1
            ≡ replay (run_commands commands c).0 (table kernel c))
        × AllRefused (run_commands commands c).0 (table kernel c)
  unfolding run_commands replay ops_unchecked
  run_refines [] c exact permitted = (exact, refl, tt)
  run_refines (drops id ∷ xs) c exact permitted =
      let same : table kernel (Epoll.remove id c) ≡ dropped id (table kernel c) =
        fun_ext (λ fd. remove-dropped kernel id c fd exact) in
      let (left, agrees, refused) =
        run_refines xs (Epoll.remove id c) (remove-IsExact id c exact)
          (subst (AllPermitted (run_commands xs (Epoll.remove id c)).0) (sym same) permitted) in
      (
        left,
        subst
            (λ t.
              table kernel (run_commands xs (Epoll.remove id c)).1
              ≡ replay (run_commands xs (Epoll.remove id c)).0 t)
            same agrees,
        subst (AllRefused (run_commands xs (Epoll.remove id c)).0) same refused,
      )
  run_refines (asks id r ∷ xs) c exact (permitted, later) =
      let self = ops_unchecked c id in
      let c' = (perform r self).1.context in
      let same : table kernel c' ≡ answered id r (perform r self).0 (table kernel c) =
        perform-answered kernel r self in
      let (left, agrees, refused) =
        run_refines xs c'
          (perform-IsExact r self (owned_of_permitted kernel r self permitted) exact)
          (subst (AllPermitted (run_commands xs c').0) (sym same) later) in
      (
        left,
        subst (λ t. table kernel (run_commands xs c').1 ≡ replay (run_commands xs c').0 t) same
            agrees,
        (perform-IsRefused kernel r self, subst (AllRefused (run_commands xs c').0) same refused),
      )
