-- ===== src/EventOps/Errors.antt =====
-- The errors of `EventOps`, and what they leave.
use event_manager.Prelude.{◌≡◌, ◌≢◌, refl, ◌⊎◌, inl, inr, Result, err, arith, Result-cases}
use event_manager.Os.{Os, RawFd, IoError, op_add, op_modify, op_delete}
use event_manager.Error.{Error, fd_already_registered, invalid_id}
use event_manager.Events.{Events}
use event_manager.EventOps.{
  EventOps, Request, adds, modifies, removes, perform, add, modify, remove, ctl,
}
use event_manager.EventOps.Branches.{add_branches, remove_branches, answer}
use event_manager.Kernel.{Kernel}

-- The answer of the system call that a request makes.
abbrev pub call_answer : {os : Os} → Request os → EventOps os → Result (Unit {0}) IoError
call_answer (adds e) self = answer op_add e self
call_answer (modifies e) self = answer op_modify e self
call_answer (removes e) self = answer op_delete e self

module _ {os : Os} where
  -- A request never answers that an identifier is invalid.
  pub perform-valid : (r : Request os) (self : EventOps os) → (perform r self).0 ≢ err invalid_id
  unfolding perform modify ctl
  perform-valid (adds e) self is = elim (add_branches e self) [
    | inl (id, _, r) ↦ ground arith
    | inr (inl (io, _, _, r)) ↦ ground arith
    | inr (inr (_, _, r)) ↦ ground arith
  ]
  perform-valid (modifies e) self is = elim (Result-cases (answer op_modify e self)) [
    | inl (_, done) ↦ ground arith
    | inr (io, refused) ↦ ground arith
  ]
  perform-valid (removes e) self is = elim (remove_branches e self) [
    | inl (io, _, r) ↦ ground arith
    | inr (_, r) ↦ ground arith
  ]

module _ {os : Os} (kernel : Kernel os) where
  -- Nothing has changed in the wrapper and on the interest list, and the error is that of a descriptor
  -- which is registered, without a system call, or that of the system call.
  pub record IsUndone (r : Request os) (x : Error os) (before after : EventOps os) : Type 0 where
    pub same_wrapper : after.wrapper ≡ before.wrapper
    pub same_id : after.subscriber_id ≡ before.subscriber_id
    pub same_interest :
        (fd : RawFd)
        → kernel.interest after.epoll after.world fd ≡ kernel.interest before.epoll before.world fd
    pub reason :
        ((x ≡ fd_already_registered) × (after.world ≡ before.world))
        ⊎ ((e : IoError) × (call_answer r before ≡ err e) × (x ≡ Error.epoll (os.errno_from e)))

  add-err :
      (e : Events os) (self : EventOps os) (x : Error os)
      → (add e self).0 ≡ err x
      → IsUndone (adds e) x self (add e self).1
  add-err e self x failed = elim (add_branches e self) [
    | inl (id, _, r) ↦ rw r (record {
      same_wrapper = refl;
      same_id = refl;
      same_interest = λ fd. refl;
      reason = inl (ground arith, refl);
    })
    | inr (inl (io, _, refused, r)) ↦ rw r (record {
      same_wrapper = refl;
      same_id = refl;
      same_interest = λ fd. kernel.ctl_err self.epoll op_add _ _ self.world io fd refused;
      reason = inr (io, refused, ground arith);
    })
    | inr (inr (_, _, r)) ↦ absurd (ground arith)
  ]

  remove-err :
      (e : Events os) (self : EventOps os) (x : Error os)
      → (remove e self).0 ≡ err x
      → IsUndone (removes e) x self (remove e self).1
  remove-err e self x failed = elim (remove_branches e self) [
    | inl (io, refused, r) ↦ rw r (record {
      same_wrapper = refl;
      same_id = refl;
      same_interest = λ fd. kernel.ctl_err self.epoll op_delete _ _ self.world io fd refused;
      reason = inr (io, refused, ground arith);
    })
    | inr (_, r) ↦ absurd (ground arith)
  ]

  modify-err :
      (e : Events os) (self : EventOps os) (x : Error os)
      → (modify e self).0 ≡ err x
      → IsUndone (modifies e) x self (modify e self).1
  unfolding modify ctl
  modify-err e self x failed = elim (Result-cases (answer op_modify e self)) [
    | inl (_, done) ↦ absurd (ground arith)
    | inr (io, refused) ↦ record {
      same_wrapper = refl;
      same_id = refl;
      same_interest = λ fd. kernel.ctl_err self.epoll op_modify _ _ self.world io fd refused;
      reason = inr (io, refused, ground arith);
    }
  ]

  -- On an epoll that behaves as documented, a request that returns an error has changed neither the
  -- routing tables, nor the buffer, nor the interest list; and the error is `FdAlreadyRegistered`,
  -- without any system call, or that of the system call.
  pub perform-err :
      (r : Request os) (self : EventOps os) (x : Error os)
      → (perform r self).0 ≡ err x
      → IsUndone r x self (perform r self).1
  unfolding perform
  perform-err (adds e) self x failed = add-err e self x failed
  perform-err (modifies e) self x failed = modify-err e self x failed
  perform-err (removes e) self x failed = remove-err e self x failed
