-- ===== src/Tests/Kernel.antt =====
-- A small operating system in which the operations can run. An event is its bits and its data; the
-- world holds the interest list of the one epoll instance, the events that the next wait reports, and a
-- few bytes of memory.
use event_manager.Prelude.{
  ◌/◌, ◌*◌, Bool, true, false, ltb, if◌then◌else◌, ◌==◌, ◌<◌, get_elem?, zero, Option-cases, inl,
  inr, Bool-cases, subst, sym, ◌∙◌, ℕ, suc, ◌+◌, ◌%◌, ◌^◌, ◌≤◌, ◌≡◌, refl, none, some, List, [],
  ◌∷◌, Result, ok, err, length, ap, arith,
}
use event_manager.Prelude.HashMap
use event_manager.Prelude.HashMap.{HashMap, get-insert, get-remove}
use event_manager.Kernel.{Kernel, IsUnshared}
use event_manager.Os.{
  Os, RawFd, IoError, from_raw_os_error, ControlOperation, op_add, op_modify, op_delete,
  EpollEventLaws, WaitLaws,
}

abbrev pub SimEvent : Type 0
SimEvent = ℕ × ℕ

pub record SimWorld : Type 0 where
  pub interest : HashMap SimEvent
  pub pending : List SimEvent
  pub next_fd : ℕ
  pub memory : ℕ × Bool
  pub signalled : Bool

abbrev pub sim_ctl :
    ControlOperation → RawFd → SimEvent → SimWorld → Result (Unit {0}) IoError × SimWorld
sim_ctl op_add fd ev w = elim (HashMap.get w.interest fd) [
  | some _ ↦ (err (from_raw_os_error 17), w)
  | none ↦ (ok tt, record w { interest = HashMap.insert w.interest fd ev })
]
sim_ctl op_modify fd ev w = elim (HashMap.get w.interest fd) [
  | some _ ↦ (ok tt, record w { interest = HashMap.insert w.interest fd ev })
  | none ↦ (err (from_raw_os_error 2), w)
]
sim_ctl op_delete fd ev w = elim (HashMap.get w.interest fd) [
  | some _ ↦ (ok tt, record w { interest = HashMap.remove w.interest fd })
  | none ↦ (err (from_raw_os_error 2), w)
]

-- The reported events overwrite the front of the buffer.
abbrev pub fill : List SimEvent → List SimEvent → List SimEvent
fill reported [] = []
fill [] (b ∷ buffer) = b ∷ buffer
fill (r ∷ reported) (b ∷ buffer) = r ∷ fill reported buffer

abbrev pub filled : List SimEvent → List SimEvent → ℕ
filled reported [] = 0
filled [] (b ∷ buffer) = 0
filled (r ∷ reported) (b ∷ buffer) = suc (filled reported buffer)

-- Of the pending events, those with the data of a registration are reported.
abbrev pub is_registered : SimWorld → SimEvent → Bool
is_registered w ev = elim (HashMap.get w.interest (ev.1 % 2 ^ 32)) [
  | none ↦ false
  | some registered ↦ ev.1 == registered.1
]

abbrev pub reportable : SimWorld → List SimEvent → List SimEvent
reportable w [] = []
reportable w (ev ∷ events) =
    let rest = reportable w events in if is_registered w ev then ev ∷ rest else rest

abbrev pub sim_eventfd : SimWorld → Result ℕ IoError × SimWorld
sim_eventfd w =
    if ltb w.next_fd (2 ^ 31)
    then (ok w.next_fd, record w { next_fd = w.next_fd + 1 })
    else (err (from_raw_os_error 24), w)

-- Sets of five flags.
abbrev pub minus_bits : ℕ → ℕ → ℕ → ℕ
minus_bits zero a b = 0
minus_bits (suc n) a b =
    let rest = minus_bits n (a / 2) (b / 2) in if b % 2 == 1 then 2 * rest else a % 2 + 2 * rest

abbrev pub share_bits : ℕ → ℕ → ℕ → Bool
share_bits zero a b = false
share_bits (suc n) a b =
    let rest = share_bits n (a / 2) (b / 2) in if a % 2 * (b % 2) == 1 then true else rest

abbrev pub sim : Os
sim = record {
  World = SimWorld;
  Epoll = ℕ;
  EpollEvent = SimEvent;
  EventFd = ℕ;
  Errno = IoError;
  errno_from = λ e. e;
  errno_text = λ e. "os error";
  eintr = 4;
  event_new = λ s d. (s, d % 2 ^ 64);
  event_default = (0, 0);
  event_bits = λ e. e.0;
  event_set = λ e. e.0;
  event_data = λ e. e.1;
  event_fd = λ e. e.1 % 2 ^ 32;
  event_size = 12;
  set_empty = 0;
  set_all = 31;
  set_in = 1;
  set_out = 4;
  set_error = 8;
  set_hang_up = 16;
  set_minus = λ a b. minus_bits 5 a b;
  set_intersects = λ a b. share_bits 5 a b;
  epoll_new = λ w. (ok 3, record w { interest = [] });
  epoll_ctl = λ ep op fd ev w. sim_ctl op fd ev w;
  epoll_wait = λ ep ms buffer w. (
    ok (filled (reportable w w.pending) buffer),
    fill (reportable w w.pending) buffer,
    record w { pending = [] },
  );
  eventfd_new = λ flags. sim_eventfd;
  efd_nonblock = 2048;
  eventfd_raw = λ fd. fd;
  eventfd_write = λ fd n w. (ok tt, record w { signalled = true });
  eventfd_read = λ fd w. (ok 1, record w { signalled = false });
}

pub sim-EpollEventLaws : EpollEventLaws sim
sim-EpollEventLaws = record {
  set_of_new = λ s d. refl;
  data_of_new = λ s d. refl;
  fd_of_data = λ e. refl;
}

pub length-fill : (reported buffer : List SimEvent) → length (fill reported buffer) ≡ length buffer
length-fill reported [] = refl
length-fill [] (b ∷ buffer) = refl
length-fill (r ∷ reported) (b ∷ buffer) = ap suc (length-fill reported buffer)

pub filled-le : (reported buffer : List SimEvent) → filled reported buffer ≤ length buffer
filled-le reported [] = omega arith
filled-le [] (b ∷ buffer) = omega arith
filled-le (r ∷ reported) (b ∷ buffer) = omega (arith, filled-le reported buffer)

pub sim-WaitLaws : WaitLaws sim
sim-WaitLaws = record {
  wait_length = λ ep ms buffer w. length-fill (reportable w w.pending) buffer;
  wait_count = λ ep ms buffer w n e. ground (arith, filled-le (reportable w w.pending) buffer);
}

pub unwrap_some : (a b : SimEvent) → some a ≡ some b → a ≡ b
unwrap_some a b e = cc

pub get_elem?-fill :
    (reported buffer : List SimEvent) (i : ℕ)
    → i < filled reported buffer
    → get_elem? (fill reported buffer) i ≡ get_elem? reported i
get_elem?-fill reported [] i lt = absurd (omega (arith, lt))
get_elem?-fill [] (b ∷ buffer) i lt = absurd (omega (arith, lt))
get_elem?-fill (r ∷ reported) (b ∷ buffer) zero lt = refl
get_elem?-fill (r ∷ reported) (b ∷ buffer) (suc i) lt =
    get_elem?-fill reported buffer i (omega (arith, lt))

reported_first :
    (w : SimWorld) (p : SimEvent) (pending : List SimEvent) (i : ℕ) (ev : SimEvent)
    → is_registered w p ≡ true
    → ((k : ℕ) → get_elem? (reportable w pending) k ≡ some ev → is_registered w ev ≡ true)
    → get_elem? (p ∷ reportable w pending) i ≡ some ev
    → is_registered w ev ≡ true
reported_first w p pending zero ev known later e =
    subst (λ x. is_registered w x ≡ true) (unwrap_some p ev e) known
reported_first w p pending (suc i) ev known later e = later i e

reportable-is_registered :
    (w : SimWorld) (pending : List SimEvent) (i : ℕ) (ev : SimEvent)
    → get_elem? (reportable w pending) i ≡ some ev
    → is_registered w ev ≡ true
reportable-is_registered w [] i ev e = cc
reportable-is_registered w (p ∷ pending) i ev e = elim (Bool-cases (is_registered w p)) [
  | inr unknown ↦ reportable-is_registered w pending i ev (rw unknown at e)
  | inl known ↦
      reported_first w p pending i ev known (λ k. reportable-is_registered w pending k ev)
        (rw known at e)
]

registered_event :
    (w : SimWorld) (ev : SimEvent)
    → is_registered w ev ≡ true
    → (fd : ℕ) × (registered : SimEvent) × (HashMap.get w.interest fd ≡ some registered)
      × (ev.1 ≡ registered.1)
registered_event w ev known = elim (Option-cases (HashMap.get w.interest (ev.1 % 2 ^ 32))) [
  | inl missing ↦ absurd (ground arith)
  | inr (registered, found) ↦ (ev.1 % 2 ^ 32, registered, found, ground arith)
]

pub unwrap_ok : (a b : ℕ) → (◌≡◌ {A = Result ℕ IoError} (ok a) (ok b)) → a ≡ b
unwrap_ok a b e = cc

sim_ctl_err :
    (op : ControlOperation) (fd : RawFd) (ev : SimEvent) (w : SimWorld) (e : IoError) (j : RawFd)
    → (sim_ctl op fd ev w).0 ≡ err e
    → HashMap.get (sim_ctl op fd ev w).1.interest j ≡ HashMap.get w.interest j
sim_ctl_err op_add fd ev w e j failed = ground arith
sim_ctl_err op_modify fd ev w e j failed = ground arith
sim_ctl_err op_delete fd ev w e j failed = ground arith

pub sim_kernel : Kernel sim
sim_kernel = record {
  event_laws = sim-EpollEventLaws;
  wait_laws = sim-WaitLaws;
  interest = λ ep w fd. HashMap.get w.interest fd;
  add_ok = λ ep fd ev w j done. ground (arith, get-insert w.interest fd ev j);
  modify_ok = λ ep fd ev w j done. elim (Option-cases (HashMap.get w.interest fd)) [
    | inl missing ↦ absurd (ground arith)
    | inr (old, found) ↦ ((old, found), ground (arith, get-insert w.interest fd ev j))
  ];
  delete_ok = λ ep fd ev w j done. ground (arith, get-remove w.interest fd j);
  ctl_err = λ ep op fd ev w e j failed. sim_ctl_err op fd ev w e j failed;
  is_open = λ w fd. true;
  delete_err = λ ep fd ev w e failed. inl (ground arith);
  wait_interest = λ ep ms buffer w j. refl;
  wait_reports = λ ep ms buffer w n i ev count lt e.
      let lt' : i < filled (reportable w w.pending) buffer =
        ground (arith, unwrap_ok (filled (reportable w w.pending) buffer) n count) in
      registered_event w ev (
        reportable-is_registered w w.pending i ev
          (sym (get_elem?-fill (reportable w w.pending) buffer i lt') ∙ e));
  write_interest = λ ep fd n w j. refl;
  read_interest = λ ep fd w j. refl;
  new_empty = λ w ep j made. unfold HashMap.get in refl;
  eventfd_interest = λ ep flags w j. ground arith;
  eventfd_fd = λ flags w fd made. ground arith;
}

pub interest-sim_kernel :
    (ep fd : ℕ) (w : SimWorld) → sim_kernel.interest ep w fd ≡ HashMap.get w.interest fd
unfolding sim_kernel
interest-sim_kernel ep fd w = refl

pub sim_kernel-IsUnshared : (ep : ℕ) → IsUnshared sim_kernel ep
unfolding sim_kernel
sim_kernel-IsUnshared ep w fd ev listed = refl
