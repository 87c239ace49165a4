-- ===== src/Tests/Level.antt =====
-- An operating system that reports what is ready at each wait. Every eventfd can be written, and can be
-- read while its counter is not 0. The world holds the interest list of the one epoll instance, the
-- counters and the mutex of the unit tests' subscriber.
use event_manager.Prelude.{
  ltb, zero, suc, Option, Bool, false, ℕ, ◌+◌, ◌%◌, ◌^◌, List, [], ◌∷◌, ok, err, Result, none, some,
  ◌==◌, if◌then◌else◌,
}
use event_manager.Prelude.HashMap
use event_manager.Prelude.HashMap.{HashMap}
use event_manager.Os.{
  Os, RawFd, IoError, from_raw_os_error, ControlOperation, op_add, op_modify, op_delete,
}
use event_manager.Tests.Kernel.{SimEvent, fill, filled, minus_bits, share_bits}

pub record LevelWorld : Type 0 where
  pub interest : HashMap SimEvent
  pub counters : HashMap ℕ
  pub next_fd : ℕ
  pub event_fds : ℕ × ℕ
  pub processed : Bool × Bool × Bool
  pub requested : Bool × Bool × Bool
  pub poisoned : Bool

abbrev pub level_ctl :
    ControlOperation → RawFd → SimEvent → LevelWorld → Result (Unit {0}) IoError × LevelWorld
level_ctl op_add fd ev w = elim (HashMap.get w.interest fd) [
  | some _ ↦ (err (from_raw_os_error 17), w)
  | none ↦ (ok tt, record w { interest = HashMap.insert w.interest fd ev })
]
level_ctl op_modify fd ev w = elim (HashMap.get w.interest fd) [
  | some _ ↦ (ok tt, record w { interest = HashMap.insert w.interest fd ev })
  | none ↦ (err (from_raw_os_error 2), w)
]
level_ctl op_delete fd ev w = elim (HashMap.get w.interest fd) [
  | some _ ↦ (ok tt, record w { interest = HashMap.remove w.interest fd })
  | none ↦ (err (from_raw_os_error 2), w)
]

-- `OUT`, and `IN` while the counter is not 0.
abbrev pub ready_set : LevelWorld → RawFd → ℕ
ready_set w fd = elim (HashMap.get w.counters fd) [ none ↦ 4 | some n ↦ if n == 0 then 4 else 5 ]

-- What is ready of what is asked for.
abbrev pub both_bits : ℕ → ℕ → ℕ
both_bits a b = minus_bits 5 a (minus_bits 5 a b)

abbrev pub report_bits : ℕ → ℕ → List SimEvent → List SimEvent
report_bits zero d rest = rest
report_bits (suc bits) d rest = (suc bits, d) ∷ rest

abbrev pub report_one : ℕ → Option SimEvent → List SimEvent → List SimEvent
report_one ready none rest = rest
report_one ready (some ev) rest = report_bits (both_bits ev.0 ready) ev.1 rest

abbrev pub level_reports : LevelWorld → HashMap SimEvent → List SimEvent
level_reports w [] = []
level_reports w ((fd, _) ∷ entries) =
    report_one (ready_set w fd) (HashMap.get w.interest fd) (level_reports w entries)

abbrev pub level_eventfd : LevelWorld → Result ℕ IoError × LevelWorld
level_eventfd w =
    if ltb w.next_fd (2 ^ 31)
    then (ok w.next_fd, record w { next_fd = w.next_fd + 1 })
    else (err (from_raw_os_error 24), w)

abbrev pub level_write : ℕ → ℕ → LevelWorld → Result (Unit {0}) IoError × LevelWorld
level_write fd n w = elim (HashMap.get w.counters fd) [
  | none ↦ (ok tt, record w { counters = HashMap.insert w.counters fd n })
  | some m ↦ (ok tt, record w { counters = HashMap.insert w.counters fd (m + n) })
]

abbrev pub level_read : ℕ → LevelWorld → Result ℕ IoError × LevelWorld
level_read fd w = elim (HashMap.get w.counters fd) [
  | none ↦ (err (from_raw_os_error 11), w)
  | some n ↦ (ok n, record w { counters = HashMap.insert w.counters fd 0 })
]

abbrev pub level : Os
level = record {
  World = LevelWorld;
  Epoll = ℕ;
  EpollEvent = SimEvent;
  EventFd = ℕ;
  Errno = IoError;
  errno_from = λ e. e;
  errno_text = λ e. "os error";
  eintr = 4;
  event_new = λ s d. (s, d % 2 ^ 64);
  event_default = (0, 0);
  event_bits = λ e. e.0;
  event_set = λ e. e.0;
  event_data = λ e. e.1;
  event_fd = λ e. e.1 % 2 ^ 32;
  event_size = 12;
  set_empty = 0;
  set_all = 31;
  set_in = 1;
  set_out = 4;
  set_error = 8;
  set_hang_up = 16;
  set_minus = λ a b. minus_bits 5 a b;
  set_intersects = λ a b. share_bits 5 a b;
  epoll_new = λ w. (ok 3, record w { interest = [] });
  epoll_ctl = λ ep op fd ev w. level_ctl op fd ev w;
  epoll_wait = λ ep ms buffer w. (
    ok (filled (level_reports w w.interest) buffer),
    fill (level_reports w w.interest) buffer,
    w,
  );
  eventfd_new = λ flags w. level_eventfd w;
  efd_nonblock = 2048;
  eventfd_raw = λ fd. fd;
  eventfd_write = λ fd n w. level_write fd n w;
  eventfd_read = λ fd w. level_read fd w;
}

abbrev pub before : LevelWorld
before = record {
  interest = [];
  counters = [];
  next_fd = 5;
  event_fds = (0, 0);
  processed = (false, false, false);
  requested = (false, false, false);
  poisoned = false;
}
