-- ===== src/Os.antt =====
-- What the crate takes from outside: `vmm_sys_util` (epoll, eventfd, errno), `libc`, and the
-- operating system behind them.
use event_manager.Prelude.{
  Bool, ℕ, ◌%◌, ◌^◌, ◌≡◌, ◌≤◌, Option, none, some, List, Result, ok, length,
}
use Prim.Native.String.{String}

-- An `i32` file descriptor, as its bit pattern: below 2 ^ 32, and negative from 2 ^ 31 on.
abbrev pub RawFd : Type 0
RawFd = ℕ

-- The bits of `vmm_sys_util::epoll::EventSet`, a set of flags in a `u32`.
abbrev pub EventSet : Type 0
EventSet = ℕ

-- `std::io::Error`, as far as `raw_os_error` sees it.
pub data IoError : Type 0 where
  from_raw_os_error : ℕ → IoError
  custom : IoError

abbrev pub raw_os_error : IoError → Option ℕ
raw_os_error (from_raw_os_error n) = some n
raw_os_error custom = none

-- `vmm_sys_util::epoll::ControlOperation`
pub data ControlOperation : Type 0 where
  op_add op_modify op_delete : ControlOperation

pub record Os : Type 1 where
  -- everything outside the crate's own memory: the kernel, other threads, shared objects
  pub World : Type 0
  pub Epoll : Type 0
  pub EpollEvent : Type 0
  pub EventFd : Type 0
  pub Errno : Type 0
  pub errno_from : IoError → Errno
  pub errno_text : Errno → String
  pub eintr : ℕ
  -- `EpollEvent::new`, `default`, `events`, `event_set`, `data` and `fd`
  pub event_new : EventSet → ℕ → EpollEvent
  pub event_default : EpollEvent
  pub event_bits : EpollEvent → ℕ
  pub event_set : EpollEvent → EventSet
  pub event_data : EpollEvent → ℕ
  pub event_fd : EpollEvent → RawFd
  pub event_size : ℕ
  -- `EventSet::empty()`, `all()`, `IN`, `OUT`, `ERROR` and `HANG_UP`, set difference `-`, and
  -- `intersects`
  pub set_empty : EventSet
  pub set_all : EventSet
  pub set_in : EventSet
  pub set_out : EventSet
  pub set_error : EventSet
  pub set_hang_up : EventSet
  pub set_minus : EventSet → EventSet → EventSet
  pub set_intersects : EventSet → EventSet → Bool
  -- `Epoll::new`, `ctl` and `wait`; `wait` also returns what it leaves in the buffer
  pub epoll_new : World → Result Epoll IoError × World
  pub epoll_ctl :
      Epoll → ControlOperation → RawFd → EpollEvent → World → Result (Unit {0}) IoError × World
  pub epoll_wait : Epoll → ℕ → List EpollEvent → World → Result ℕ IoError × List EpollEvent × World
  -- `EventFd::new` with its flags, `as_raw_fd`, `write` and `read`
  pub eventfd_new : ℕ → World → Result EventFd IoError × World
  pub efd_nonblock : ℕ
  pub eventfd_raw : EventFd → RawFd
  pub eventfd_write : EventFd → ℕ → World → Result (Unit {0}) IoError × World
  pub eventfd_read : EventFd → World → Result ℕ IoError × World

-- The documented accessors of `EpollEvent`: the data is a `u64`, and `fd` is `data() as RawFd`.
pub record EpollEventLaws (os : Os) : Type 0 where
  pub set_of_new : (s : EventSet) (d : ℕ) → os.event_set (os.event_new s d) ≡ s
  pub data_of_new : (s : EventSet) (d : ℕ) → os.event_data (os.event_new s d) ≡ d % 2 ^ 64
  pub fd_of_data : (e : os.EpollEvent) → os.event_fd e ≡ os.event_data e % 2 ^ 32

-- `wait` keeps the buffer's length, and reports no more events than the buffer has room for.
pub record WaitLaws (os : Os) : Type 0 where
  pub wait_length :
      (ep : os.Epoll) (ms : ℕ) (buffer : List os.EpollEvent) (w : os.World)
      → length (os.epoll_wait ep ms buffer w).1 ≡ length buffer
  pub wait_count :
      (ep : os.Epoll) (ms : ℕ) (buffer : List os.EpollEvent) (w : os.World) (n : ℕ)
      → (os.epoll_wait ep ms buffer w).0 ≡ ok n
      → n ≤ length buffer
