-- ===== src/Lib.antt =====
-- event-manager: a Rust crate for event loops over Linux epoll.
--
-- The program. A subscriber registers file descriptors with a manager, and is called back when one of
-- them is ready. `EventManager` (src/manager.rs) owns the subscribers (`Subscribers`,
-- src/subscribers.rs), the epoll instance with its routing tables and its buffer of ready events
-- (`EpollWrapper`, src/epoll.rs), and a channel over which other threads send closures to run on the
-- manager (`EventManagerChannel`, `RemoteEndpoint`, src/endpoint.rs). A subscriber changes what it
-- watches through an `EventOps` (src/events.rs), while events are being dispatched; an `Events` packs
-- a descriptor and 32 bits of user data into the 64 bits that epoll hands back.
--
-- The files.
--   Prelude, Prelude/*: Boolean tests, lists measured by native numbers, `HashMap` as an association
--     list, `Result`, and `Outcome` (returned, panicked, or out of fuel) with its rules.
--   Os: what the crate takes from vmm_sys_util, libc and the operating system, as the record `Os`:
--     the types and calls are fields, and the documented behaviour is in `EpollEventLaws` and
--     `WaitLaws`, which theorems take as hypotheses. `World` is all state outside the crate's memory.
--   Kernel: the record `Kernel` of what epoll_ctl(2), epoll_wait(2) and eventfd(2) document, over the
--     interest list of an epoll instance. A descriptor that is closed while a duplicate is open stays
--     on that list and cannot be deleted; theorems that need it not to happen take `IsUnshared` as a
--     hypothesis. Kernel/Synced: the wrapper's operations and that list.
--     Kernel/Level: a wait that reports a descriptor as long as it can be read.
--   Error: `Error` of src/lib.rs, its texts and its sources.
--   Events: `Events` of src/events.rs, with the wrap-around of its 64-bit arithmetic. Descriptors are
--     the 32-bit patterns of an `i32`. Events/RoundTrip: encoding and decoding.
--   Epoll: `EpollWrapper`. Epoll/Dispatch, Buffer, Consistent, Flushed: its routes, its buffer, the
--     agreement of routes and watch lists, and discarded events.
--   EventOps: `EventOps` with `add`, `modify` and `remove`, one call of which is a `Request`.
--     EventOps/Routing, Branches, Succeeded, Errors, Consistent, Flushed, Foreign: its theorems.
--     EventOps/Table: the abstract view of the routing, one partial map from the descriptors to their
--     subscribers and registered events. EventOps/Table/Refines, Run: one operation and any sequence.
--   Subscribers: the table of subscribers, whose counter wraps. Subscribers/Identifiers: uniqueness.
--   Endpoint: the channel, `fire`, `kick`, and the two halves of `call_blocking`. A closure is the tree
--     of the calls that it makes on the manager (`Closure`), so that the code is executable.
--     Endpoint/Callers: `RemoteEndpoint`, and what `call_blocking` returns, also after the manager's end.
--     Endpoint/Erased: results of any type in one channel (`ErasedResult`), and the downcast.
--     Endpoint/Replies: the results in a temporary channel.
--     Endpoint/Interleaved: `send` and `handle_endpoint_calls` of several threads, step by step.
--   Handler: the traits `EventSubscriber` and `MutEventSubscriber`. A body of `init` or `process` is
--     the tree of its requests, messages and effects (`Handler`). Handler/Rules: induction over it.
--   Traits: the implementations of the traits for Arc, Rc, RefCell, Mutex and Box in src/lib.rs.
--     Traits/Shared: a RefCell or Mutex that is shared, as a place in memory (`Location`).
--     Traits/Cells: the subscriber inside.
--   Utilities: the counting subscribers of src/utilities/subscribers.rs, as handlers.
--     Utilities/Expect, Counting, Reuse: requests with `expect`, what they count, and how they register
--     descriptors anew. Utilities/InnerMut: the subscriber whose counter is an atomic in memory.
--   UnitTests: `DummySubscriber` of the unit tests in src/manager.rs. UnitTests/Dummy: what it leaves.
--     UnitTests/EventTests, ManagerTests: the unit tests of src/events.rs and of src/manager.rs, as
--     programs that take the operating system and a place in memory for the shared subscriber.
--     UnitTests/Invalid: the one that should panic.
--   IntegrationTests: tests/regressions.rs. IntegrationTests/Sifted, Reused: its turn of the event loop.
--   Manager: `EventManager` and the operations of `SubscriberOps` that call no subscriber.
--     Manager/Loop: `add_subscriber`, `run`, `run_with_timeout`, `dispatch_events`,
--     `dispatch_endpoint_event` and `handle_endpoint_calls`. Manager/Rules: a property that the parts
--     keep, the loop keeps. Manager/Wellformed, Kept: the invariant. Manager/Safe, Total, Turn:
--     panics and termination of the loop. Manager/Synced, InStep, Polled, Runnable,
--     Created: the loop on top of a documented epoll, from the manager that `new_with_capacity` makes.
--     Manager/Stale: a registration that stays when its subscriber is removed.
--     Manager/Delivered, Awaited, HandedOver, Notified: the subscribers that an event reaches, and the
--     round in which it does. Manager/Deferred, Remote, Found, Noticed: the channel in the loop, and a
--     turn that answers what is queued. Manager/Sent, Sent/Appended: the messages that handlers and
--     closures send, by what they ask for. Manager/Called: the turn that a `call_blocking` wakes up.
--     Manager/Blocking, Accounted, Callers: `call_blocking` and the thread that answers it, and the
--     life of several callers (`Life`). Manager/Cases, Errors: the operations case by case, and their
--     errors.
--     Manager/Reach, Reached: the life of a manager as a step relation, and its states.
--     Manager/Typed, Typed/Run, Session: the types of what is sent back to the callers.
--   Tests, Tests/*: small operating systems that satisfy the hypotheses, one of them level-triggered
--     (Level, LevelKernel), the theorems at concrete inputs, and the unit tests of src/manager.rs and
--     the regression test, run.
--
-- State and aliasing. The manager and the world are passed explicitly. References that the code hands
-- out (`EventOps` over the wrapper, `subscriber_mut`) are values that the caller writes back.
--
-- Fuel and bounds. The loop over the ready events is recursion on their number. Only the loop over
-- queued requests takes fuel, since a request may send further requests: one round more than there are
-- messages, if none of them sends another. Buffers, lists and queues are unbounded; identifiers, user
-- data and descriptors keep their widths.
--
-- Not modelled: the memory and scheduling of other threads, which are part of `World` (a message of
-- another thread is in the queue when a turn begins, except in Endpoint/Interleaved); a thread that
-- waits for a mutex, which is given the world in which the lock is free (a thread that locks a mutex
-- twice is not seen to wait); text that is printed; the other integration tests and the benchmarks,
-- which run the crate on the operating system; the overflow checks of a debug build; a number of a
-- closed descriptor that is in use again while a duplicate keeps the old one on the interest list.
pub mod Prelude
pub mod Os
pub mod Error
pub mod Events
pub mod Epoll
pub mod EventOps
pub mod Kernel
pub mod Subscribers
pub mod Endpoint
pub mod Handler
pub mod Manager
pub mod Traits
pub mod Utilities
pub mod UnitTests
pub mod IntegrationTests
mod Tests
