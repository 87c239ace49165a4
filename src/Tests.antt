-- ===== src/Tests.antt =====
-- Concrete inputs: a small operating system, the theorems at examples, and runs of the code.
mod Kernel
mod Examples
mod Operations
mod Remote
mod Stale
mod Lifecycle
mod Errors
mod Cells
mod Subscribers
mod Typed
mod Level
mod Manager
mod LevelKernel
mod Called
mod Regressions
mod Witnesses
