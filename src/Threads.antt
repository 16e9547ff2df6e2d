-- ===== src/Threads.antt =====
-- The thread pool (src/runtime/thread_pool.cc).
pub mod Spsc
mod Held
mod Pushes
mod Claims
mod Pops
mod Order
pub mod Launcher
pub mod Barrier
mod Watching
mod Meet
pub mod Launch
mod Finish
mod Grow
mod Tests
