-- ===== src/Examples.antt =====
-- Concrete libraries, systems and messages, and the theorems of the other modules at them.
pub mod Values
mod Scheduling
mod Segments
mod Runs
mod Reaching
mod Clients
mod Watching
mod Waiting
mod Living
mod Replies
mod Rounds
