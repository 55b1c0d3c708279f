-- ===== src/Controller/SingleFlight.antt =====
-- At most one search job is in flight: how the number of RUNNING queue items changes.
mod Frame
pub mod Operations
pub mod Ticks
pub mod History
pub use Frame.{running, AtMost}
