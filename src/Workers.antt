-- ===== src/Workers.antt =====
-- velociraptor_observation_workers.py: the threads that the handlers of a controller own.
pub mod Model
pub mod Threads
pub mod Safe
pub mod Steps
pub mod Admission
pub mod Invariant
pub mod Barrier
pub mod Unknown
mod Tests
