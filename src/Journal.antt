-- ===== src/Journal.antt =====
-- velociraptor_observation_journal.py: the journal of one request.
pub mod Model
pub mod Invariant
pub mod Operations
pub mod Terminal
pub mod Opening
mod Tests
