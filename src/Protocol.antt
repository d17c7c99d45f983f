-- ===== src/Protocol.antt =====
-- velo_transfer/protocol.py: the receipts of a transfer and the terminal of its guest.
pub mod Faults
pub mod Fields
pub mod Receipts
pub mod Terminal
pub mod Machine
pub mod Snapshot
pub mod Course
pub mod Steps
pub mod Ends
pub mod Keep
pub mod Fails
pub mod Replay
pub mod Rounds
pub mod Release
pub mod RoundTrip
pub mod Checks
pub mod History
pub mod Errors
pub mod Again
pub mod Outcome
pub mod Final
mod Tests
pub mod Recover
