-- ===== src/Flow.antt =====
-- velo_flow: one bounded, read-only run that waits for a flow and collects its results.
pub mod Model
pub mod Sink
pub mod Calls
pub mod Contract
pub mod Wait
pub mod Pages
pub mod Coordinator
pub mod Ticks
pub mod Saving
pub mod Frame
pub mod Reads
pub mod Saved
pub mod Served
pub mod Written
pub mod Writing
pub mod Gathering
pub mod Collecting
pub mod Paging
pub mod Settled
pub mod Waiting
pub mod Contracting
pub mod Completion
pub mod Log
pub mod Room
pub mod Tally
pub mod Summary
pub mod Summaries
pub mod Request
pub mod Requests
pub mod Refusals
pub mod Parsed
mod RequestTests
mod Tests
