-- ===== src/Host.antt =====
-- velo_transfer/host_journal.py: the facts that the host's journal of a transfer keeps.
pub mod Phases
pub mod Facts
mod Tests
