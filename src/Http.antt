-- ===== src/Http.antt =====
-- The byte limits of the HTTP layer: velo_transfer/http_budget.py and velo_transfer/http_wire.py.
pub mod Streams
pub mod Limits
mod Tests
