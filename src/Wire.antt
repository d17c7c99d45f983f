-- ===== src/Wire.antt =====
-- velo_transfer/wire.py: the VBT1 frames.
pub mod Frame
pub mod Validate
pub mod Headers
pub mod Requests
pub mod RoundTrip
pub mod Tiling
mod Tests
mod HeaderTests
