-- ===== src/Runs.antt =====
-- Runs of the decoder and of the simulator on concrete programs, and the theorems at concrete inputs.
pub mod Decode
pub mod Encode
pub mod Simulate
pub mod Print
pub mod Digits
pub mod Haversine
pub mod Profile
pub mod Standalone
