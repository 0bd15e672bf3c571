-- ===== src/Tests.antt =====
-- The theorems at concrete inputs.
pub mod Data
pub mod Wire
pub mod Delivery
pub mod Codecs
pub mod Control
pub mod Packets
pub mod Room
pub mod Tables
pub mod Programs
pub mod Operation
pub mod Failures
pub mod Elections
