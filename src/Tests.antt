-- ===== src/Tests.antt =====
-- The theorems at concrete inputs.
pub mod Flags
pub mod Generators
pub mod Images
pub mod Messages
pub mod Networks
pub mod Numbers
pub mod Payloads
pub mod Releases
pub mod Templates
