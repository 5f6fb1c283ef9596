-- ===== src/Tests.antt =====
-- The theorems at concrete inputs, and runs of the definitions.
pub mod Scheduling
pub mod Sniffing
pub mod Capturing
pub mod Items
pub mod Mapping
pub mod Calls
pub mod Copies
pub mod Starting
pub mod Cycles
pub mod Threads
pub mod Meeting
pub mod Reporting
pub mod Packets
