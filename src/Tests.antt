-- ===== src/Tests.antt =====
-- Runs of the theorems about lib/cmux on concrete data.
pub mod Data
pub mod Frames
pub mod Services
pub mod Requests
pub mod Ring
pub mod Links
pub mod Systems
pub mod Dumps
pub mod Lifetimes
pub mod Wrapped
pub mod Multiplexed
