-- ===== src/Tests.antt =====
-- Runs of the model on the server in memory, and the theorems at concrete inputs.
pub mod Runs
pub mod World
pub mod Calls
pub mod Sessions
pub mod Host
pub mod Shell
pub mod Store
pub mod Makers
pub mod Scripts
pub mod Paths
