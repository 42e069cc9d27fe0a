-- ===== src/Ping.antt =====
-- tobiko/shell/ping
pub mod Statistics
pub mod Rounds
pub mod Counting
pub mod Ending
pub mod Parameters
pub mod Hosts
pub mod Errors
pub mod Merging
pub mod Until
mod Asserting
mod Samples
mod Examples
