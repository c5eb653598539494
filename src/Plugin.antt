-- ===== src/Plugin.antt =====
-- plugin/: the contracts between a plugin and its host.
pub mod Budget
pub mod Cron
pub mod Contracts
pub mod Frames
pub mod Ids
pub mod Session
mod Tests
