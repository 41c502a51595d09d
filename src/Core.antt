-- ===== src/Core.antt =====
-- crates/core/src: the bridge's own logic, one module for each source file.
pub mod Law
pub mod ChannelScheme
pub mod Router
pub mod ChannelMapping
pub mod GainLock
mod Tests
