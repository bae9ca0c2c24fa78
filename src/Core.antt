-- ===== src/Core.antt =====
-- src/core: configuration and the periodic scheduler.
pub mod Heartbeat
pub mod Conf
