-- ===== src/Modules.antt =====
-- src/modules: the feature modules.
pub mod Packages
pub mod Networking
pub mod Man
