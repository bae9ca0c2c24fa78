-- ===== src/Http.antt =====
-- src/http: requests, responses and their helpers.
pub mod Utils
pub mod Request
pub mod Response
pub mod ResponseIo
pub mod FileCache
pub mod ResponsePool
pub mod Helpers
pub mod SendFile
