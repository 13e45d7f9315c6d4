-- ===== src/Image.antt =====
-- The image proxy's cache with user quotas: src/cache/image/manager.rs. One request reads the
-- clock once here, and the answer of the remote server is an argument.
pub mod Quota
pub mod Service
pub mod Requests
mod Tests
