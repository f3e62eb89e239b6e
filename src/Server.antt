-- ===== src/Server.antt =====
-- The crate `sync-server`.
pub mod Store
pub mod Finalize
pub mod MirrorGet
pub mod Endpoints
pub mod DojoId
pub mod GitRemote
pub mod GitHttp
pub mod Manifest
mod Tests
