-- ===== src/Tus.antt =====
-- The crate `tus-server`: the TUS 1.0.0 upload protocol over an abstract store.
pub mod Types
pub mod Store
pub mod Handler
pub mod Metadata
pub mod Headers
