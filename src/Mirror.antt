-- ===== src/Mirror.antt =====
-- The crate `dojjo-mirror`.
pub mod Path
mod Tests
pub mod Exclude
pub mod Kahn
pub mod Operation
pub mod ApplyOrder
pub mod Expand
