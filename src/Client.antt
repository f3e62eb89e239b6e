-- ===== src/Client.antt =====
-- The client: what it reads of the server, its local repository, and the synchronization of both.
pub mod Manifest
pub mod Http
pub mod Git
pub mod Fetch
pub mod RepoWalk
pub mod Pull
pub mod Origin
pub mod Upload
pub mod Sync
mod Tests
