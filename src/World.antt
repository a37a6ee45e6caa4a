-- ===== src/World.antt =====
-- Places of the game world and the ways between them.
pub mod Paths
pub mod Sight
pub mod Position
pub mod Direction
pub mod Examples
mod Searches
