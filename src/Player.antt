-- ===== src/Player.antt =====
-- How a player advances (src/player.cpp): skills, magic level, experience.
pub mod Skills
pub mod Magic
pub mod Experience
mod Examples
