-- ===== src/Files.antt =====
-- The binary files of the world (src/fileloader.cpp): trees of nodes in the OTB format.
pub mod Loader
mod Examples
