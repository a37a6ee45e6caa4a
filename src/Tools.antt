-- ===== src/Tools.antt =====
-- Helpers that the whole server uses (src/tools.cpp): names, codes and strings.
pub mod Effects
pub mod Names
pub mod Codes
pub mod Laws
pub mod Strings
mod Examples
