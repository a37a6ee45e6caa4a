-- ===== src/Network.antt =====
-- Messages of the network protocol and of the files of properties: buffers, checksum, encryption.
pub mod Buffer
pub mod Message
pub mod Output
pub mod Adler
pub mod Xtea
pub mod PropStream
pub mod Examples
