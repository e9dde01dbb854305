-- ===== src/Gtpv2.antt =====
-- Package gtpv2.
pub mod Ie
pub mod Header
pub mod Session
pub mod Conn
pub mod Message
