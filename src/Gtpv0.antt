-- ===== src/Gtpv0.antt =====
-- Package gtpv0.
pub mod Header
pub mod Ie
pub mod Message
pub mod Tpdu
