-- ===== src/Gtpv1.antt =====
-- Package gtpv1.
pub mod Header
pub mod Ie
pub mod Tpdu
pub mod Message
