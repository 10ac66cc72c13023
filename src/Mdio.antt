-- ===== src/Mdio.antt =====
-- src/mdio/: the active MDIO master and its USB command bridge.
pub mod Slot
pub mod Master
pub mod Bridge
