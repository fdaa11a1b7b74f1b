-- ===== src/Packet.antt =====
-- Packet headers: drivers/firewire/packet-header-definitions.h and phy-packet-definitions.h.
pub mod Async
pub mod Isoc
pub mod Phy
