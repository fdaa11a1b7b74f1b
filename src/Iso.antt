-- ===== src/Iso.antt =====
-- Isochronous bus resources: drivers/firewire/core-iso.c against the resource manager of the bus
-- (`Manage`), and sound/firewire/iso-resources.c over it (`Resources`).
pub mod Manage
pub mod Laws
pub mod Exchange
pub mod Register
pub mod Resources
