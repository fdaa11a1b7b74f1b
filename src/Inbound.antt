-- ===== src/Inbound.antt =====
-- Requests of other nodes, in drivers/firewire/core-transaction.c.
pub mod Handlers
pub mod Response
pub mod Timeout
